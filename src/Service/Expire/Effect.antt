-- ===== src/Service/Expire/Effect.antt =====
-- What the expiry of one intent does (`expireOne` of nem_pay/api/internal/service/money.go).
use monorepo_payment.Base.{suc, ◌≡◌, refl, sym, ◌∙◌, Bool, true, false, []}
use monorepo_payment.StateMachine.{Mode, direct, escrow, Status, created, failed, can_transition}
use monorepo_payment.StateMachine.Graph.{here, step}
use monorepo_payment.Db.{Uuid, PaymentIntent, Database}
use monorepo_payment.Db.Exec.{
  Env, Session, Ending, Gives, Atomic, Ends, Gives-bind, Atomic-in_tx, pure, commit, abandon,
}
use monorepo_payment.Service.{advance}
use monorepo_payment.Service.Rules.{Advances}
use monorepo_payment.Service.Steps.{Found, Found-has_id, begin-Gives, advance-Gives}
use monorepo_payment.Service.Posting.{Ready-same, Ready-Posted}
use monorepo_payment.Service.Valid.{IsValid}
use monorepo_payment.Service.Settle.{drop_result}
use monorepo_payment.Service.Expire.{
  expire_locked, expire_body, expire_one, may_fail, ExpireRefused, fault, missing, Expired, skipped,
  moved,
}

may_fail_lem : (mode : Mode) (s : Status) → can_transition mode s failed ≡ may_fail s
unfolding can_transition
may_fail_lem direct created = refl
may_fail_lem escrow created = refl
may_fail_lem _ _ = refl

module _ (env : Env) (id m : Uuid) (old : Database) (valid : IsValid old) where
  expire_end :
      (pi : PaymentIntent)
      → Found old id m pi
      → may_fail pi.status ≡ true
      → (ending : Ending PaymentIntent) (s : Session)
      → Ends (Advances old env.now pi failed []) old ending s.db
      → Ends (λ _ db. Expired env.now id m old db) old (drop_result ending) s.db
  expire_end pi row may (commit updated) s done = moved pi updated row may done
  expire_end pi row may (abandon updated) s done = moved pi updated row may done

  expire_locked-Gives :
      (pi : PaymentIntent) (b : Bool) (s : Session)
      → Found old id m pi
      → can_transition pi.settlement_mode pi.status failed ≡ b
      → s.db ≡ old
      → Gives
          (Ends (λ _ db. Expired env.now id m old db) old)
          (ExpireRefused env old id m)
          (expire_locked pi b env s)
  unfolding expire_locked
  expire_locked-Gives pi false s row e same =
      skipped pi row (sym (may_fail_lem pi.settlement_mode pi.status) ∙ e) refl
  expire_locked-Gives pi true s row e same =
      let may = sym (may_fail_lem pi.settlement_mode pi.status) ∙ e in
      Gives-bind env (ExpireRefused env old id m) (Ends (Advances old env.now pi failed []) old)
        (Ends (λ _ db. Expired env.now id m old db) old) (advance pi.id failed)
        (λ ending. pure (drop_result ending)) s
        (advance-Gives env (ExpireRefused env old id m) fault old pi failed [] s
          (Found-has_id old id m pi valid.distinct_intents row) (step pi.status here e)
          (Ready-Posted old s.db pi.merchant_id pi.currency
            (Ready-same old s.db valid.distinct_accounts same)))
        λ ending s₁ done. expire_end pi row may ending s₁ done

  expire_body-Gives :
      (s : Session)
      → s.db ≡ old
      → Gives
          (Ends (λ _ db. Expired env.now id m old db) old)
          (ExpireRefused env old id m)
          (expire_body id m env s)
  unfolding expire_body
  expire_body-Gives s same =
      let E = ExpireRefused env old id m in
      Gives-bind env E _ (Ends (λ _ db. Expired env.now id m old db) old) _ _ s
        (begin-Gives env E fault id m s old same missing)
        λ pi s₁ (row, same₁).
          expire_locked-Gives pi (can_transition pi.settlement_mode pi.status failed) s₁ row refl
            same₁

-- On valid tables the expiry of one intent either fails, with the database or with the intent that is
-- missing, and leaves every table as it was; or it finds an intent that is past authorized and changes
-- nothing; or the intent is created, requires confirmation or is authorized, and one step to failed is
-- done, with one event and no ledger entry.
pub expire_one-Atomic :
    (env : Env) (id m : Uuid) (s : Session)
    → IsValid s.db
    → Atomic
        (λ _ db. Expired env.now id m s.db db)
        (ExpireRefused env s.db id m)
        s.db
        (expire_one id m env s)
unfolding expire_one
expire_one-Atomic env id m s v =
    Atomic-in_tx env (ExpireRefused env s.db id m) fault (λ _ db. Expired env.now id m s.db db)
      (expire_body id m) s (expire_body-Gives env id m s.db v (record s { sent = suc s.sent }) refl)
