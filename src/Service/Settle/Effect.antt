-- ===== src/Service/Settle/Effect.antt =====
-- What the settlement of one intent does (`settleOne` of nem_pay/api/internal/service/money.go).
use monorepo_payment.Base.{suc, ◌≡◌, refl, sym, subst, Bool, true, false, arith, not_both}
use monorepo_payment.StateMachine.{
  Mode, direct, escrow, Status, captured, status_eq, can_transition,
}
use monorepo_payment.StateMachine.Graph.{here, step}
use monorepo_payment.Chart.{asset, acquirer_receivable, TransactionKind}
use monorepo_payment.Errors.{invalid_state}
use monorepo_payment.Db.{Uuid, PaymentIntent, Database}
use monorepo_payment.Db.Exec.{
  Env, Session, Ending, Gives, Atomic, Ends, Gives-bind, Gives-require, Atomic-in_tx, pure, commit,
  abandon,
}
use monorepo_payment.Service.{account}
use monorepo_payment.Service.Rules.{Advances, settle_lines, settled_as, cash_kind}
use monorepo_payment.Service.Steps.{Found, Found-ids, Found-has_id, begin-Gives, account-Gives}
use monorepo_payment.Service.Posting.{Ready-same}
use monorepo_payment.Service.Pairs.{OpensFor, pair-Gives}
use monorepo_payment.Service.Valid.{IsValid, Found-IntentOk}
use monorepo_payment.Service.Settle.{
  target_of, cash_of, drop_result, settle_captured, settle_locked, settle_body, settle_one,
  SettleRefused, fault, missing, Settled, skipped, moved,
}

cash_of_lem : (mode : Mode) → cash_of mode ≡ cash_kind mode
cash_of_lem direct = refl
cash_of_lem escrow = refl

target_of_lem : (mode : Mode) → target_of mode ≡ settled_as mode
target_of_lem direct = refl
target_of_lem escrow = refl

pub captured_only : (s : Status) → status_eq s captured ≡ true → s ≡ captured
captured_only captured e = refl
captured_only _ e = absurd (ground arith)

settle_edge : (mode : Mode) → can_transition mode captured (target_of mode) ≡ true
unfolding can_transition
settle_edge direct = refl
settle_edge escrow = refl

settle_legal :
    (mode : Mode) (s : Status) → s ≡ captured → can_transition mode s (target_of mode) ≡ true
settle_legal mode s e =
    subst (λ x. can_transition mode x (target_of mode) ≡ true) (sym e) (settle_edge mode)

module _ (env : Env) (id m : Uuid) (old : Database) (valid : IsValid old) where
  settle_captured-Gives :
      (pi : PaymentIntent) (s : Session)
      → Found old id m pi
      → pi.status ≡ captured
      → s.db ≡ old
      → Gives
          (Ends
            (Advances old env.now pi
              (target_of pi.settlement_mode)
              (settle_lines pi.settlement_mode pi.amount))
            old)
          (SettleRefused env old id m)
          (settle_captured m pi env s)
  unfolding settle_captured
  settle_captured-Gives pi s row is_captured same =
      let E = SettleRefused env old id m in
      let legal = settle_legal pi.settlement_mode pi.status is_captured in
      Gives-require env E _
        (can_transition pi.settlement_mode pi.status (target_of pi.settlement_mode)) invalid_state _
        s (λ e. absurd (not_both e legal))
        λ _.
          pair-Gives env E fault old pi (target_of pi.settlement_mode) m TransactionKind.settle
            (cash_kind pi.settlement_mode) acquirer_receivable pi.amount
            (account m asset (cash_of pi.settlement_mode) pi.currency)
            (account m asset acquirer_receivable pi.currency) s
            (Found-has_id old id m pi valid.distinct_intents row) (step pi.status here legal)
            (Found-ids old id m pi row).1 (Found-IntentOk old id m pi valid row).positive
            (subst
              (λ k.
                OpensFor env E old m pi.currency k
                  (account m asset (cash_of pi.settlement_mode) pi.currency))
              (cash_of_lem pi.settlement_mode)
              λ s₁ r.
                account-Gives env E fault m asset (cash_of pi.settlement_mode) pi.currency s₁
                  r.distinct)
            (λ s₁ r.
              account-Gives env E fault m asset acquirer_receivable pi.currency s₁ r.distinct)
            (Ready-same old s.db valid.distinct_accounts same)

  settled_step :
      (pi updated : PaymentIntent) (db : Database)
      → Advances old env.now pi
          (target_of pi.settlement_mode)
          (settle_lines pi.settlement_mode pi.amount)
          updated
          db
      → Advances old env.now pi
          (settled_as pi.settlement_mode)
          (settle_lines pi.settlement_mode pi.amount)
          updated
          db
  settled_step pi updated db =
      subst (λ t. Advances old env.now pi t (settle_lines pi.settlement_mode pi.amount) updated db)
        (target_of_lem pi.settlement_mode)

  settle_end :
      (pi : PaymentIntent)
      → Found old id m pi
      → pi.status ≡ captured
      → (ending : Ending PaymentIntent) (s : Session)
      → Ends
          (Advances old env.now pi
            (target_of pi.settlement_mode)
            (settle_lines pi.settlement_mode pi.amount))
          old
          ending
          s.db
      → Ends (λ _ db. Settled env.now id m old db) old (drop_result ending) s.db
  settle_end pi row is_captured (commit updated) s done =
      moved pi updated row is_captured (settled_step pi updated s.db done)
  settle_end pi row is_captured (abandon updated) s done =
      moved pi updated row is_captured (settled_step pi updated old done)

  settle_locked-Gives :
      (pi : PaymentIntent) (b : Bool) (s : Session)
      → Found old id m pi
      → status_eq pi.status captured ≡ b
      → s.db ≡ old
      → Gives
          (Ends (λ _ db. Settled env.now id m old db) old)
          (SettleRefused env old id m)
          (settle_locked m pi b env s)
  unfolding settle_locked
  settle_locked-Gives pi false s row e same = skipped pi row e refl
  settle_locked-Gives pi true s row e same =
      let E = SettleRefused env old id m in
      let is_captured = captured_only pi.status e in
      let A =
        Advances old env.now pi (target_of pi.settlement_mode)
          (settle_lines pi.settlement_mode pi.amount) in
      Gives-bind env E (Ends A old) (Ends (λ _ db. Settled env.now id m old db) old)
        (settle_captured m pi) (λ ending. pure (drop_result ending)) s
        (settle_captured-Gives pi s row is_captured same)
        λ ending s₁ done. settle_end pi row is_captured ending s₁ done

  settle_body-Gives :
      (s : Session)
      → s.db ≡ old
      → Gives
          (Ends (λ _ db. Settled env.now id m old db) old)
          (SettleRefused env old id m)
          (settle_body id m env s)
  unfolding settle_body
  settle_body-Gives s same =
      let E = SettleRefused env old id m in
      Gives-bind env E _ (Ends (λ _ db. Settled env.now id m old db) old) _ _ s
        (begin-Gives env E fault id m s old same missing)
        λ pi s₁ (row, same₁).
          settle_locked-Gives pi (status_eq pi.status captured) s₁ row refl same₁

-- On valid tables the settlement of one intent either fails, with the database or with the intent that
-- is missing, and leaves every table as it was; or it finds an intent that is not captured, under the
-- lock, and changes nothing; or it does one step: the receivable is credited by the amount, the cash
-- (direct) or the segregated cash (escrow) debited, and the status is settled or held in escrow.
pub settle_one-Atomic :
    (env : Env) (id m : Uuid) (s : Session)
    → IsValid s.db
    → Atomic
        (λ _ db. Settled env.now id m s.db db)
        (SettleRefused env s.db id m)
        s.db
        (settle_one id m env s)
unfolding settle_one
settle_one-Atomic env id m s v =
    Atomic-in_tx env (SettleRefused env s.db id m) fault (λ _ db. Settled env.now id m s.db db)
      (settle_body id m) s (settle_body-Gives env id m s.db v (record s { sent = suc s.sent }) refl)
