-- ===== src/Service/Release/Effect.antt =====
-- What a release does, and why it refuses (`Intents.Release` of
-- nem_pay/api/internal/service/money.go).
use monorepo_payment.Base.{suc, ◌≡◌, refl, ◌∙◌, ap, true, Option, none, some, arith}
use monorepo_payment.Base.Int.{pos, wrap64, ◌-ℤ◌}
use monorepo_payment.StateMachine.{Mode, direct, escrow, Status, released, can_transition}
use monorepo_payment.Errors.{invalid_state}
use monorepo_payment.Db.{Uuid, PaymentIntent, Database}
use monorepo_payment.Db.Exec.{
  Env, Session, Gives, Atomic, Ends, Gives-bind, Gives-require, Atomic-in_tx, Ends-mono,
}
use monorepo_payment.Service.Rules.{Advances, release_lines}
use monorepo_payment.Service.Steps.{Found, Found-ids, Found-has_id, begin-Gives}
use monorepo_payment.Service.Posting.{Ready-same}
use monorepo_payment.Service.Valid.{IsValid, Found-IntentOk}
use monorepo_payment.Service.Release.Legs.{payee_amount_lem}
use monorepo_payment.Service.Release.{
  fee_of, release_post, release_locked, release_body, release, ReleaseRefused, fault, missing,
  no_payee, state, Released,
}
use monorepo_payment.Service.Release.Paid.{release_post-Gives}

-- Only a held escrow intent may be released.
released_of_escrow :
    (mode : Mode) (s : Status) → can_transition mode s released ≡ true → mode ≡ escrow
unfolding can_transition
released_of_escrow escrow s h = refl
released_of_escrow direct s h = absurd (ground arith)

module _ (env : Env) (id m : Uuid) (old : Database) (valid : IsValid old) where
  release_some-Gives :
      (pi : PaymentIntent) (payee : Uuid) (s : Session)
      → pi.payee_id ≡ some payee
      → Found old id m pi
      → s.db ≡ old
      → Gives
          (Ends (Released env.now id m old) old)
          (ReleaseRefused env old id m)
          (release_locked m pi (some payee) env s)
  unfolding release_locked
  release_some-Gives pi payee s is row same =
      let E = ReleaseRefused env old id m in
      Gives-require env E (Ends (Released env.now id m old) old)
        (can_transition pi.settlement_mode pi.status released) invalid_state _ s
        (λ e. state pi row e)
        λ legal.
          let ok = Found-IntentOk old id m pi valid row in
          let of_escrow = released_of_escrow pi.settlement_mode pi.status legal in
          let (fee, recorded, within) = ok.fee of_escrow in
          Ends-mono E (Advances old env.now pi released (release_lines pi.amount fee payee))
            (Released env.now id m old) old (release_post m pi payee env s)
            (λ updated db done. record {
              pi = pi;
              row = row;
              of_escrow = of_escrow;
              legal = legal;
              payee = payee;
              payee_recorded = is;
              fee = fee;
              fee_recorded = recorded;
              fee_within = within;
              advances = done;
            })
            (release_post-Gives env E fault old m pi payee fee s
              (Found-has_id old id m pi valid.distinct_intents row) legal
              (Found-ids old id m pi row).1 ok.positive (ap fee_of recorded)
              (ap (λ x. wrap64 (pos pi.amount -ℤ fee_of x)) recorded
                ∙ payee_amount_lem pi.amount fee within ok.in_range)
              within (Ready-same old s.db valid.distinct_accounts same))

  release_locked-Gives :
      (pi : PaymentIntent) (payee : Option Uuid) (s : Session)
      → pi.payee_id ≡ payee
      → Found old id m pi
      → s.db ≡ old
      → Gives
          (Ends (Released env.now id m old) old)
          (ReleaseRefused env old id m)
          (release_locked m pi payee env s)
  unfolding release_locked
  release_locked-Gives pi none s e row same = no_payee pi row e
  release_locked-Gives pi (some payee) s e row same = release_some-Gives pi payee s e row same

  release_body-Gives :
      (s : Session)
      → s.db ≡ old
      → Gives
          (Ends (Released env.now id m old) old)
          (ReleaseRefused env old id m)
          (release_body id m env s)
  unfolding release_body
  release_body-Gives s same =
      let E = ReleaseRefused env old id m in
      Gives-bind env E _ (Ends (Released env.now id m old) old) _ _ s
        (begin-Gives env E fault id m s old same missing)
        λ pi s₁ (row, same₁). release_locked-Gives pi pi.payee_id s₁ refl row same₁

-- On valid tables a release either reports why it is refused (a failed statement, no such intent, no
-- payee, a status or a mode that may not be released) and leaves every table as it was, or one step is
-- done on an escrow intent: the escrow liability and the platform's cash are debited by the amount,
-- the segregated cash is credited by it, the payable that has the intent's payee as its reference by the amount less the recorded fee and
-- the revenue by the fee, the lines of a zero amount left out.
pub release-Atomic :
    (env : Env) (id m : Uuid) (s : Session)
    → IsValid s.db
    → Atomic (Released env.now id m s.db) (ReleaseRefused env s.db id m) s.db (release id m env s)
unfolding release
release-Atomic env id m s v =
    Atomic-in_tx env (ReleaseRefused env s.db id m) fault (Released env.now id m s.db)
      (release_body id m) s
      (release_body-Gives env id m s.db v (record s { sent = suc s.sent }) refl)
