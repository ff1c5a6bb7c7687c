-- ===== src/Service/Capture/Effect.antt =====
-- What a capture does, and why it refuses (`Intents.Capture` of
-- nem_pay/api/internal/service/money.go).
use monorepo_payment.Base.{
  suc, ◌<◌, ◌≡◌, refl, ◌∙◌, ap, true, false, Option, none, some, arith, find?,
}
use monorepo_payment.StateMachine.{direct, escrow, captured, can_transition, Mode}
use monorepo_payment.StateMachine.Graph.{here, step}
use monorepo_payment.Chart.{
  asset, liability, acquirer_receivable, merchant_payable, escrow_liability, TransactionKind,
}
use monorepo_payment.Errors.{Error, db_failure, bank_unavailable, bank_declined, invalid_state}
use monorepo_payment.Db.{Uuid, PaymentIntent, Database}
use monorepo_payment.Db.Exec.{
  Env, Session, HasFault, Gives, Atomic, Ends, Gives-bind, Gives-require, Atomic-in_tx, Ends-mono,
}
use monorepo_payment.Db.Intents.{has_id}
use monorepo_payment.Bank.{Client, Outcome, approved, declined}
use monorepo_payment.Service.{account}
use monorepo_payment.Service.Rules.{Advances, capture_lines, owed_kind}
use monorepo_payment.Service.Steps.{
  Found-ids, Found-has_id, begin-Gives, account-Gives, per_ref_account-Gives,
}
use monorepo_payment.Service.Posting.{Ready, Ready-same}
use monorepo_payment.Service.Pairs.{OpensFor, pair-Gives}
use monorepo_payment.Service.Valid.{IsValid, Found-IntentOk}
use monorepo_payment.Service.Capture.{
  answer, is_approved, payable_account, capture_post, capture_body, capture, CaptureRefused, fault,
  missing, state, unavailable, refused, Captured,
}

module _ (env : Env) (E : Error → Type 0) (failed : HasFault env → E db_failure) where
  payable_account-OpensFor :
      (mode : Mode) (m : Uuid) (pi : PaymentIntent) (old : Database)
      → OpensFor env E old m pi.currency (owed_kind mode) (payable_account mode m pi)
  unfolding payable_account
  payable_account-OpensFor direct m pi old s r =
      account-Gives env E failed m liability merchant_payable pi.currency s r.distinct
  payable_account-OpensFor escrow m pi old s r =
      per_ref_account-Gives env E failed m liability escrow_liability pi.currency pi.id s r.distinct

  capture_post-Gives :
      (old : Database) (m : Uuid) (pi : PaymentIntent) (s : Session)
      → find? (has_id pi.id) old.intents ≡ some pi
      → can_transition pi.settlement_mode pi.status captured ≡ true
      → pi.merchant_id ≡ m
      → 0 < pi.amount
      → Ready old s.db
      → Gives
          (Ends (Advances old env.now pi captured (capture_lines pi.settlement_mode pi.amount)) old)
          E
          (capture_post m pi env s)
  unfolding capture_post
  capture_post-Gives old m pi s found legal owner positive r =
      pair-Gives env E failed old pi captured m TransactionKind.capture acquirer_receivable
        (owed_kind pi.settlement_mode) pi.amount (account m asset acquirer_receivable pi.currency)
        (payable_account pi.settlement_mode m pi) s found (step pi.status here legal) owner positive
        (λ s' r'. account-Gives env E failed m asset acquirer_receivable pi.currency s' r'.distinct)
        (payable_account-OpensFor pi.settlement_mode m pi old) r

-- The bank's answer, or ErrBankUnavailable.
pub answer-Gives :
    (env : Env) (E : Error → Type 0) (o : Option Outcome) (s : Session)
    → (o ≡ none → E bank_unavailable)
    → Gives (λ outcome db. (o ≡ some outcome) × (db ≡ s.db)) E (answer o env s)
answer-Gives env E none s no_bank = no_bank refl
answer-Gives env E (some outcome) s no_bank = (refl, refl)

is_approved_eq : (o : Outcome) → is_approved o ≡ true → o ≡ approved
is_approved_eq o h = ground arith

not_approved_eq : (o : Outcome) → is_approved o ≡ false → o ≡ declined
not_approved_eq o h = ground arith

module _ (env : Env) (bank : Client) (id m : Uuid) (old : Database) (valid : IsValid old) where
  capture_body-Gives :
      (s : Session)
      → s.db ≡ old
      → Gives
          (Ends (Captured env.now bank id m old) old)
          (CaptureRefused env bank old id m)
          (capture_body bank id m env s)
  unfolding capture_body
  capture_body-Gives s same =
      let E = CaptureRefused env bank old id m in
      let Q = Ends (Captured env.now bank id m old) old in
      Gives-bind env E _ Q _ _ s (begin-Gives env E fault id m s old same missing)
        λ pi s₁ (row, same₁).
          Gives-require env E Q (can_transition pi.settlement_mode pi.status captured) invalid_state
            _ s₁ (λ e. state pi row e)
            λ legal.
              Gives-bind env E _ Q _ _ s₁
                (answer-Gives env E (bank.capture pi.id pi.amount) s₁ (λ e. unavailable pi row e))
                λ outcome s₂ (answered, same₂).
                  Gives-require env E Q (is_approved outcome) bank_declined _ s₂
                    (λ e. refused pi row (answered ∙ ap some (not_approved_eq outcome e)))
                    λ e.
                      let agreed = answered ∙ ap some (is_approved_eq outcome e) in
                      Ends-mono E
                        (Advances old env.now pi captured
                          (capture_lines pi.settlement_mode pi.amount))
                        (Captured env.now bank id m old) old (capture_post m pi env s₂)
                        (λ updated db done. record {
                          pi = pi;
                          row = row;
                          legal = legal;
                          agreed = agreed;
                          advances = done;
                        })
                        (capture_post-Gives env E fault old m pi s₂
                          (Found-has_id old id m pi valid.distinct_intents row) legal
                          (Found-ids old id m pi row).1
                          (Found-IntentOk old id m pi valid row).positive
                          (Ready-same old s₂.db valid.distinct_accounts (same₂ ∙ same₁)))

-- On valid tables a capture either reports why it is refused (a failed statement, no such intent of
-- the merchant, a status that may not be captured, the bank's silence or its refusal) and leaves
-- every table as it was, or the bank has approved the amount and one step is done: the status is
-- captured, the acquirer's receivable is debited and the merchant's payable (direct) or the escrow
-- liability (escrow) credited by the amount, and one event is emitted.
pub capture-Atomic :
    (env : Env) (bank : Client) (id m : Uuid) (s : Session)
    → IsValid s.db
    → Atomic
        (Captured env.now bank id m s.db)
        (CaptureRefused env bank s.db id m)
        s.db
        (capture bank id m env s)
unfolding capture
capture-Atomic env bank id m s valid =
    Atomic-in_tx env (CaptureRefused env bank s.db id m) fault (Captured env.now bank id m s.db)
      (capture_body bank id m) s
      (capture_body-Gives env bank id m s.db valid (record s { sent = suc s.sent }) refl)
