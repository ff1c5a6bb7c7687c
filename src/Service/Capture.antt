-- ===== src/Service/Capture.antt =====
-- `Intents.Capture` of nem_pay/api/internal/service/money.go.
pub mod Effect
use monorepo_payment.Base.{
  ℕ, ◌≡◌, refl, sym, ◌∙◌, ap, subst, Bool, true, false, List, [], ◌∷◌, Option, none, some, Bytes,
  find?, if◌then◌else◌, arith, Option-cases, inl, inr,
}
use monorepo_payment.Base.Int.{ℤ, pos}
use monorepo_payment.StateMachine.{Mode, direct, escrow, mode_eq, Status, captured, can_transition}
use monorepo_payment.StateMachine.Graph.{here, step}
use monorepo_payment.Chart.{
  asset, liability, acquirer_receivable, merchant_payable, escrow_liability, TransactionKind,
}
use monorepo_payment.Errors.{
  Error, db_failure, intent_not_found, invalid_state, bank_unavailable, bank_declined,
}
use monorepo_payment.Db.{Uuid, PaymentIntent, Database}
use monorepo_payment.Db.Exec.{
  Env, Session, Exec, Ending, HasFault, Gives, Atomic, Ends, Gives-bind, Gives-require,
  Atomic-in_tx, in_tx, require, raise, pure, ◌>>=◌, ◌>>◌,
}
use monorepo_payment.Db.Intents.{is_of}
use monorepo_payment.Db.Accounts.{Owned}
use monorepo_payment.Db.Accounts.Open.{Opens}
use monorepo_payment.Ledger.{Leg, post_transaction}
use monorepo_payment.Bank.{Client, Outcome, approved, declined}
use monorepo_payment.Service.{lock, account, per_ref_account, debit_leg, credit_leg, advance}
use monorepo_payment.Service.Rules.{Posted, Advances, capture_lines, owed_kind}
use monorepo_payment.Service.Steps.{
  Found, Found-ids, Found-has_id, lock-Gives, account-Gives, per_ref_account-Gives, advance-Gives,
}
use monorepo_payment.Service.Posting.{
  Ready, Ready-same, Ready-open, Owned-Grows, debit_good, credit_good, post-Gives,
}
use monorepo_payment.Service.Valid.{IsValid, Found-IntentOk}

-- An error of the bank call is ErrBankUnavailable.
abbrev pub answer : Option Outcome → Exec Outcome
answer none = raise bank_unavailable
answer (some outcome) = pure outcome

abbrev pub is_approved : Outcome → Bool
is_approved approved = true
is_approved declined = false

-- The credit destination by mode.
unfoldable pub payable_account : Mode → Uuid → PaymentIntent → Exec Uuid
payable_account mode merchant_id pi =
    if mode_eq mode escrow
    then per_ref_account merchant_id liability escrow_liability pi.currency pi.id
    else account merchant_id liability merchant_payable pi.currency

abbrev pub capture_legs : PaymentIntent → Uuid → Uuid → List Leg
capture_legs pi recv payable =
    debit_leg recv (pos pi.amount) pi.currency ∷ credit_leg payable (pos pi.amount) pi.currency ∷ []

-- From the accounts on, once the bank has approved.
unfoldable pub capture_post : Uuid → PaymentIntent → Exec (Ending PaymentIntent)
capture_post merchant_id pi = do
  recv ← account merchant_id asset acquirer_receivable pi.currency
  payable ← payable_account pi.settlement_mode merchant_id pi
  post_transaction merchant_id TransactionKind.capture (some pi.id) (capture_legs pi recv payable)
  advance pi.id captured

-- The body of the transaction.
unfoldable pub capture_body : Client → Uuid → Uuid → Exec (Ending PaymentIntent)
capture_body bank id merchant_id = do
  pi ← lock id merchant_id
  require (can_transition pi.settlement_mode pi.status captured) invalid_state
  outcome ← answer (bank.capture pi.id pi.amount)
  require (is_approved outcome) bank_declined
  capture_post merchant_id pi

unfoldable pub capture : Client → Uuid → Uuid → Exec PaymentIntent
capture bank id merchant_id = in_tx (capture_body bank id merchant_id)

-- Why a capture is refused.
pub data CaptureRefused (env : Env) (bank : Client) (db : Database) (id m : Uuid)
    : Error → Type 0 where
  fault : HasFault env → CaptureRefused env bank db id m db_failure
  missing : find? (is_of id m) db.intents ≡ none → CaptureRefused env bank db id m intent_not_found
  state :
      (pi : PaymentIntent)
      → Found db id m pi
      → can_transition pi.settlement_mode pi.status captured ≡ false
      → CaptureRefused env bank db id m invalid_state
  unavailable :
      (pi : PaymentIntent)
      → Found db id m pi
      → bank.capture pi.id pi.amount ≡ none
      → CaptureRefused env bank db id m bank_unavailable
  refused :
      (pi : PaymentIntent)
      → Found db id m pi
      → bank.capture pi.id pi.amount ≡ some declined
      → CaptureRefused env bank db id m bank_declined

-- What an accepted capture has done.
pub record Captured (now : ℕ) (bank : Client) (id m : Uuid) (old : Database)
    (updated : PaymentIntent) (db : Database) : Type 0 where
  pub pi : PaymentIntent
  pub row : Found old id m pi
  pub legal : can_transition pi.settlement_mode pi.status captured ≡ true
  pub agreed : bank.capture pi.id pi.amount ≡ some approved
  pub advances :
      Advances old now pi captured (capture_lines pi.settlement_mode pi.amount) updated db
