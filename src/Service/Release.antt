-- ===== src/Service/Release.antt =====
-- `Intents.Release` of nem_pay/api/internal/service/money.go.
pub mod Legs
pub mod Paid
pub mod Effect
use monorepo_payment.Base.{
  ℕ, ◌≤◌, ◌≡◌, Bool, true, false, List, [], ◌∷◌, ◌++◌, Option, none, some, find?, if◌then◌else◌,
  Bytes,
}
use monorepo_payment.Base.Int.{ℤ, pos, ltb_ℤ, wrap64, ◌-ℤ◌}
use monorepo_payment.StateMachine.{escrow, released, can_transition}
use monorepo_payment.Chart.{
  asset, liability, revenue, platform_cash, segregated_cash, escrow_liability, payable_to_payee,
  platform_revenue, TransactionKind,
}
use monorepo_payment.Errors.{Error, db_failure, intent_not_found, invalid_state}
use monorepo_payment.Db.{Uuid, PaymentIntent, Database}
use monorepo_payment.Db.Exec.{Env, Exec, Ending, HasFault, in_tx, require, raise, pure, ◌>>=◌, ◌>>◌}
use monorepo_payment.Db.Intents.{is_of}
use monorepo_payment.Ledger.{Leg, post_transaction}
use monorepo_payment.Service.{lock, account, per_ref_account, debit_leg, credit_leg, advance}
use monorepo_payment.Service.Rules.{Advances, release_lines}
use monorepo_payment.Service.Steps.{Found}

abbrev pub fee_of : Option ℤ → ℤ
fee_of none = pos 0
fee_of (some fee) = fee

abbrev pub payee_amount : PaymentIntent → ℤ
payee_amount pi = wrap64 (pos pi.amount -ℤ fee_of pi.application_fee)

-- A credit leg on the account that `open_account` opens, left out unless the amount is positive.
unfoldable pub credit_if : Exec Uuid → Bytes → ℤ → Exec (List Leg)
credit_if open_account currency amount =
    if ltb_ℤ (pos 0) amount
    then (open_account >>= λ id. pure (credit_leg id amount currency ∷ []))
    else pure []

abbrev pub release_legs : PaymentIntent → Uuid → Uuid → Uuid → List Leg → List Leg → List Leg
release_legs pi escrow_liab platform seg_cash payable_leg revenue_leg =
    debit_leg escrow_liab (pos pi.amount) pi.currency
    ∷ debit_leg platform (pos pi.amount) pi.currency
    ∷ credit_leg seg_cash (pos pi.amount) pi.currency
    ∷ (payable_leg ++ revenue_leg)

-- From the optional legs on; a payee is paid `to_payee`, the platform `fee`.
unfoldable pub release_paid :
    Uuid → PaymentIntent → Uuid → ℤ → ℤ → Uuid → Uuid → Uuid → Exec (Ending PaymentIntent)
release_paid merchant_id pi payee to_payee fee escrow_liab platform seg_cash = do
  payable_leg ←
      credit_if (per_ref_account merchant_id liability payable_to_payee pi.currency payee)
        pi.currency to_payee
  revenue_leg ← credit_if (account merchant_id revenue platform_revenue pi.currency) pi.currency fee
  post_transaction merchant_id TransactionKind.release (some pi.id)
      (release_legs pi escrow_liab platform seg_cash payable_leg revenue_leg)
  advance pi.id released

-- From the accounts on.
unfoldable pub release_post : Uuid → PaymentIntent → Uuid → Exec (Ending PaymentIntent)
release_post merchant_id pi payee = do
  escrow_liab ← per_ref_account merchant_id liability escrow_liability pi.currency pi.id
  seg_cash ← account merchant_id asset segregated_cash pi.currency
  platform ← account merchant_id asset platform_cash pi.currency
  release_paid merchant_id pi payee (payee_amount pi) (fee_of pi.application_fee) escrow_liab
      platform seg_cash

-- `!CanTransition(…) || pi.PayeeID == nil`, with the payee of the rest of the body.
unfoldable pub release_locked : Uuid → PaymentIntent → Option Uuid → Exec (Ending PaymentIntent)
release_locked merchant_id pi none = raise invalid_state
release_locked merchant_id pi (some payee) = do
  require (can_transition pi.settlement_mode pi.status released) invalid_state
  release_post merchant_id pi payee

unfoldable pub release_body : Uuid → Uuid → Exec (Ending PaymentIntent)
release_body id merchant_id = do pi ← lock id merchant_id; release_locked merchant_id pi pi.payee_id

unfoldable pub release : Uuid → Uuid → Exec PaymentIntent
release id merchant_id = in_tx (release_body id merchant_id)

-- Why a release is refused.
pub data ReleaseRefused (env : Env) (db : Database) (id m : Uuid) : Error → Type 0 where
  fault : HasFault env → ReleaseRefused env db id m db_failure
  missing : find? (is_of id m) db.intents ≡ none → ReleaseRefused env db id m intent_not_found
  no_payee :
      (pi : PaymentIntent)
      → Found db id m pi
      → pi.payee_id ≡ none
      → ReleaseRefused env db id m invalid_state
  state :
      (pi : PaymentIntent)
      → Found db id m pi
      → can_transition pi.settlement_mode pi.status released ≡ false
      → ReleaseRefused env db id m invalid_state

-- What an accepted release has done.
pub record Released (now : ℕ) (id m : Uuid) (old : Database) (updated : PaymentIntent)
    (db : Database) : Type 0 where
  pub pi : PaymentIntent
  pub row : Found old id m pi
  pub of_escrow : pi.settlement_mode ≡ escrow
  pub legal : can_transition pi.settlement_mode pi.status released ≡ true
  pub payee : Uuid
  pub payee_recorded : pi.payee_id ≡ some payee
  pub fee : ℕ
  pub fee_recorded : pi.application_fee ≡ some (pos fee)
  pub fee_within : fee ≤ pi.amount
  pub advances : Advances old now pi released (release_lines pi.amount fee payee) updated db
