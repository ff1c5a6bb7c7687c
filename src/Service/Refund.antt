-- ===== src/Service/Refund.antt =====
-- `Intents.Refund` of nem_pay/api/internal/service/money.go.
pub mod Effect
pub mod Atomic
use monorepo_payment.Base.{
  ℕ, ◌<◌, ◌≤◌, ◌≡◌, Bool, true, false, ◌&&◌, not, [], ◌∷◌, List, Option, none, some, find?,
  if◌then◌else◌, ◌==◌,
}
use monorepo_payment.Base.Int.{ℤ, pos, leb_ℤ, ltb_ℤ, eq_ℤ}
use monorepo_payment.StateMachine.{
  Mode, escrow, direct, mode_eq, Status, captured, settled, refunded, partially_refunded, status_eq,
  can_transition,
}
use monorepo_payment.Chart.{
  AccountKind, asset, liability, acquirer_receivable, platform_cash, merchant_payable,
  escrow_liability, segregated_cash, TransactionKind,
}
use monorepo_payment.Errors.{
  Error, db_failure, intent_not_found, invalid_amount, invalid_state, partial_escrow_refund,
  refund_exceeds_capture, partial_refund_before_settle,
}
use monorepo_payment.Db.{Uuid, PaymentIntent, Database}
use monorepo_payment.Db.Exec.{Env, Exec, Ending, HasFault, in_tx, require, raise, ◌>>=◌, ◌>>◌}
use monorepo_payment.Db.Intents.{is_of}
use monorepo_payment.Ledger.{Leg, post_transaction}
use monorepo_payment.Service.{lock, account, per_ref_account, debit_leg, credit_leg, advance}
use monorepo_payment.Service.Rules.{Advances, refund_lines}
use monorepo_payment.Service.Steps.{Found}

abbrev pub refund_legs : PaymentIntent → ℤ → Uuid → Uuid → List Leg
refund_legs pi amount debit credit =
    debit_leg debit amount pi.currency ∷ credit_leg credit amount pi.currency ∷ []

-- The branch of escrow intents: the full amount only.
unfoldable pub refund_escrow : Uuid → PaymentIntent → ℤ → Exec (Ending PaymentIntent)
refund_escrow merchant_id pi amount = do
  require (eq_ℤ amount (pos pi.amount)) partial_escrow_refund
  require (can_transition pi.settlement_mode pi.status refunded) invalid_state
  escrow_liab ← per_ref_account merchant_id liability escrow_liability pi.currency pi.id
  seg_cash ← account merchant_id asset segregated_cash pi.currency
  post_transaction merchant_id TransactionKind.refund (some pi.id)
      (refund_legs pi amount escrow_liab seg_cash)
  advance pi.id refunded

abbrev pub next_of : PaymentIntent → ℤ → Status
next_of pi amount = if eq_ℤ amount (pos pi.amount) then refunded else partially_refunded

-- acquirer_receivable before the settlement, platform_cash after it.
abbrev pub credit_kind : Status → AccountKind
credit_kind status = if status_eq status settled then platform_cash else acquirer_receivable

unfoldable pub refund_direct : Uuid → PaymentIntent → ℤ → Exec (Ending PaymentIntent)
refund_direct merchant_id pi amount = do
  require (not (ltb_ℤ (pos pi.amount) amount)) refund_exceeds_capture
  require (not (status_eq pi.status captured && ltb_ℤ amount (pos pi.amount)))
      partial_refund_before_settle
  require (can_transition pi.settlement_mode pi.status (next_of pi amount)) invalid_state
  payable ← account merchant_id liability merchant_payable pi.currency
  credit ← account merchant_id asset (credit_kind pi.status) pi.currency
  post_transaction merchant_id TransactionKind.refund (some pi.id)
      (refund_legs pi amount payable credit)
  advance pi.id (next_of pi amount)

unfoldable pub refund_locked : Mode → Uuid → PaymentIntent → ℤ → Exec (Ending PaymentIntent)
refund_locked mode merchant_id pi amount =
    if mode_eq mode escrow
    then refund_escrow merchant_id pi amount
    else refund_direct merchant_id pi amount

unfoldable pub refund_body : Uuid → Uuid → ℤ → Exec (Ending PaymentIntent)
refund_body id merchant_id amount = do
  pi ← lock id merchant_id
  refund_locked pi.settlement_mode merchant_id pi amount

unfoldable pub refund : Uuid → Uuid → ℤ → Exec PaymentIntent
refund id merchant_id amount =
    if leb_ℤ amount (pos 0) then raise invalid_amount else in_tx (refund_body id merchant_id amount)

-- The refunds that must be of the full amount: of an escrow intent, and before the settlement.
abbrev pub full_only : Mode → Status → Bool
full_only escrow status = true
full_only direct captured = true
full_only direct _ = false

-- Why a refund is refused.
pub data RefundRefused (env : Env) (db : Database) (id m : Uuid) (amount : ℤ) : Error → Type 0 where
  fault : HasFault env → RefundRefused env db id m amount db_failure
  not_positive : leb_ℤ amount (pos 0) ≡ true → RefundRefused env db id m amount invalid_amount
  missing : find? (is_of id m) db.intents ≡ none → RefundRefused env db id m amount intent_not_found
  not_full :
      (pi : PaymentIntent)
      → Found db id m pi
      → pi.settlement_mode ≡ escrow
      → eq_ℤ amount (pos pi.amount) ≡ false
      → RefundRefused env db id m amount partial_escrow_refund
  too_much :
      (pi : PaymentIntent)
      → Found db id m pi
      → pi.settlement_mode ≡ direct
      → ltb_ℤ (pos pi.amount) amount ≡ true
      → RefundRefused env db id m amount refund_exceeds_capture
  before_settle :
      (pi : PaymentIntent)
      → Found db id m pi
      → pi.settlement_mode ≡ direct
      → pi.status ≡ captured
      → ltb_ℤ amount (pos pi.amount) ≡ true
      → RefundRefused env db id m amount partial_refund_before_settle
  state :
      (pi : PaymentIntent)
      → Found db id m pi
      → can_transition pi.settlement_mode pi.status (next_of pi amount) ≡ false
      → RefundRefused env db id m amount invalid_state

-- What an accepted refund of `n` has done.
pub record Refunded (now : ℕ) (id m : Uuid) (n : ℕ) (old : Database) (updated : PaymentIntent)
    (db : Database) : Type 0 where
  pub pi : PaymentIntent
  pub row : Found old id m pi
  pub positive : 0 < n
  pub within : n ≤ pi.amount
  pub full : full_only pi.settlement_mode pi.status ≡ true → n ≡ pi.amount
  pub legal : can_transition pi.settlement_mode pi.status (next_of pi (pos n)) ≡ true
  pub advances :
      Advances old now pi
        (next_of pi (pos n))
        (refund_lines pi.settlement_mode pi.status n)
        updated
        db
