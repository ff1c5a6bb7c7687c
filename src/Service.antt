-- ===== src/Service.antt =====
-- The money service: nem_pay/api/internal/service/money.go and `EmitEvent` of
-- nem_pay/api/internal/outbox/emit.go. Each function opens one transaction; the calls of the bank
-- are those of the parameter `bank`.
pub mod Rules
pub mod Steps
pub mod Posting
pub mod Pairs
pub mod Valid
pub mod Confirm
pub mod Capture
pub mod Refund
pub mod Release
pub mod Settle
pub mod Expire
pub mod Sweep
pub mod Create
pub mod Calls
pub mod Tests
use Prim.Native.String.{String}
use monorepo_payment.Base.{
  ℕ, Bool, true, false, ◌&&◌, not, Option, none, some, List, [], ◌∷◌, ◌++◌, map, if◌then◌else◌,
  Bytes,
}
use monorepo_payment.Base.Int.{ℤ, pos, leb_ℤ, ltb_ℤ, eq_ℤ, wrap64, ◌-ℤ◌}
use monorepo_payment.StateMachine.{
  Mode, direct, escrow, mode_eq, Status, created, requires_confirmation, authorized, captured,
  settled, held_in_escrow, released, failed, refunded, partially_refunded, status_eq,
  can_transition,
}
use monorepo_payment.Chart.{
  AccountType, asset, liability, revenue, AccountKind, platform_cash, acquirer_receivable,
  merchant_payable, segregated_cash, escrow_liability, payable_to_payee, platform_revenue, capture,
  settle, refund, release,
}
use monorepo_payment.Errors.{
  Error, Result, ok, err, no_rows, intent_not_found, invalid_state, invalid_amount,
  bank_unavailable, bank_declined, partial_escrow_refund, refund_exceeds_capture,
  partial_refund_before_settle,
}
use monorepo_payment.Db.{
  Uuid, PaymentIntent, EventType, intent_authorized, intent_failed, intent_captured, intent_settled,
  intent_held_in_escrow, escrow_released, intent_refunded, intent_partially_refunded, other,
  Payload,
}
use monorepo_payment.Db.Exec.{
  Exec, Env, Session, pure, raise, require, ◌>>=◌, ◌>>◌, in_tx, Ending, commit, abandon,
}
use monorepo_payment.Db.Intents.{lock_intent_for_update, update_intent_status}
use monorepo_payment.Db.Accounts.{
  Book, get_or_create_singleton_account, get_or_create_per_ref_account,
}
use monorepo_payment.Db.Outbox.{insert_outbox}
use monorepo_payment.Ledger.{Leg, post_transaction}
use monorepo_payment.Bank.{Client, Outcome, approved, declined}

-- `eventTypeFor`.
unfoldable pub event_type_for : Status → EventType
event_type_for authorized = intent_authorized
event_type_for failed = intent_failed
event_type_for captured = intent_captured
event_type_for settled = intent_settled
event_type_for held_in_escrow = intent_held_in_escrow
event_type_for released = escrow_released
event_type_for refunded = intent_refunded
event_type_for partially_refunded = intent_partially_refunded
event_type_for status = other status

abbrev pub payload_of : PaymentIntent → Payload
payload_of pi = record {
  id = pi.id;
  status = pi.status;
  amount = pi.amount;
  currency = pi.currency;
  settlement_mode = pi.settlement_mode;
}

-- outbox.EmitEvent; uuid.New() gives an event id that is not in use.
unfoldable pub emit_event : Uuid → EventType → Payload → Exec (Unit {0})
emit_event merchant_id event_type payload env s =
    (insert_outbox merchant_id (env.gen (map (λ r. r.event_id) s.db.outbox)) event_type payload
        >> pure tt)
      env s

-- `emit`.
unfoldable pub emit : PaymentIntent → Exec (Unit {0})
emit pi = emit_event pi.merchant_id (event_type_for pi.status) (payload_of pi)

-- `errors.Is(err, pgx.ErrNoRows)` gives ErrIntentNotFound.
abbrev pub not_found_of : Error → Error
not_found_of no_rows = intent_not_found
not_found_of e = e

abbrev pub or_not_found : {A : Type 0} → Result A → Result A
or_not_found (ok a) = ok a
or_not_found (err e) = err (not_found_of e)

unfoldable pub lock : Uuid → Uuid → Exec PaymentIntent
lock id merchant_id env s =
    let (r, s') = lock_intent_for_update id merchant_id env s in (or_not_found r, s')

unfoldable pub account : Uuid → AccountType → AccountKind → Bytes → Exec Uuid
account merchant_id type kind currency = do
  a ←
      get_or_create_singleton_account type
        (record { merchant_id = merchant_id; kind = kind; currency = currency })
  pure a.id

unfoldable pub per_ref_account : Uuid → AccountType → AccountKind → Bytes → Uuid → Exec Uuid
per_ref_account merchant_id type kind currency ref = do
  a ←
      get_or_create_per_ref_account type
        (record { merchant_id = merchant_id; kind = kind; currency = currency }) ref
  pure a.id

-- {AccountID: …, Debit: …, Currency: …} and {AccountID: …, Credit: …, Currency: …}
abbrev pub debit_leg : Uuid → ℤ → Bytes → Leg
debit_leg id amount currency = record {
  account_id = id;
  debit = amount;
  credit = pos 0;
  currency = currency;
}

abbrev pub credit_leg : Uuid → ℤ → Bytes → Leg
credit_leg id amount currency = record {
  account_id = id;
  debit = pos 0;
  credit = amount;
  currency = currency;
}

-- UpdateIntentStatus, emit and tx.Commit, with which every one of these functions ends.
unfoldable pub advance : Uuid → Status → Exec (Ending PaymentIntent)
advance id next = do updated ← update_intent_status id next; emit updated; pure (commit updated)
