-- ===== src/Service/Rules.antt =====
-- The accounting rules of the money service, stated apart from its code: which lines each movement
-- of money posts, and what one accepted step of an intent does to the tables.
use monorepo_payment.Base.{
  ℕ, ◌-◌, ◌≡◌, List, [], ◌∷◌, ◌++◌, if◌then◌else◌, ltb, find?, Option, none, some, Bytes,
}
use monorepo_payment.StateMachine.{
  Mode, direct, escrow, Status, settled, held_in_escrow, authorized, failed,
}
use monorepo_payment.Bank.{Outcome, approved, declined}
use monorepo_payment.StateMachine.Graph.{Walk}
use monorepo_payment.Chart.{
  AccountKind, platform_cash, acquirer_receivable, merchant_payable, segregated_cash,
  escrow_liability, payable_to_payee, platform_revenue,
}
use monorepo_payment.Db.{Uuid, PaymentIntent, Entry, OutboxRow, Database}
use monorepo_payment.Db.Intents.{has_id, with_status, set_status}
use monorepo_payment.Db.Accounts.{Grows}
use monorepo_payment.Db.Accounts.Open.{DistinctAccounts}
use monorepo_payment.Ledger.Books.{Line, Lands}
use monorepo_payment.Service.{event_type_for, payload_of}

abbrev pub dr : AccountKind → ℕ → Line
dr kind amount = record { kind = kind; reference = none; debit = amount; credit = 0 }

-- On the account of a reference, or on any of the kind.
abbrev pub cr_for : AccountKind → Option Uuid → ℕ → Line
cr_for kind ref amount = record { kind = kind; reference = ref; debit = 0; credit = amount }

abbrev pub cr : AccountKind → ℕ → Line
cr kind amount = cr_for kind none amount

-- Whom a captured amount is owed to.
abbrev pub owed_kind : Mode → AccountKind
owed_kind direct = merchant_payable
owed_kind escrow = escrow_liability

-- Where a settled amount lies.
abbrev pub cash_kind : Mode → AccountKind
cash_kind direct = platform_cash
cash_kind escrow = segregated_cash

-- The asset that a refund of a direct intent comes out of: cash once it has settled.
abbrev pub refund_kind : Status → AccountKind
refund_kind settled = platform_cash
refund_kind _ = acquirer_receivable

-- The status a settlement ends in.
abbrev pub settled_as : Mode → Status
settled_as direct = settled
settled_as escrow = held_in_escrow

-- The status the bank's answer leads to.
abbrev pub confirmed_as : Outcome → Status
confirmed_as approved = authorized
confirmed_as declined = failed

abbrev pub capture_lines : Mode → ℕ → List Line
capture_lines mode a = dr acquirer_receivable a ∷ cr (owed_kind mode) a ∷ []

abbrev pub settle_lines : Mode → ℕ → List Line
settle_lines mode a = dr (cash_kind mode) a ∷ cr acquirer_receivable a ∷ []

abbrev pub refund_lines : Mode → Status → ℕ → List Line
refund_lines direct from x = dr merchant_payable x ∷ cr (refund_kind from) x ∷ []
refund_lines escrow from x = dr escrow_liability x ∷ cr segregated_cash x ∷ []

-- Zero lines are left out.
abbrev pub unless_zero : AccountKind → Option Uuid → ℕ → List Line
unless_zero kind ref n = if ltb 0 n then cr_for kind ref n ∷ [] else []

-- The payable is that of the payee.
abbrev pub release_lines : ℕ → ℕ → Uuid → List Line
release_lines a fee payee =
    dr escrow_liability a
    ∷ dr platform_cash a
    ∷ cr segregated_cash a
    ∷ (unless_zero payable_to_payee (some payee) (a - fee) ++ unless_zero platform_revenue none fee)

-- From `old` to `db` accounts may have been added, and the lines `ls` were posted as entries of one
-- transaction; nothing else has changed in the tables of entries, intents and outbox.
pub record Posted (old : Database) (m : Uuid) (c : Bytes) (ls : List Line) (db : Database)
    : Type 0 where
  pub transaction : Uuid
  pub new : List Entry
  pub entries : db.entries ≡ old.entries ++ new
  pub lands : Lands db.accounts m c transaction ls new
  pub distinct : DistinctAccounts db.accounts
  pub grows : Grows old.accounts db.accounts
  pub intents : db.intents ≡ old.intents
  pub outbox : db.outbox ≡ old.outbox

-- One accepted step of the intent `pi` to the status `next` at the time `now`: the status is written,
-- the lines `ls` are posted for the intent's merchant and currency, and exactly one event, with the
-- type and the payload of the new status, is put behind the outbox.
pub record Advances (old : Database) (now : ℕ) (pi : PaymentIntent) (next : Status) (ls : List Line)
    (updated : PaymentIntent) (db : Database) : Type 0 where
  pub found : find? (has_id pi.id) old.intents ≡ some pi
  pub walk : Walk pi.settlement_mode pi.status next
  pub result : updated ≡ with_status next now pi
  pub transaction : Uuid
  pub new : List Entry
  pub entries : db.entries ≡ old.entries ++ new
  pub lands : Lands db.accounts pi.merchant_id pi.currency transaction ls new
  pub distinct : DistinctAccounts db.accounts
  pub grows : Grows old.accounts db.accounts
  pub intents : db.intents ≡ set_status pi.id next now old.intents
  pub event : OutboxRow
  pub outbox : db.outbox ≡ old.outbox ++ event ∷ []
  pub event_merchant : event.merchant_id ≡ pi.merchant_id
  pub event_type : event.event_type ≡ event_type_for next
  pub event_payload : event.payload ≡ payload_of updated
