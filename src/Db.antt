-- ===== src/Db.antt =====
-- The tables of the gateway, as rows in insertion order: nem_pay/api/internal/repository/db/models.go
-- and the columns of nem_pay/api/db/migrations. Ids (uuid) are numbers, of which only equality is
-- used; uuid.Nil is 0. Columns that a CHECK keeps at 0 or above (entries.debit, entries.credit,
-- payment_intents.amount) are natural numbers, nullable columns are options, times are numbers.
pub mod Exec
pub mod Intents
pub mod Accounts
pub mod Entries
pub mod Outbox
pub mod Endpoints
pub mod Keys
pub mod Users
use monorepo_payment.Base.{ℕ, Bytes, Bool, Option, List, []}
use monorepo_payment.Base.Int.{ℤ}
use monorepo_payment.StateMachine.{Mode, Status}
use monorepo_payment.Chart.{AccountType, AccountKind, TransactionKind}

abbrev pub Uuid : Type 0
Uuid = ℕ

-- `Account` of models.go.
pub record Account : Type 0 where
  pub id : Uuid
  pub merchant_id : Uuid
  pub type : AccountType
  pub kind : AccountKind
  pub currency : Bytes
  pub reference_id : Option Uuid

-- `Entry` of models.go.
pub record Entry : Type 0 where
  pub id : Uuid
  pub transaction_id : Uuid
  pub account_id : Uuid
  pub debit : ℕ
  pub credit : ℕ
  pub currency : Bytes

-- `Transaction` of models.go.
pub record Transaction : Type 0 where
  pub id : Uuid
  pub merchant_id : Uuid
  pub kind : TransactionKind
  pub reference_id : Option Uuid

-- `PaymentIntent` of models.go.
pub record PaymentIntent : Type 0 where
  pub id : Uuid
  pub merchant_id : Uuid
  pub amount : ℕ
  pub currency : Bytes
  pub status : Status
  pub settlement_mode : Mode
  pub payee_id : Option Uuid
  pub application_fee : Option ℤ
  pub metadata : Bytes
  pub created_at : ℕ
  pub updated_at : ℕ

-- The event types of `eventTypeFor` in service/money.go; `other` is its default case, which
-- appends the status to "payment_intent.".
pub data EventType : Type 0 where
  intent_authorized intent_failed intent_captured intent_settled intent_held_in_escrow : EventType
  escrow_released intent_refunded intent_partially_refunded : EventType
  other : Status → EventType

-- The object that `emit` of service/money.go marshals.
pub record Payload : Type 0 where
  pub id : Uuid
  pub status : Status
  pub amount : ℕ
  pub currency : Bytes
  pub settlement_mode : Mode

pub data OutboxStatus : Type 0 where
  pending delivered dead : OutboxStatus

-- `Outbox` of models.go, without `last_error` and `created_at`, which no code that is modelled reads.
pub record OutboxRow : Type 0 where
  pub id : Uuid
  pub merchant_id : Uuid
  pub event_id : Uuid
  pub event_type : EventType
  pub payload : Payload
  pub status : OutboxStatus
  pub attempts : ℕ
  pub next_attempt_at : ℕ

-- `WebhookDelivery` of models.go; of `error` only whether one is recorded.
pub record Delivery : Type 0 where
  pub outbox_id : Uuid
  pub attempt : ℕ
  pub status_code : Option ℕ
  pub is_ok : Bool
  pub has_error : Bool

-- `WebhookEndpoint` of models.go.
pub record WebhookEndpoint : Type 0 where
  pub id : Uuid
  pub merchant_id : Uuid
  pub url : Bytes
  pub secret : Bytes
  pub created_at : ℕ
  pub disabled_at : Option ℕ

pub data KeyKind : Type 0 where
  publishable secret : KeyKind

-- `ApiKey` of models.go.
pub record ApiKey : Type 0 where
  pub id : Uuid
  pub merchant_id : Uuid
  pub kind : KeyKind
  pub token_prefix : Bytes
  pub token_hash : Bytes
  pub created_at : ℕ
  pub revoked_at : Option ℕ

-- `Merchant` of models.go.
pub record Merchant : Type 0 where
  pub id : Uuid
  pub name : Bytes
  pub created_at : ℕ

-- `User` of models.go.
pub record User : Type 0 where
  pub id : Uuid
  pub merchant_id : Uuid
  pub email : Bytes
  pub password_hash : Bytes
  pub created_at : ℕ

pub record Database : Type 0 where
  pub intents : List PaymentIntent
  pub accounts : List Account
  pub transactions : List Transaction
  pub entries : List Entry
  pub outbox : List OutboxRow
  pub deliveries : List Delivery
  pub endpoints : List WebhookEndpoint
  pub api_keys : List ApiKey
  pub merchants : List Merchant
  pub users : List User

abbrev pub empty_db : Database
empty_db = record {
  intents = [];
  accounts = [];
  transactions = [];
  entries = [];
  outbox = [];
  deliveries = [];
  endpoints = [];
  api_keys = [];
  merchants = [];
  users = [];
}
