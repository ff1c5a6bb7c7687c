-- ===== src/Db/Intents.antt =====
-- The statements over payment_intents:
-- nem_pay/api/internal/repository/db/payment_intents.sql.go.
pub mod Order
use monorepo_payment.Base.{
  ℕ, ◌≡◌, refl, Bool, true, false, ◌&&◌, ◌||◌, Option, none, some, List, [], ◌∷◌, ◌++◌, Bytes, ◌==◌,
  ltb, if◌then◌else◌, map, find?, update_where, select, take, drop, reverse, arith,
}
use monorepo_payment.Base.Int.{ℤ, pos, pos_part, ltb_ℤ}
use monorepo_payment.StateMachine.{
  Mode, Status, created, requires_confirmation, captured, status_eq,
}
use monorepo_payment.Errors.{
  Error, Result, ok, err, no_rows, check_violation, foreign_key_violation,
}
use monorepo_payment.Db.{Uuid, PaymentIntent, Merchant, Database}
use monorepo_payment.Db.Exec.{Env, Exec, stmt}
use Order.{order_by}

-- A statement `:one` gives its first row, or pgx.ErrNoRows.
abbrev pub one_row : {A : Type 0} → Option A → Database → Result (A × Database)
one_row none db = err no_rows
one_row (some a) db = ok (a, db)

abbrev pub has_id : Uuid → PaymentIntent → Bool
has_id id pi = pi.id == id

-- WHERE id = $1 AND merchant_id = $2
abbrev pub is_of : Uuid → Uuid → PaymentIntent → Bool
is_of id merchant_id pi = pi.id == id && pi.merchant_id == merchant_id

pub record CreateIntentParams : Type 0 where
  pub merchant_id : Uuid
  pub amount : ℤ
  pub currency : Bytes
  pub settlement_mode : Mode
  pub payee_id : Option Uuid
  pub application_fee : Option ℤ
  pub metadata : Bytes

-- The row that the INSERT and the column defaults make.
abbrev pub new_intent : CreateIntentParams → Env → Database → PaymentIntent
new_intent arg env db = record {
  id = env.gen (map (λ pi. pi.id) db.intents);
  merchant_id = arg.merchant_id;
  amount = pos_part arg.amount;
  currency = arg.currency;
  status = created;
  settlement_mode = arg.settlement_mode;
  payee_id = arg.payee_id;
  application_fee = arg.application_fee;
  metadata = arg.metadata;
  created_at = env.now;
  updated_at = env.now;
}

-- What follows if the merchant is there: merchant_id REFERENCES merchants(id).
abbrev pub referenced :
    Option Merchant → Result (PaymentIntent × Database) → Result (PaymentIntent × Database)
referenced none r = err foreign_key_violation
referenced (some merchant) r = r

-- CHECK (amount > 0), and then the foreign key
abbrev pub add_intent : CreateIntentParams → Env → Database → Result (PaymentIntent × Database)
add_intent arg env db =
    if ltb_ℤ (pos 0) arg.amount
    then referenced (find? (λ x. x.id == arg.merchant_id) db.merchants) (
        ok
          (new_intent arg env db, record db { intents = db.intents ++ new_intent arg env db ∷ [] }))
    else err check_violation

unfoldable pub create_intent : CreateIntentParams → Exec PaymentIntent
unfolding stmt
create_intent arg = stmt (add_intent arg)

abbrev pub read_intent : Uuid → Uuid → Env → Database → Result (PaymentIntent × Database)
read_intent id merchant_id env db = one_row (find? (is_of id merchant_id) db.intents) db

unfoldable pub get_intent : Uuid → Uuid → Exec PaymentIntent
unfolding stmt
get_intent id merchant_id = stmt (read_intent id merchant_id)

-- The same SELECT with FOR UPDATE: the row stays locked until the transaction ends.
unfoldable pub lock_intent_for_update : Uuid → Uuid → Exec PaymentIntent
unfolding stmt
lock_intent_for_update id merchant_id = stmt (read_intent id merchant_id)

abbrev pub with_status : Status → ℕ → PaymentIntent → PaymentIntent
with_status status now pi = record pi { status = status; updated_at = now }

-- SET status = $2, updated_at = now() WHERE id = $1
abbrev pub set_status : Uuid → Status → ℕ → List PaymentIntent → List PaymentIntent
set_status id status now = update_where (has_id id) (with_status status now)

abbrev pub write_status : Uuid → Status → Env → Database → Result (PaymentIntent × Database)
write_status id status env db =
    let updated = set_status id status env.now db.intents in
    one_row (find? (has_id id) updated) (record db { intents = updated })

unfoldable pub update_intent_status : Uuid → Status → Exec PaymentIntent
unfolding stmt
update_intent_status id status = stmt (write_status id status)

-- WHERE status = 'captured' AND updated_at < $1
abbrev pub is_due : ℕ → PaymentIntent → Bool
is_due cutoff pi = status_eq pi.status captured && ltb pi.updated_at cutoff

unfoldable pub list_captured_before : ℕ → ℕ → Exec (List PaymentIntent)
unfolding stmt order_by
list_captured_before cutoff limit = stmt λ env db.
    ok (take limit (order_by (λ pi. pi.updated_at) (select (is_due cutoff) db.intents)), db)

-- WHERE status IN ('created','requires_confirmation') AND updated_at < $1
abbrev pub is_stale : ℕ → PaymentIntent → Bool
is_stale cutoff pi =
    (status_eq pi.status created || status_eq pi.status requires_confirmation)
    && ltb pi.updated_at cutoff

unfoldable pub list_stale_before : ℕ → ℕ → Exec (List PaymentIntent)
unfolding stmt order_by
list_stale_before cutoff limit = stmt λ env db.
    ok (take limit (order_by (λ pi. pi.updated_at) (select (is_stale cutoff) db.intents)), db)

-- WHERE merchant_id = $1 AND ($2::text IS NULL OR status = $2)
abbrev pub is_listed : Uuid → Option Status → PaymentIntent → Bool
is_listed merchant_id none pi = pi.merchant_id == merchant_id
is_listed merchant_id (some status) pi = pi.merchant_id == merchant_id && status_eq pi.status status

-- ORDER BY created_at DESC LIMIT $4 OFFSET $3
unfoldable pub list_intents : Uuid → Option Status → ℕ → ℕ → Exec (List PaymentIntent)
unfolding stmt order_by
list_intents merchant_id status limit offset = stmt λ env db. ok (
  take limit (
      drop offset (
        reverse
          (order_by (λ pi. pi.created_at) (select (is_listed merchant_id status) db.intents)))),
  db,
)
