-- ===== src/Db/Outbox.antt =====
-- The statements over outbox: nem_pay/api/internal/repository/db/outbox.sql.go.
use monorepo_payment.Base.{
  ℕ, suc, ◌+◌, Bool, true, false, ◌&&◌, List, [], ◌∷◌, ◌++◌, map, find?, select, take, update_where,
  leb, ◌==◌, if◌then◌else◌,
}
use monorepo_payment.Errors.{Result, ok}
use monorepo_payment.Db.{
  Uuid, OutboxRow, EventType, Payload, OutboxStatus, pending, delivered, dead, Database,
}
use monorepo_payment.Db.Exec.{Env, Exec, stmt}
use monorepo_payment.Db.Intents.{one_row}
use monorepo_payment.Db.Intents.Order.{order_by}

-- The row with the column defaults: pending, no attempt made, due now.
abbrev pub new_outbox : Uuid → Uuid → EventType → Payload → Env → Database → OutboxRow
new_outbox merchant_id event_id event_type payload env db = record {
  id = env.gen (map (λ r. r.id) db.outbox);
  merchant_id = merchant_id;
  event_id = event_id;
  event_type = event_type;
  payload = payload;
  status = pending;
  attempts = 0;
  next_attempt_at = env.now;
}

abbrev pub add_outbox :
    Uuid → Uuid → EventType → Payload → Env → Database → Result (OutboxRow × Database)
add_outbox merchant_id event_id event_type payload env db =
    let row = new_outbox merchant_id event_id event_type payload env db in
    ok (row, record db { outbox = db.outbox ++ row ∷ [] })

unfoldable pub insert_outbox : Uuid → Uuid → EventType → Payload → Exec OutboxRow
unfolding stmt
insert_outbox merchant_id event_id event_type payload =
    stmt (add_outbox merchant_id event_id event_type payload)

-- status = 'pending' AND next_attempt_at <= now()
abbrev pub is_pending : OutboxStatus → Bool
is_pending pending = true
is_pending _ = false

abbrev pub is_due_row : ℕ → OutboxRow → Bool
is_due_row now r = is_pending r.status && leb r.next_attempt_at now

abbrev pub is_one_of : List Uuid → Uuid → Bool
is_one_of [] id = false
is_one_of (x ∷ xs) id = if x == id then true else is_one_of xs id

-- The rows of the sub-select are leased forward and returned.
unfoldable pub due_ids : ℕ → ℕ → List OutboxRow → List Uuid
unfolding order_by
due_ids now limit rows =
    map (λ r. r.id) (take limit (order_by (λ r. r.next_attempt_at) (select (is_due_row now) rows)))

abbrev pub lease_row : ℕ → OutboxRow → OutboxRow
lease_row until r = record r { next_attempt_at = until }

abbrev pub claim_rows : ℕ → ℕ → Env → Database → Result (List OutboxRow × Database)
claim_rows lease limit env db =
    let claimed : OutboxRow → Bool = λ r. is_one_of (due_ids env.now limit db.outbox) r.id in
    let outbox = update_where claimed (lease_row (env.now + lease)) db.outbox in
    ok (select claimed outbox, record db { outbox = outbox })

unfoldable pub claim_due_outbox : ℕ → ℕ → Exec (List OutboxRow)
unfolding stmt due_ids
claim_due_outbox lease limit = stmt (claim_rows lease limit)

abbrev pub change_row :
    (OutboxRow → OutboxRow) → Uuid → Env → Database → Result (Unit {0} × Database)
change_row f id env db = ok (tt, record db { outbox = update_where (λ r. r.id == id) f db.outbox })

unfoldable pub mark_outbox_dead : Uuid → Exec (Unit {0})
unfolding stmt
mark_outbox_dead id =
    stmt (change_row (λ r. record r { attempts = suc r.attempts; status = dead }) id)

unfoldable pub mark_outbox_delivered : Uuid → Exec (Unit {0})
unfolding stmt
mark_outbox_delivered id = stmt (change_row (λ r. record r { status = delivered }) id)

unfoldable pub mark_outbox_retry : Uuid → ℕ → Exec (Unit {0})
unfolding stmt
mark_outbox_retry id next_attempt_at =
    stmt (
      change_row (λ r. record r { attempts = suc r.attempts; next_attempt_at = next_attempt_at })
        id)

abbrev pub read_outbox : Uuid → Env → Database → Result (OutboxRow × Database)
read_outbox id env db = one_row (find? (λ r. r.id == id) db.outbox) db

unfoldable pub get_outbox : Uuid → Exec OutboxRow
unfolding stmt
get_outbox id = stmt (read_outbox id)
