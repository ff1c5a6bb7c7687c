-- ===== src/Webhook.antt =====
-- The delivery of outbox rows: nem_pay/api/internal/webhook/deliver.go. Times are in milliseconds.
-- What the merchant's server answers is a parameter, and so is the clock of the process.
pub mod Backoff
pub mod Sign
pub mod Deliver
pub mod Delivered
pub mod Rows
pub mod Claim
pub mod Life
pub mod Outcome
pub mod Decided
pub mod Tests
use monorepo_payment.Base.{
  Option, none, some, List, [], ◌∷◌, length, ltb, not, ◌&&◌, Bytes, ℕ, zero, suc, ◌+◌, ◌*◌, Bool,
  true, false, leb, if◌then◌else◌,
}
use monorepo_payment.Db.{Uuid, OutboxRow, EventType, Payload, WebhookEndpoint, Delivery}
use monorepo_payment.Db.Endpoints.{insert_delivery, list_active_endpoints}
use monorepo_payment.Webhook.Sign.{sign}
use monorepo_payment.Db.Exec.{Exec, pure, ◌>>=◌, ◌>>◌}
use monorepo_payment.Db.Outbox.{
  is_pending, get_outbox, claim_due_outbox, mark_outbox_dead, mark_outbox_delivered,
  mark_outbox_retry,
}

pub record Processor : Type 0 where
  pub max_attempts : ℕ
  pub base_backoff : ℕ
  pub lease : ℕ

-- `NewProcessor`.
abbrev pub new_processor : Processor
new_processor = record { max_attempts = 6; base_backoff = 1000; lease = 30000 }

-- Five minutes.
abbrev pub max_backoff : ℕ
max_backoff = 300000

-- The loop of `backoff`, with `n` rounds to go.
unfoldable pub doubled : ℕ → ℕ → ℕ
doubled zero d = d
doubled (suc n) d =
    let rest = doubled n (d * 2) in if leb max_backoff (d * 2) then max_backoff else rest

-- How often the loop from 1 to below the attempt runs.
abbrev pub rounds : ℕ → ℕ
rounds zero = 0
rounds (suc n) = n

unfoldable pub backoff : Processor → ℕ → ℕ
backoff p attempt = doubled (rounds attempt) p.base_backoff

-- What `deliverRow` does once the attempt has been made and logged, at the time `now`.
unfoldable pub conclude : Processor → ℕ → OutboxRow → Bool → Exec (Unit {0})
conclude p now row true = mark_outbox_delivered row.id
conclude p now row false =
    if leb p.max_attempts (suc row.attempts)
    then mark_outbox_dead row.id
    else mark_outbox_retry row.id (now + backoff p (suc row.attempts))

-- What is sent: where to, the signature over the payload, and the event headers.
pub record Message : Type 0 where
  pub url : Bytes
  pub signature : Bytes
  pub event_id : Uuid
  pub event_type : EventType
  pub payload : Payload

-- What the process stands in: the JSON text of a payload, the HMAC in hexadecimal, the receivers (a
-- status code, or `none` for a transport error), and time.Now.
pub record World : Type 0 where
  pub render : Payload → Bytes
  pub mac : Bytes → Bytes → Bytes
  pub receive : Message → Option ℕ
  pub clock : ℕ

abbrev pub message_of : World → WebhookEndpoint → OutboxRow → Message
message_of w ep row = record {
  url = ep.url;
  signature = sign w.mac ep.secret (w.render row.payload);
  event_id = row.event_id;
  event_type = row.event_type;
  payload = row.payload;
}

-- `resp.StatusCode >= 200 && resp.StatusCode < 300`
abbrev pub is_2xx : ℕ → Bool
is_2xx code = leb 200 code && ltb code 300

abbrev pub is_delivered : Option ℕ → Bool
is_delivered none = false
is_delivered (some code) = is_2xx code

-- `post`: the status code (nil for a transport error) and whether the event was taken.
unfoldable pub post : World → WebhookEndpoint → OutboxRow → Option ℕ × Bool
post w ep row = let answer = w.receive (message_of w ep row) in (answer, is_delivered answer)

abbrev pub log_of : OutboxRow → Option ℕ × Bool → Delivery
log_of row (code, taken) = record {
  outbox_id = row.id;
  attempt = suc row.attempts;
  status_code = code;
  is_ok = taken;
  has_error = not taken;
}

-- One attempt at an endpoint: send, log, and conclude.
unfoldable pub attempt_at : Processor → World → OutboxRow → WebhookEndpoint → Exec (Unit {0})
attempt_at p w row ep =
    insert_delivery (log_of row (post w ep row)) >> conclude p w.clock row (post w ep row).1

-- The first of the active endpoints; without one the row is retired.
unfoldable pub deliver_to : Processor → World → OutboxRow → List WebhookEndpoint → Exec (Unit {0})
deliver_to p w row [] = mark_outbox_delivered row.id
deliver_to p w row (ep ∷ rest) = attempt_at p w row ep

unfoldable pub deliver_row : Processor → World → OutboxRow → Exec (Unit {0})
deliver_row p w row = list_active_endpoints row.merchant_id >>= deliver_to p w row

-- A row that is not pending is left alone.
unfoldable pub deliver_pending : Processor → World → OutboxRow → Bool → Exec (Unit {0})
deliver_pending p w row true = deliver_row p w row
deliver_pending p w row false = pure tt

unfoldable pub deliver_by_id : Processor → World → Uuid → Exec (Unit {0})
deliver_by_id p w id = do row ← get_outbox id; deliver_pending p w row (is_pending row.status)

-- A loop that ends at the first error.
unfoldable pub for_each : {A : Type 0} → (A → Exec (Unit {0})) → List A → Exec (Unit {0})
for_each f [] = pure tt
for_each f (x ∷ xs) = f x >> for_each f xs

-- `Dispatch`, over what enqueues a row's id.
unfoldable pub dispatch : Processor → (Uuid → Exec (Unit {0})) → ℕ → Exec ℕ
dispatch p enqueue limit = do
  rows ← claim_due_outbox p.lease limit
  for_each (λ row. enqueue row.id) rows
  pure (length rows)

unfoldable pub process_due : Processor → World → ℕ → Exec ℕ
process_due p w limit = do
  rows ← claim_due_outbox p.lease limit
  for_each (deliver_row p w) rows
  pure (length rows)
