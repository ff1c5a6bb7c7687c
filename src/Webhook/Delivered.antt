-- ===== src/Webhook/Delivered.antt =====
-- What a delivery promises, stated apart from the functions of its code (`DeliverByID`, `deliverRow`
-- and `post` of nem_pay/api/internal/webhook/deliver.go).
use monorepo_payment.Base.{
  ◌&&◌, All, select, subst, ◌==◌, ==_eq, not, ℕ, suc, ◌+◌, ◌≤◌, ◌<◌, ◌≡◌, ◌≢◌, refl, ap, Bool, true,
  false, Option, none, some, List, [], ◌∷◌, ◌++◌, leb, if◌then◌else◌, ◌⊎◌, arith,
}
use monorepo_payment.Db.{
  Uuid, OutboxRow, OutboxStatus, pending, delivered, dead, WebhookEndpoint, Database,
}
use monorepo_payment.Db.Exec.{Env, Session}
use monorepo_payment.Db.Exec.After.{After, After-mono}
use monorepo_payment.Db.Outbox.{is_pending}
use monorepo_payment.Db.Endpoints.{is_active, is_active_of}
use monorepo_payment.Db.Intents.Order.{order_by-All}
use monorepo_payment.Webhook.Sign.{sign}
use monorepo_payment.Webhook.{
  Processor, World, Message, backoff, is_2xx, is_delivered, post, deliver_by_id,
}
use monorepo_payment.Webhook.Deliver.{
  mark_of, with_row, find_row, active_of, dead_row, retry_row, Handled, NotHandled,
  deliver_by_id-Handled,
}

-- The message for a row at an endpoint: signed with the endpoint's secret over the rendered payload.
abbrev pub sent_for : World → WebhookEndpoint → OutboxRow → Message
sent_for w ep row = record {
  url = ep.url;
  signature = sign w.mac ep.secret (w.render row.payload);
  event_id = row.event_id;
  event_type = row.event_type;
  payload = row.payload;
}

-- No answer, or one outside 200 to 299.
abbrev pub NotTaken : Option ℕ → Type 0
NotTaken none = Unit {0}
NotTaken (some code) = (code < 200) ⊎ (300 ≤ code)

-- The tables after a log entry for the attempt and a change of the row.
abbrev pub logged_and_set :
    OutboxRow → Option ℕ → Bool → (OutboxRow → OutboxRow) → Database → Database
logged_and_set row answer ok change old = with_row row.id change (record old {
  deliveries =
      old.deliveries
      ++ record {
        outbox_id = row.id;
        attempt = suc row.attempts;
        status_code = answer;
        is_ok = ok;
        has_error = not ok;
      }
        ∷ [];
})

-- The endpoint is of the row's merchant and not disabled.
abbrev pub IsActiveFor : OutboxRow → WebhookEndpoint → Type 0
IsActiveFor row ep = (ep.merchant_id ≡ row.merchant_id) × (ep.disabled_at ≡ none)

-- What a delivery that returns has done.
pub data Does (p : Processor) (w : World) (id : Uuid) (old db : Database) : Type 0 where
  ignored :
      (row : OutboxRow)
      → find_row id old ≡ some row
      → row.status ≢ pending
      → db ≡ old
      → Does p w id old db
  retired :
      (row : OutboxRow)
      → find_row id old ≡ some row
      → row.status ≡ pending
      → active_of row.merchant_id old ≡ []
      → db ≡ with_row row.id (λ r. record r { status = delivered }) old
      → Does p w id old db
  took :
      (row : OutboxRow) (ep : WebhookEndpoint) (rest : List WebhookEndpoint) (code : ℕ)
      → find_row id old ≡ some row
      → row.status ≡ pending
      → active_of row.merchant_id old ≡ ep ∷ rest
      → IsActiveFor row ep
      → w.receive (sent_for w ep row) ≡ some code
      → 200 ≤ code
      → code < 300
      → db ≡ logged_and_set row (some code) true (λ r. record r { status = delivered }) old
      → Does p w id old db
  gave_up :
      (row : OutboxRow) (ep : WebhookEndpoint) (rest : List WebhookEndpoint) (answer : Option ℕ)
      → find_row id old ≡ some row
      → row.status ≡ pending
      → active_of row.merchant_id old ≡ ep ∷ rest
      → IsActiveFor row ep
      → w.receive (sent_for w ep row) ≡ answer
      → NotTaken answer
      → p.max_attempts ≤ suc row.attempts
      → db
        ≡ logged_and_set row answer false
            (λ r. record r { attempts = suc r.attempts; status = dead })
            old
      → Does p w id old db
  retries :
      (row : OutboxRow) (ep : WebhookEndpoint) (rest : List WebhookEndpoint) (answer : Option ℕ)
      → find_row id old ≡ some row
      → row.status ≡ pending
      → active_of row.merchant_id old ≡ ep ∷ rest
      → IsActiveFor row ep
      → w.receive (sent_for w ep row) ≡ answer
      → NotTaken answer
      → suc row.attempts < p.max_attempts
      → db
        ≡ logged_and_set row answer false
            (λ r. record r {
              attempts = suc r.attempts;
              next_attempt_at = w.clock + backoff p (suc row.attempts);
            })
            old
      → Does p w id old db

selected-All : {A : Type 0} (p : A → Bool) (xs : List A) → All (λ x. p x ≡ true) (select p xs)
selected-All p [] = tt
selected-All p (x ∷ xs) = go (p x) refl (selected-All p xs)
  where
    go :
        (b : Bool)
        → p x ≡ b
        → All (λ y. p y ≡ true) (select p xs)
        → All (λ y. p y ≡ true) (if b then x ∷ select p xs else select p xs)
    go true e h = (e, h)
    go false e h = h

active_if : (o : Option ℕ) → is_active o ≡ true → o ≡ none
active_if none h = refl
active_if (some t) h = absurd (ground arith)

both : (a b : Bool) → (a && b) ≡ true → (a ≡ true) × (b ≡ true)
both a b h = (ground arith, ground arith)

active_of-IsActiveFor :
    (row : OutboxRow) (ep : WebhookEndpoint) (rest : List WebhookEndpoint) (db : Database)
    → active_of row.merchant_id db ≡ ep ∷ rest
    → IsActiveFor row ep
active_of-IsActiveFor row ep rest db e =
    let P : WebhookEndpoint → Type 0 = λ x. is_active_of row.merchant_id x ≡ true in
    let all : All P (ep ∷ rest) = subst (All P) e (
      order_by-All (λ x. x.created_at) P (select (is_active_of row.merchant_id) db.endpoints)
        (selected-All (is_active_of row.merchant_id) db.endpoints)) in
    let (owner, live) = both (ep.merchant_id == row.merchant_id) (is_active ep.disabled_at) all.0 in
    (==_eq ep.merchant_id row.merchant_id owner, active_if ep.disabled_at live)

pending_if : (s : OutboxStatus) → is_pending s ≡ true → s ≡ pending
pending_if pending h = refl
pending_if delivered h = absurd (ground arith)
pending_if dead h = absurd (ground arith)

not_pending_if : (s : OutboxStatus) → is_pending s ≡ false → s ≢ pending
not_pending_if s h e = ground (arith, h, ap is_pending e)

module _ (p : Processor) (w : World) (id : Uuid) (old db : Database) (row : OutboxRow)
    (ep : WebhookEndpoint) (rest : List WebhookEndpoint) (found : find_row id old ≡ some row)
    (live : row.status ≡ pending) (active : active_of row.merchant_id old ≡ ep ∷ rest)
    (of_row : IsActiveFor row ep) where
  not_taken :
      (answer : Option ℕ)
      → w.receive (sent_for w ep row) ≡ answer
      → NotTaken answer
      → db ≡ logged_and_set row answer false (mark_of p w.clock row false) old
      → Does p w id old db
  not_taken answer e n same = go (leb p.max_attempts (suc row.attempts)) refl same
    where
      go :
          (b : Bool)
          → leb p.max_attempts (suc row.attempts) ≡ b
          → db
            ≡ logged_and_set row answer false
                (if b then dead_row else retry_row (w.clock + backoff p (suc row.attempts)))
                old
          → Does p w id old db
      go true h d = gave_up row ep rest answer found live active of_row e n (ground (arith, h)) d
      go false h d = retries row ep rest answer found live active of_row e n (ground (arith, h)) d

  answered :
      (answer : Option ℕ)
      → w.receive (sent_for w ep row) ≡ answer
      → db
        ≡ logged_and_set row answer
            (is_delivered answer)
            (mark_of p w.clock row (is_delivered answer))
            old
      → Does p w id old db
  answered none e same = not_taken none e tt same
  answered (some code) e same = go (is_2xx code) refl same
    where
      go :
          (b : Bool)
          → is_2xx code ≡ b
          → db ≡ logged_and_set row (some code) b (mark_of p w.clock row b) old
          → Does p w id old db
      go true h d =
          took row ep rest code found live active of_row e (ground (arith, h)) (ground (arith, h)) d
      go false h d = not_taken (some code) e (ground (arith, h)) d

Handled-Does :
    (p : Processor) (w : World) (id : Uuid) (old db : Database)
    → Handled p w id old db
    → Does p w id old db
unfolding post
Handled-Does p w id old db (Handled.ignored row found dull same) =
    ignored row found (not_pending_if row.status dull) same
Handled-Does p w id old db (Handled.retired row found live no_one same) =
    retired row found (pending_if row.status live) no_one same
Handled-Does p w id old db (Handled.attempted row ep rest found live active same) =
    answered p w id old db row ep rest found (pending_if row.status live) active
      (active_of-IsActiveFor row ep rest old active) (w.receive (sent_for w ep row)) refl same

-- A delivery by id returns an error only if no such row is there or a statement failed, and no row
-- of the outbox has changed then. Otherwise a row that is not pending is left alone; without an
-- active endpoint the row is retired as delivered; and else the event is sent once to the oldest
-- active endpoint of the row's merchant and the attempt logged with its number and the answer's
-- code, and the row is marked: delivered if the code is from 200 to 299, and otherwise, with one
-- attempt more, dead if this was the last attempt or still pending with the next attempt one
-- backoff from now. Nothing else changes.
pub deliver_by_id-Does :
    (env : Env) (p : Processor) (w : World) (id : Uuid) (s : Session)
    → After (λ _ db. Does p w id s.db db) (NotHandled env id s.db) (deliver_by_id p w id env s)
deliver_by_id-Does env p w id s =
    After-mono (λ _ db. Handled p w id s.db db) (λ _ db. Does p w id s.db db)
      (NotHandled env id s.db) (NotHandled env id s.db) (deliver_by_id p w id env s)
      (λ _ db h. Handled-Does p w id s.db db h) (λ _ _ h. h) (deliver_by_id-Handled env p w id s)
