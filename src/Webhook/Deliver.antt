-- ===== src/Webhook/Deliver.antt =====
-- What the delivery of one row does (`DeliverByID` and `deliverRow` of
-- nem_pay/api/internal/webhook/deliver.go), on every branch.
use monorepo_payment.Base.{
  ℕ, suc, ◌+◌, ◌≡◌, refl, sym, ◌∙◌, ap, Bool, true, false, Option, none, some, List, [], ◌∷◌, ◌++◌,
  leb, ◌==◌, if◌then◌else◌, find?, update_where, Option-cases, inl, inr, select,
}
use monorepo_payment.Errors.{Error, db_failure, no_rows}
use monorepo_payment.Db.{Uuid, OutboxRow, delivered, dead, WebhookEndpoint, Database}
use monorepo_payment.Db.Exec.{Env, Session, HasFault}
use monorepo_payment.Db.Exec.After.{After, After-bind, After-stmt, After-mono}
use monorepo_payment.Db.Intents.{one_row}
use monorepo_payment.Db.Intents.Order.{order_by}
use monorepo_payment.Db.Outbox.{
  is_pending, change_row, get_outbox, read_outbox, mark_outbox_dead, mark_outbox_delivered,
  mark_outbox_retry,
}
use monorepo_payment.Db.Endpoints.{
  is_active_of, read_active, list_active_endpoints, add_delivery, insert_delivery,
}
use monorepo_payment.Webhook.{
  Processor, World, backoff, conclude, post, log_of, attempt_at, deliver_to, deliver_row,
  deliver_pending, deliver_by_id,
}

-- How a row changes after an attempt, decided by the row as it was read.
abbrev pub taken_row : OutboxRow → OutboxRow
taken_row r = record r { status = delivered }

abbrev pub dead_row : OutboxRow → OutboxRow
dead_row r = record r { attempts = suc r.attempts; status = dead }

abbrev pub retry_row : ℕ → OutboxRow → OutboxRow
retry_row at r = record r { attempts = suc r.attempts; next_attempt_at = at }

abbrev pub mark_of : Processor → ℕ → OutboxRow → Bool → OutboxRow → OutboxRow
mark_of p now row true = taken_row
mark_of p now row false =
    if leb p.max_attempts (suc row.attempts)
    then dead_row
    else retry_row (now + backoff p (suc row.attempts))

abbrev pub with_row : Uuid → (OutboxRow → OutboxRow) → Database → Database
with_row id f db = record db { outbox = update_where (λ r. r.id == id) f db.outbox }

abbrev pub find_row : Uuid → Database → Option OutboxRow
find_row id db = find? (λ r. r.id == id) db.outbox

-- The active endpoints of a merchant, oldest first.
abbrev pub active_of : Uuid → Database → List WebhookEndpoint
active_of merchant_id db =
    order_by (λ e. e.created_at) (select (is_active_of merchant_id) db.endpoints)

-- What a delivery that returns has done.
pub data Handled (p : Processor) (w : World) (id : Uuid) (old db : Database) : Type 0 where
  ignored :
      (row : OutboxRow)
      → find_row id old ≡ some row
      → is_pending row.status ≡ false
      → db ≡ old
      → Handled p w id old db
  retired :
      (row : OutboxRow)
      → find_row id old ≡ some row
      → is_pending row.status ≡ true
      → active_of row.merchant_id old ≡ []
      → db ≡ with_row row.id taken_row old
      → Handled p w id old db
  attempted :
      (row : OutboxRow) (ep : WebhookEndpoint) (rest : List WebhookEndpoint)
      → find_row id old ≡ some row
      → is_pending row.status ≡ true
      → active_of row.merchant_id old ≡ ep ∷ rest
      → db
        ≡ with_row row.id
            (mark_of p w.clock row (post w ep row).1)
            (record old { deliveries = old.deliveries ++ log_of row (post w ep row) ∷ [] })
      → Handled p w id old db

-- Why a delivery returns an error; no row of the outbox has changed then.
pub data NotHandled (env : Env) (id : Uuid) (old : Database) : Error → Database → Type 0 where
  missing : (db : Database) → find_row id old ≡ none → db ≡ old → NotHandled env id old no_rows db
  fault :
      (db : Database) → HasFault env → db.outbox ≡ old.outbox → NotHandled env id old db_failure db

module _ (env : Env) (p : Processor) (w : World) (id : Uuid) (old : Database) where
  conclude-After :
      (now : ℕ) (row : OutboxRow) (taken : Bool) (s : Session)
      → s.db.outbox ≡ old.outbox
      → After
          (λ _ db. db ≡ with_row row.id (mark_of p now row taken) s.db)
          (NotHandled env id old)
          (conclude p now row taken env s)
  unfolding conclude mark_outbox_delivered mark_outbox_dead mark_outbox_retry
  conclude-After now row true s same =
      After-stmt env (NotHandled env id old) (λ _ db. db ≡ with_row row.id taken_row s.db)
        (change_row taken_row row.id) s (λ e. fault s.db e same) refl
  conclude-After now row false s same = go (leb p.max_attempts (suc row.attempts))
    where
      at : ℕ
      at = now + backoff p (suc row.attempts)

      go :
          (b : Bool)
          → After
              (λ _ db. db ≡ with_row row.id (if b then dead_row else retry_row at) s.db)
              (NotHandled env id old)
              ((if b then mark_outbox_dead row.id else mark_outbox_retry row.id at) env s)
      go true =
          After-stmt env (NotHandled env id old) (λ _ db. db ≡ with_row row.id dead_row s.db)
            (change_row dead_row row.id) s (λ e. fault s.db e same) refl
      go false =
          After-stmt env (NotHandled env id old) (λ _ db. db ≡ with_row row.id (retry_row at) s.db)
            (change_row (retry_row at) row.id) s (λ e. fault s.db e same) refl

  deliver_to-After :
      (row : OutboxRow) (active : List WebhookEndpoint) (s : Session)
      → find_row id old ≡ some row
      → is_pending row.status ≡ true
      → active_of row.merchant_id old ≡ active
      → s.db ≡ old
      → After
          (λ _ db. Handled p w id old db)
          (NotHandled env id old)
          (deliver_to p w row active env s)
  unfolding deliver_to attempt_at insert_delivery mark_outbox_delivered
  deliver_to-After row [] s found live none_active same =
      After-stmt env (NotHandled env id old) (λ _ db. Handled p w id old db)
        (change_row taken_row row.id) s (λ e. fault s.db e (ap (λ db. db.outbox) same))
        (retired row found live none_active (ap (with_row row.id taken_row) same))
  deliver_to-After row (ep ∷ rest) s found live some_active same =
      let E = NotHandled env id old in
      let log = log_of row (post w ep row) in
      let logged : Database → Database =
        λ db. record db { deliveries = db.deliveries ++ log ∷ [] } in
      After-bind env E (λ _ db. db ≡ logged old) (λ _ db. Handled p w id old db) _ _ s
        (After-stmt env E (λ _ db. db ≡ logged old) (add_delivery log) s
          (λ e. fault s.db e (ap (λ db. db.outbox) same)) (ap logged same))
        λ _ s₁ e₁.
          After-mono (λ _ db. db ≡ with_row row.id (mark_of p w.clock row (post w ep row).1) s₁.db)
            (λ _ db. Handled p w id old db) E E (conclude p w.clock row (post w ep row).1 env s₁)
            (λ _ db e.
              attempted row ep rest found live some_active
                (e ∙ ap (with_row row.id (mark_of p w.clock row (post w ep row).1)) e₁))
            (λ _ _ h. h) (conclude-After w.clock row (post w ep row).1 s₁ (ap (λ db. db.outbox) e₁))

  deliver_pending-After :
      (row : OutboxRow) (b : Bool) (s : Session)
      → find_row id old ≡ some row
      → is_pending row.status ≡ b
      → s.db ≡ old
      → After
          (λ _ db. Handled p w id old db)
          (NotHandled env id old)
          (deliver_pending p w row b env s)
  unfolding deliver_pending deliver_row list_active_endpoints
  deliver_pending-After row false s found not_live same = ignored row found not_live same
  deliver_pending-After row true s found live same =
      After-bind env (NotHandled env id old)
        (λ active db. (active_of row.merchant_id old ≡ active) × (db ≡ old))
        (λ _ db. Handled p w id old db) _ _ s
        (After-stmt env (NotHandled env id old)
          (λ active db. (active_of row.merchant_id old ≡ active) × (db ≡ old))
          (read_active row.merchant_id) s (λ e. fault s.db e (ap (λ db. db.outbox) same))
          (ap (active_of row.merchant_id) (sym same), same))
        λ active s₁ (e, same₁). deliver_to-After row active s₁ found live e same₁

pub deliver_by_id-Handled :
    (env : Env) (p : Processor) (w : World) (id : Uuid) (s : Session)
    → After (λ _ db. Handled p w id s.db db) (NotHandled env id s.db) (deliver_by_id p w id env s)
unfolding deliver_by_id get_outbox
deliver_by_id-Handled env p w id s =
    let E = NotHandled env id s.db in
    After-bind env E (λ row db. (find_row id s.db ≡ some row) × (db ≡ s.db))
      (λ _ db. Handled p w id s.db db) _ _ s
      (After-stmt env E (λ row db. (find_row id s.db ≡ some row) × (db ≡ s.db)) (read_outbox id) s
        (λ e. fault s.db e refl)
        (elim (Option-cases (find_row id s.db)) [
          | inl e ↦ rw (e, one_row) (missing s.db e refl)
          | inr (row, e) ↦ rw (e, one_row) (refl, refl)
        ]))
      λ row s₁ (found, same).
        deliver_pending-After env p w id s.db row (is_pending row.status) s₁ found refl same
