-- ===== src/Webhook/Life.antt =====
-- The life of the rows of the outbox under the worker (nem_pay/api/internal/webhook/deliver.go):
-- deliveries, runs of the dispatcher, and new events, in any order.
use monorepo_payment.Base.{
  ℕ, ◌≡◌, refl, sym, ◌∙◌, ap, subst, some, List, [], ◌∷◌, ◌==◌, map, All, find?-append,
  Distinct-add,
}
use monorepo_payment.Errors.{Error, Result, ok, err}
use monorepo_payment.Db.{Uuid, OutboxRow, EventType, Payload, Database}
use monorepo_payment.Db.Exec.{Env, Session, Exec}
use monorepo_payment.Db.Exec.After.{After, After-bind, After-stmt, After-mono}
use monorepo_payment.Db.Outbox.{claim_rows, claim_due_outbox, new_outbox, add_outbox, insert_outbox}
use monorepo_payment.Webhook.{Processor, World, deliver_by_id, for_each, dispatch}
use monorepo_payment.Webhook.Deliver.{
  find_row, Handled, NotHandled, missing, fault, deliver_by_id-Handled,
}
use monorepo_payment.Webhook.Rows.{
  RowWalk, here, more, still, DistinctRows, Stepped, Stepped-same, Handled-Stepped,
}
use monorepo_payment.Webhook.Claim.{claimed_db, claim-Stepped}

-- One thing that happens to the outbox: a job of the queue delivers a row, the dispatcher runs over
-- what enqueues a job, or a service emits an event.
pub data Event : Type 0 where
  delivering : World → Uuid → Event
  dispatching : (enqueue : Uuid → Exec (Unit {0})) → ℕ → Event
  emitting : Uuid → Uuid → EventType → Payload → Event

abbrev pub tables : {A : Type 0} → Result A × Session → Session
tables r = r.1

unfoldable pub happen : Processor → Event → Env → Session → Session
happen p (delivering w id) env s = tables (deliver_by_id p w id env s)
happen p (dispatching enqueue limit) env s = tables (dispatch p enqueue limit env s)
happen p (emitting merchant_id event_id event_type payload) env s =
    tables (insert_outbox merchant_id event_id event_type payload env s)

unfoldable pub happen_all : Processor → List (Env × Event) → Session → Session
unfolding happen
happen_all p [] s = s
happen_all p ((env, e) ∷ rest) s = happen_all p rest (happen p e env s)

-- The queue keeps its jobs elsewhere.
abbrev pub LeavesTables : Event → Type 0
LeavesTables (dispatching enqueue limit) =
    (id : Uuid) (env : Env) (s : Session) → (enqueue id env s).1.db ≡ s.db
LeavesTables e = Unit

After-tables :
    {A : Type 0} (P : Database → Type 0) (r : Result A × Session)
    → After (λ _ db. P db) (λ _ db. P db) r
    → P r.1.db
After-tables P (ok a, s) h = h
After-tables P (err e, s) h = h

module _ (p : Processor) (env : Env) where
  deliver_by_id-Stepped :
      (w : World) (id : Uuid) (s : Session)
      → DistinctRows s.db
      → Stepped p s.db (deliver_by_id p w id env s).1.db
  deliver_by_id-Stepped w id s d = After-tables (Stepped p s.db) (deliver_by_id p w id env s) (
      After-mono (λ _ db. Handled p w id s.db db) (λ _ db. Stepped p s.db db)
        (NotHandled env id s.db) (λ _ db. Stepped p s.db db) (deliver_by_id p w id env s)
        (λ _ db h. Handled-Stepped p w id s.db db d h) not_handled
        (deliver_by_id-Handled env p w id s))
    where
      not_handled : (e : Error) (db : Database) → NotHandled env id s.db e db → Stepped p s.db db
      not_handled _ db (missing _ none_found same) =
          Stepped-same p s.db db d (ap (λ x. x.outbox) same)
      not_handled _ db (fault _ h same) = Stepped-same p s.db db d same

  for_each-same :
      (f : Uuid → Exec (Unit {0})) (old : Database)
      → ((id : Uuid) (s : Session) → (f id env s).1.db ≡ s.db)
      → (rows : List OutboxRow) (s : Session) → s.db ≡ old
      → After (λ _ db. db ≡ old) (λ _ db. db ≡ old) (for_each (λ row. f row.id) rows env s)
  unfolding for_each
  for_each-same f old leaves [] s e = e
  for_each-same f old leaves (row ∷ rows) s e =
      After-bind env (λ _ db. db ≡ old) (λ _ db. db ≡ old) (λ _ db. db ≡ old) (f row.id) _ s
        (both (f row.id env s) (leaves row.id s ∙ e))
        (λ _ s' e'. for_each-same f old leaves rows s' e')
    where
      both :
          (r : Result (Unit {0}) × Session)
          → r.1.db ≡ old
          → After (λ _ db. db ≡ old) (λ _ db. db ≡ old) r
      both (ok a, s) h = h
      both (err x, s) h = h

  dispatch-Stepped :
      (enqueue : Uuid → Exec (Unit {0})) (limit : ℕ) (s : Session)
      → DistinctRows s.db
      → ((id : Uuid) (s : Session) → (enqueue id env s).1.db ≡ s.db)
      → Stepped p s.db (dispatch p enqueue limit env s).1.db
  unfolding dispatch claim_due_outbox
  dispatch-Stepped enqueue limit s d leaves =
      let Q : Database → Type 0 = Stepped p s.db in
      let after : Database = claimed_db env.now p.lease limit s.db in
      let step : Q after = claim-Stepped p env.now p.lease limit s.db d in
      After-tables Q (dispatch p enqueue limit env s) (
        After-bind env (λ _ db. Q db) (λ _ db. db ≡ after) (λ _ db. Q db) _ _ s
          (After-stmt env (λ _ db. Q db) (λ _ db. db ≡ after) (claim_rows p.lease limit) s
            (λ _. Stepped-same p s.db s.db d refl) refl)
          λ rows s₁ e₁.
            After-bind env (λ _ db. Q db) (λ _ db. db ≡ after) (λ _ db. Q db) _ _ s₁
              (After-mono (λ _ db. db ≡ after) (λ _ db. db ≡ after) (λ _ db. db ≡ after)
                (λ _ db. Q db) (for_each (λ row. enqueue row.id) rows env s₁) (λ _ _ h. h)
                (λ _ db h. subst Q (sym h) step) (for_each-same enqueue after leaves rows s₁ e₁))
              (λ _ s₂ e₂. subst Q (sym e₂) step))

  insert_outbox-Stepped :
      (merchant_id event_id : Uuid) (event_type : EventType) (payload : Payload) (s : Session)
      → DistinctRows s.db
      → Stepped p s.db (insert_outbox merchant_id event_id event_type payload env s).1.db
  unfolding insert_outbox
  insert_outbox-Stepped merchant_id event_id event_type payload s d =
      let Q : Database → Type 0 = Stepped p s.db in
      let row : OutboxRow = new_outbox merchant_id event_id event_type payload env s.db in
      After-tables Q (insert_outbox merchant_id event_id event_type payload env s) (
        After-stmt env (λ _ db. Q db) (λ _ db. Q db)
          (add_outbox merchant_id event_id event_type payload) s
          (λ _. Stepped-same p s.db s.db d refl)
          (
            Distinct-add (λ r. r.id) s.db.outbox row d (env.gen_new (map (λ r. r.id) s.db.outbox)),
            λ id r h. (r, find?-append (λ y. y.id == id) s.db.outbox (row ∷ []) r h, still),
          ))

pub happen-Stepped :
    (p : Processor) (e : Event) (env : Env) (s : Session)
    → DistinctRows s.db
    → LeavesTables e
    → Stepped p s.db (happen p e env s).db
unfolding happen
happen-Stepped p (delivering w id) env s d leaves = deliver_by_id-Stepped p env w id s d
happen-Stepped p (dispatching enqueue limit) env s d leaves =
    dispatch-Stepped p env enqueue limit s d (λ id s'. leaves id env s')
happen-Stepped p (emitting merchant_id event_id event_type payload) env s d leaves =
    insert_outbox-Stepped p env merchant_id event_id event_type payload s d

-- Whatever happens to an outbox of distinct rows, in any order and whatever fails, each row that is
-- there stays there and goes only along the steps of the abstract machine of a row: leased, taken and
-- retried while it is pending, and given up after its last attempt.
pub happen_all-RowWalk :
    (p : Processor) (events : List (Env × Event)) (s : Session) (id : Uuid) (r : OutboxRow)
    → DistinctRows s.db
    → All (λ x. LeavesTables x.1) events
    → find_row id s.db ≡ some r
    → (r' : OutboxRow) × (find_row id (happen_all p events s).db ≡ some r') × RowWalk p r r'
unfolding happen_all
happen_all-RowWalk p [] s id r d leaves found = (r, found, here)
happen_all-RowWalk p ((env, e) ∷ rest) s id r d leaves found =
    let (d₁, each) = happen-Stepped p e env s d leaves.0 in
    let (r₁, found₁, step) = each id r found in
    let (r₂, found₂, walk) =
      happen_all-RowWalk p rest (happen p e env s) id r₁ d₁ leaves.1 found₁ in
    (r₂, found₂, more step walk)
