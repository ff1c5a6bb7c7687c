-- ===== src/Webhook/Rows.antt =====
-- The life of one outbox row under the worker (nem_pay/api/internal/webhook/deliver.go): deliveries,
-- claims of the dispatcher, and new events, in any order.
use mathlib.Core.Option.{some-injective}
use monorepo_payment.Base.{
  ==_eq, ℕ, suc, ◌+◌, ◌≤◌, ◌<◌, ◌≡◌, refl, sym, ◌∙◌, ap, subst, Bool, true, false, some, List, [],
  ◌∷◌, leb, ◌==◌, if◌then◌else◌, find?, update_where, arith, map, Distinct, find?-passes,
  map-update_where, Bool-cases, inl, inr,
}
use monorepo_payment.Db.{Uuid, OutboxRow, Database}
use monorepo_payment.Db.Outbox.{is_pending, lease_row}
use monorepo_payment.Webhook.{Processor, World, backoff, post}
use monorepo_payment.Webhook.Deliver.{
  taken_row, dead_row, retry_row, mark_of, find_row, Handled, ignored, retired, attempted,
}

-- What one event may do to a row.
pub data RowStep (p : Processor) (r : OutboxRow) : OutboxRow → Type 0 where
  still : RowStep p r r
  leased : (until : ℕ) → is_pending r.status ≡ true → RowStep p r (lease_row until r)
  taken : is_pending r.status ≡ true → RowStep p r (taken_row r)
  given_up : is_pending r.status ≡ true → p.max_attempts ≤ suc r.attempts → RowStep p r (dead_row r)
  retried :
      (at : ℕ)
      → is_pending r.status ≡ true
      → suc r.attempts < p.max_attempts
      → RowStep p r (retry_row at r)

pub data RowWalk (p : Processor) : OutboxRow → OutboxRow → Type 0 where
  here : {r : OutboxRow} → RowWalk p r r
  more : {r r' r'' : OutboxRow} → RowStep p r r' → RowWalk p r' r'' → RowWalk p r r''

abbrev pub DistinctRows : Database → Type 0
DistinctRows db = Distinct (map (λ r. r.id) db.outbox)

-- Every row that is there stays there, and has made a step.
abbrev pub EachSteps : Processor → Database → Database → Type 0
EachSteps p old db =
    (id : Uuid) (r : OutboxRow)
    → find_row id old ≡ some r
    → (r' : OutboxRow) × (find_row id db ≡ some r') × RowStep p r r'

-- Rows that are still distinct, and each has made a step.
abbrev pub Stepped : Processor → Database → Database → Type 0
Stepped p old db = DistinctRows db × EachSteps p old db

pub Stepped-same :
    (p : Processor) (old db : Database)
    → DistinctRows old
    → db.outbox ≡ old.outbox
    → Stepped p old db
Stepped-same p old db d e = (
  subst (λ x. Distinct (map (λ r. r.id) x)) (sym e) d,
  λ id r f. (r, ap (λ x. find? (λ y. y.id == id) x) e ∙ f, still),
)

-- What an UPDATE that keeps the ids makes of a row.
pub find_row-update_where :
    (q : OutboxRow → Bool) (f : OutboxRow → OutboxRow)
    → ((r : OutboxRow) → (f r).id ≡ r.id)
    → (id : Uuid) (xs : List OutboxRow) (r : OutboxRow) → find? (λ y. y.id == id) xs ≡ some r
    → find? (λ y. y.id == id) (update_where q f xs) ≡ some (if q r then f r else r)
find_row-update_where q f keeps id [] r h = ground arith
find_row-update_where q f keeps id (x ∷ xs) r h =
    ground (arith, keeps x, find_row-update_where q f keeps id xs r)

pub found_again :
    (id : Uuid) (old : Database) (row : OutboxRow)
    → find_row id old ≡ some row
    → find_row row.id old ≡ some row
found_again id old row f =
    let e : row.id ≡ id = ==_eq row.id id (find?-passes (λ r. r.id == id) old.outbox row f) in
    ap (λ i. find_row i old) e ∙ f

step_if :
    (p : Processor) (f : OutboxRow → OutboxRow) (r row : OutboxRow) (b : Bool)
    → (b ≡ true → r ≡ row)
    → RowStep p row (f row)
    → RowStep p r (if b then f r else r)
step_if p f r row true same step = subst (λ x. RowStep p x (f x)) (sym (same refl)) step
step_if p f r row false same step = still

with_row-Stepped :
    (p : Processor) (old : Database) (n : Uuid) (row : OutboxRow) (f : OutboxRow → OutboxRow)
    → ((r : OutboxRow) → (f r).id ≡ r.id)
    → DistinctRows old
    → find_row n old ≡ some row
    → RowStep p row (f row)
    → (db : Database) → db.outbox ≡ update_where (λ y. y.id == n) f old.outbox
    → Stepped p old db
with_row-Stepped p old n row f keeps d found step db e = (
  subst Distinct
      (sym (map-update_where (λ r. r.id) f keeps (λ y. y.id == n) old.outbox)
        ∙ ap (map (λ r. r.id)) (sym e))
      d,
  λ id r h.
      let same : (r.id == n) ≡ true → r ≡ row = λ e.
        some-injective r row
          (sym (found_again id old r h) ∙ ap (λ i. find_row i old) (==_eq r.id n e) ∙ found) in
      (
        (if r.id == n then f r else r),
        ap (find? (λ y. y.id == id)) e
            ∙ find_row-update_where (λ y. y.id == n) f keeps id old.outbox r h,
        step_if p f r row (r.id == n) same step,
      ),
)

-- A mark keeps the id and is a step of the row that it was decided by.
pub mark-keeps :
    (p : Processor) (now : ℕ) (row : OutboxRow) (took : Bool) (r : OutboxRow)
    → (mark_of p now row took r).id ≡ r.id
mark-keeps p now row true r = refl
mark-keeps p now row false r = elim (Bool-cases (leb p.max_attempts (suc row.attempts))) [
  | inl e ↦ rw e refl
  | inr e ↦ rw e refl
]

mark-RowStep :
    (p : Processor) (now : ℕ) (row : OutboxRow) (took : Bool)
    → is_pending row.status ≡ true
    → RowStep p row (mark_of p now row took row)
mark-RowStep p now row true live = taken live
mark-RowStep p now row false live = go (leb p.max_attempts (suc row.attempts)) refl
  where
    go :
        (b : Bool)
        → leb p.max_attempts (suc row.attempts) ≡ b
        → RowStep p row
            ((if b then dead_row else retry_row (now + backoff p (suc row.attempts))) row)
    go true e = given_up live (ground arith)
    go false e = retried (now + backoff p (suc row.attempts)) live (ground arith)

pub Handled-Stepped :
    (p : Processor) (w : World) (id : Uuid) (old db : Database)
    → DistinctRows old
    → Handled p w id old db
    → Stepped p old db
Handled-Stepped p w id old db d (ignored row found dull same) =
    Stepped-same p old db d (ap (λ x. x.outbox) same)
Handled-Stepped p w id old db d (retired row found live no_one e) =
    with_row-Stepped p old row.id row taken_row (λ r. refl) d (found_again id old row found)
      (taken live) db (ap (λ x. x.outbox) e)
Handled-Stepped p w id old db d (attempted row ep rest found live active e) =
    let took = (post w ep row).1 in
    with_row-Stepped p old row.id row (mark_of p w.clock row took) (mark-keeps p w.clock row took) d
      (found_again id old row found) (mark-RowStep p w.clock row took live) db
      (ap (λ x. x.outbox) e)
