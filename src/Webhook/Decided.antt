-- ===== src/Webhook/Decided.antt =====
-- A decision on a row of the outbox comes (nem_pay/api/internal/webhook/deliver.go): each delivery
-- without faults decides the row or uses up an attempt.
use monorepo_payment.Webhook.Outcome.{
  AttemptsOk, RowOk, RowStep-RowOk, RowStep-SameEvent, RowWalk-Ok, happen_all-SameEvent,
}
use monorepo_payment.Db.Exec.{IsCalm, Env, Session}
use mathlib.Core.Option.{some-injective}
use monorepo_payment.Base.{
  ℕ, suc, ◌+◌, ◌≤◌, ◌≡◌, refl, sym, ◌∙◌, ap, subst, Bool, true, false, some, List, [], ◌∷◌, ◌==◌,
  if◌then◌else◌, arith, All, ==_refl, ==_eq, Bool-cases, inl, inr, ◌⊎◌, not_both, leb,
}
use monorepo_payment.Errors.{Result, ok, err}
use monorepo_payment.Db.{Uuid, OutboxRow, OutboxStatus, pending, delivered, dead, Database}
use monorepo_payment.Db.Exec.After.{After}
use monorepo_payment.Db.Outbox.{is_pending}
use monorepo_payment.Webhook.{Processor, World, post, deliver_by_id}
use monorepo_payment.Webhook.Deliver.{
  find_row, with_row, mark_of, taken_row, Handled, ignored, retired, attempted, NotHandled, missing,
  fault, deliver_by_id-Handled,
}
use monorepo_payment.Webhook.Rows.{mark-keeps, RowWalk, DistinctRows, find_row-update_where}
use monorepo_payment.Webhook.Life.{
  Event, delivering, dispatching, emitting, happen, happen_all, LeavesTables, happen-Stepped,
  happen_all-RowWalk,
}

-- Deliveries of one row.
abbrev pub is_delivery : Uuid → Event → Bool
is_delivery id (delivering w id') = id' == id
is_delivery id e = false

abbrev pub deliveries_of : Uuid → List (Env × Event) → ℕ
deliveries_of id [] = 0
deliveries_of id ((env, e) ∷ rest) =
    let n = deliveries_of id rest in if is_delivery id e then suc n else n

-- What the id of a row that was changed by its id finds.
changed_row :
    (id : Uuid) (old : Database) (row r' : OutboxRow) (f : OutboxRow → OutboxRow)
    → ((r : OutboxRow) → (f r).id ≡ r.id)
    → find_row id old ≡ some row
    → find_row id (with_row row.id f old) ≡ some r'
    → f row ≡ r'
changed_row id old row r' f keeps found found' = some-injective (f row) r' (
    ap some (sym (chosen (row.id == row.id) (==_refl row.id)))
    ∙ sym (find_row-update_where (λ y. y.id == row.id) f keeps id old.outbox row found)
    ∙ found')
  where
    chosen : (b : Bool) → b ≡ true → (if b then f row else row) ≡ f row
    chosen true e = refl
    chosen false e = absurd (ground arith)

mark_of-uses :
    (p : Processor) (now : ℕ) (row : OutboxRow) (took : Bool)
    → is_pending (mark_of p now row took row).status ≡ true
    → (mark_of p now row took row).attempts ≡ suc row.attempts
mark_of-uses p now row true live = absurd (ground arith)
mark_of-uses p now row false live = elim (Bool-cases (leb p.max_attempts (suc row.attempts))) [
  | inl e ↦ rw e refl
  | inr e ↦ rw e refl
]

-- A delivery without faults decides the row or uses up an attempt.
Handled-uses :
    (p : Processor) (w : World) (id : Uuid) (old db : Database) (r r' : OutboxRow)
    → Handled p w id old db
    → find_row id old ≡ some r
    → find_row id db ≡ some r'
    → is_pending r'.status ≡ true
    → r'.attempts ≡ suc r.attempts
Handled-uses p w id old db r r' (ignored row f dull same) found found' live' =
    let e : row ≡ r' = some-injective row r' (sym f ∙ ap (find_row id) (sym same) ∙ found') in
    absurd (not_both (subst (λ x. is_pending x.status ≡ false) e dull) live')
Handled-uses p w id old db r r' (retired row f live no_one same) found found' live' =
    let e : taken_row row ≡ r' =
      changed_row id old row r' taken_row (λ _. refl) f (ap (find_row id) (sym same) ∙ found') in
    absurd (not_both refl (subst (λ x. is_pending x.status ≡ true) (sym e) live'))
Handled-uses p w id old db r r' (attempted row ep rest f live active same) found found' live' =
    let took : Bool = (post w ep row).1 in
    let e : mark_of p w.clock row took row ≡ r' =
      changed_row id old row r' (mark_of p w.clock row took) (mark-keeps p w.clock row took) f
        (ap (find_row id) (sym same) ∙ found') in
    ap (λ x. x.attempts) (sym e)
    ∙ mark_of-uses p w.clock row took (subst (λ x. is_pending x.status ≡ true) (sym e) live')
    ∙ ap (λ x. suc x.attempts) (some-injective row r (sym f ∙ found))

deliver_by_id-uses :
    (p : Processor) (w : World) (id : Uuid) (env : Env) (s : Session) (r r' : OutboxRow)
    → IsCalm env
    → find_row id s.db ≡ some r
    → find_row id (deliver_by_id p w id env s).1.db ≡ some r'
    → is_pending r'.status ≡ true
    → r'.attempts ≡ suc r.attempts
deliver_by_id-uses p w id env s r r' calm found found' live' =
    go (deliver_by_id p w id env s) (deliver_by_id-Handled env p w id s) found'
  where
    go :
        (x : Result (Unit {0}) × Session)
        → After (λ _ db. Handled p w id s.db db) (NotHandled env id s.db) x
        → find_row id x.1.db ≡ some r'
        → r'.attempts ≡ suc r.attempts
    go (ok a, x) h g = Handled-uses p w id s.db x.db r r' h found g live'
    go (err _, x) (missing _ none_found same) g = absurd (ground (arith, found, none_found))
    go (err _, x) (fault _ h same) g = absurd (not_both (calm h.0) h.1)

-- An event without faults uses up an attempt if it is a delivery of the row.
happen-uses :
    (p : Processor) (e : Event) (id : Uuid) (env : Env) (s : Session) (r r' : OutboxRow)
    → IsCalm env
    → find_row id s.db ≡ some r
    → find_row id (happen p e env s).db ≡ some r'
    → is_pending r'.status ≡ true
    → r.attempts ≤ r'.attempts
    → is_delivery id e ≡ true
    → r'.attempts ≡ suc r.attempts
unfolding happen
happen-uses p (delivering w id') id env s r r' calm found found' live' grown same =
    let eq : id' ≡ id = ==_eq id' id same in
    deliver_by_id-uses p w id env s r r' calm found
      (subst (λ i. find_row id (deliver_by_id p w i env s).1.db ≡ some r') eq found') live'
happen-uses p (dispatching f limit) id env s r r' calm found found' live' grown same =
    absurd (ground arith)
happen-uses p (emitting m e t d) id env s r r' calm found found' live' grown same =
    absurd (ground arith)

RowWalk-pending :
    (p : Processor) (r r' : OutboxRow)
    → RowWalk p r r'
    → RowOk p r
    → is_pending r'.status ≡ true
    → is_pending r.status ≡ true
RowWalk-pending p r r' walk h live' = elim (Bool-cases (is_pending r.status)) [
  | inl e ↦ e
  | inr e ↦
      absurd (
        not_both (ap (λ x. is_pending x.status) ((RowWalk-Ok p r r' walk h).1.decided e) ∙ e) live')
]

-- As long as a row is pending, each delivery has used up an attempt.
happen_all-uses :
    (p : Processor) (events : List (Env × Event)) (s : Session) (id : Uuid) (r r' : OutboxRow)
    → DistinctRows s.db
    → All (λ x. LeavesTables x.1) events
    → All (λ x. IsCalm x.0) events
    → find_row id s.db ≡ some r
    → RowOk p r
    → find_row id (happen_all p events s).db ≡ some r'
    → is_pending r'.status ≡ true
    → r.attempts + deliveries_of id events ≤ r'.attempts
unfolding happen_all
happen_all-uses p [] s id r r' d leaves calm found h found' live' =
    let e : r ≡ r' = some-injective r r' (sym found ∙ found') in
    let same : r.attempts ≡ r'.attempts = ap (λ x. x.attempts) e in omega (arith, same)
happen_all-uses p ((env, e) ∷ rest) s id r r' d leaves calm found h found' live' =
    let (d₁, each) = happen-Stepped p e env s d leaves.0 in
    let (r₁, found₁, step) = each id r found in
    let s₁ : Session = happen p e env s in
    let h₁ : RowOk p r₁ = RowStep-RowOk p r r₁ step h in
    let rest_uses = happen_all-uses p rest s₁ id r₁ r' d₁ leaves.1 calm.1 found₁ h₁ found' live' in
    let (r₂, found₂, walk) = happen_all-RowWalk p rest s₁ id r₁ d₁ leaves.1 found₁ in
    let same₂ : r₂ ≡ r' = some-injective r₂ r' (sym found₂ ∙ found') in
    let live₁ = RowWalk-pending p r₁ r' (subst (RowWalk p r₁) same₂ walk) h₁ live' in
    let grown = (RowStep-SameEvent p r r₁ step).attempts in
    let used = happen-uses p e id env s r r₁ calm.0 found found₁ live₁ grown in
    counted r.attempts r₁.attempts r'.attempts (deliveries_of id rest) (is_delivery id e) used grown
      rest_uses
  where
    counted :
        (a b c n : ℕ) (t : Bool)
        → (t ≡ true → b ≡ suc a)
        → a ≤ b
        → b + n ≤ c
        → a + (if t then suc n else n) ≤ c
    counted a b c n true used grown left = omega (arith, used refl, left)
    counted a b c n false used grown left = omega (arith, grown, left)

-- Whatever the receivers answer and whatever else happens in between, once a row of an outbox of
-- distinct rows has been delivered as often as the attempts allow, with no statement failing, it is
-- there and no longer pending: it is delivered, or dead with all its attempts made.
pub happen_all-decides :
    (p : Processor) (events : List (Env × Event)) (s : Session) (id : Uuid) (r : OutboxRow)
    → DistinctRows s.db
    → All (λ x. LeavesTables x.1) events
    → All (λ x. IsCalm x.0) events
    → find_row id s.db ≡ some r
    → RowOk p r
    → p.max_attempts ≤ r.attempts + deliveries_of id events
    → (r' : OutboxRow) × (find_row id (happen_all p events s).db ≡ some r')
      × ((r'.status ≡ delivered) ⊎ ((r'.status ≡ dead) × (r'.attempts ≡ p.max_attempts)))
happen_all-decides p events s id r d leaves calm found h enough =
    let (r', found', ok_now, same) = happen_all-SameEvent p events s id r d leaves found h in
    let uses = happen_all-uses p events s id r r' d leaves calm found h found' in
    (
      r',
      found',
      outcome r'.attempts r'.status ok_now
          (λ live. omega (arith, enough, uses (ap is_pending live))),
    )
  where
    outcome :
        (n : ℕ) (st : OutboxStatus)
        → AttemptsOk p n st
        → (st ≡ pending → p.max_attempts ≤ n)
        → (st ≡ delivered) ⊎ ((st ≡ dead) × (n ≡ p.max_attempts))
    outcome n pending h late = absurd (omega (arith, h, late refl))
    outcome n delivered h late = inl refl
    outcome n dead h late = inr (refl, h)
