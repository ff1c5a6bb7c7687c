-- ===== src/Webhook/Claim.antt =====
-- The claim of due rows (`ClaimDueOutbox` of nem_pay/api/internal/repository/db/outbox.sql.go) takes
-- rows that are pending and due.
use monorepo_payment.Base.{
  All-select, map-update_where, ℕ, zero, suc, ◌+◌, ◌≡◌, refl, sym, ◌∙◌, ap, subst, Bool, true,
  false, ◌&&◌, some, List, [], ◌∷◌, leb, ◌==◌, if◌then◌else◌, find?, select, take, map, arith, All,
  IsNew, Distinct, update_where, Bool-cases, inl, inr,
}
use mathlib.Core.Option.{some-injective}
use monorepo_payment.Db.{Uuid, OutboxRow, Database}
use monorepo_payment.Db.Intents.Order.{order_by, place}
use monorepo_payment.Db.Outbox.{is_pending, is_due_row, is_one_of, due_ids, lease_row}
use monorepo_payment.Webhook.{Processor}
use monorepo_payment.Webhook.Deliver.{find_row}
use monorepo_payment.Webhook.Rows.{
  RowStep, leased, still, DistinctRows, Stepped, find_row-update_where, found_again,
}

module _ {A : Type 0} (P : A → Type 0) where
  All-take : (n : ℕ) (xs : List A) → All P xs → All P (take n xs)
  All-take zero xs h = tt
  All-take (suc n) [] h = tt
  All-take (suc n) (x ∷ xs) h = (h.0, All-take n xs h.1)

  All-place : (by : A → ℕ) (a : A) (xs : List A) → P a → All P xs → All P (place by a xs)
  unfolding place
  All-place by a [] h hs = (h, tt)
  All-place by a (x ∷ xs) h hs = go (leb (by a) (by x)) (All-place by a xs h hs.1)
    where
      go : (b : Bool) → All P (place by a xs) → All P (if b then a ∷ x ∷ xs else x ∷ place by a xs)
      go true rest = (h, hs)
      go false rest = (hs.0, rest)

  All-order_by : (by : A → ℕ) (xs : List A) → All P xs → All P (order_by by xs)
  unfolding order_by
  All-order_by by [] h = tt
  All-order_by by (x ∷ xs) h = All-place by x (order_by by xs) h.0 (All-order_by by xs h.1)

  is_one_of-All :
      (id : A → Uuid) (i : Uuid) (xs : List A)
      → All P xs
      → is_one_of (map id xs) i ≡ true
      → (x : A) × (id x ≡ i) × P x
  is_one_of-All id i [] h e = absurd (ground arith)
  is_one_of-All id i (x ∷ xs) h e = elim (Bool-cases (id x == i)) [
    | inl same ↦ (x, ground arith, h.0)
    | inr other ↦ is_one_of-All id i xs h.1 (ground arith)
  ]

-- With distinct ids, each row is what its id finds.
module _ {A : Type 0} (id : A → ℕ) where
  abbrev IsFound : List A → A → Type 0
  IsFound xs x = find? (λ y. id y == id x) xs ≡ some x

  IsFound-shift :
      (x : A) (xs ys : List A)
      → IsNew (id x) (map id ys)
      → All (IsFound xs) ys
      → All (IsFound (x ∷ xs)) ys
  IsFound-shift x xs [] new h = tt
  IsFound-shift x xs (y ∷ ys) new h = (ground (arith, new.0, h.0), IsFound-shift x xs ys new.1 h.1)

  Distinct-IsFound : (xs : List A) → Distinct (map id xs) → All (IsFound xs) xs
  Distinct-IsFound [] d = tt
  Distinct-IsFound (x ∷ xs) d = (ground arith, IsFound-shift x xs xs d.0 (Distinct-IsFound xs d.1))

due_ids-pending :
    (now limit : ℕ) (old : Database) (r : OutboxRow)
    → DistinctRows old
    → find_row r.id old ≡ some r
    → is_one_of (due_ids now limit old.outbox) r.id ≡ true
    → is_pending r.status ≡ true
unfolding due_ids
due_ids-pending now limit old r d found e =
    let Due : OutboxRow → Type 0 =
      λ x. IsFound (λ x. x.id) old.outbox x × (is_due_row now x ≡ true) in
    let rows = select (is_due_row now) old.outbox in
    let all_due : All Due rows =
      All-select (IsFound (λ x. x.id) old.outbox) (is_due_row now) old.outbox
        (Distinct-IsFound (λ x. x.id) old.outbox d) in
    let sorted = order_by (λ r. r.next_attempt_at) rows in
    let (x, same, (here, due)) =
      is_one_of-All Due (λ x. x.id) r.id (take limit sorted)
        (All-take Due limit sorted (All-order_by Due (λ r. r.next_attempt_at) rows all_due)) e in
    let x_eq : x ≡ r = some-injective x r (sym here ∙ ap (λ i. find_row i old) same ∙ found) in
    subst (λ x. is_pending x.status ≡ true) x_eq
      (both (is_pending x.status) (leb x.next_attempt_at now) due)
  where
    both : (a b : Bool) → (a && b) ≡ true → a ≡ true
    both a b e = ground arith

-- The tables after a claim.
abbrev pub claimed_db : ℕ → ℕ → ℕ → Database → Database
claimed_db now lease limit old = record old {
  outbox =
      update_where (λ r. is_one_of (due_ids now limit old.outbox) r.id) (lease_row (now + lease))
        old.outbox;
}

pub claim-Stepped :
    (p : Processor) (now lease limit : ℕ) (old : Database)
    → DistinctRows old
    → Stepped p old (claimed_db now lease limit old)
claim-Stepped p now lease limit old d = (
  subst Distinct (sym (map-update_where (λ r. r.id) f (λ _. refl) q old.outbox)) d,
  λ id r h. (
    (if q r then f r else r),
    find_row-update_where q f (λ _. refl) id old.outbox r h,
    step r (q r) (λ e. due_ids-pending now limit old r d (found_again id old r h) e),
  ),
)
  where
    q : OutboxRow → Bool
    q r = is_one_of (due_ids now limit old.outbox) r.id

    f : OutboxRow → OutboxRow
    f = lease_row (now + lease)

    step :
        (r : OutboxRow) (b : Bool)
        → (b ≡ true → is_pending r.status ≡ true)
        → RowStep p r (if b then f r else r)
    step r true live = leased (now + lease) (live refl)
    step r false live = still
