-- ===== src/Base/Deletes.antt =====
-- Tables whose rows have distinct ids: what DELETE … WHERE id leaves, and what UPDATE keeps.
use mathlib.Core.Path.{◌≡◌, refl, subst}
use mathlib.Core.Logic.{inl, inr}
use mathlib.Core.Bool.{Bool, true, false, not}
use mathlib.Core.List.{List, [], ◌∷◌, map}
use mathlib.Core.Option.{none, some}
use Prim.Native.Nat.{ℕ, ◌+◌}
use native.Mathlib.Omega.{arith}
use monorepo_payment.Base.Tests.{◌==◌, ==_eq, Bool-cases, if◌then◌else◌}
use monorepo_payment.Base.Lists.{All, IsNew, find?, update_where, select, sum_by}
use monorepo_payment.Base.Rows.{Distinct}

-- What holds of all rows holds of those that are selected, which pass the test.
pub All-select {ℓ κ} :
    {A : Type ℓ} (P : A → Type κ) (q : A → Bool) (xs : List A)
    → All P xs
    → All (λ x. P x × (q x ≡ true)) (select q xs)
All-select P q [] h = tt
All-select {A} P q (x ∷ xs) h = go (q x) refl (All-select P q xs h.1)
  where
    go :
        (b : Bool)
        → q x ≡ b
        → All (λ y. P y × (q y ≡ true)) (select q xs)
        → All (λ y. P y × (q y ≡ true)) (if b then x ∷ select q xs else select q xs)
    go true e rest = ((h.0, e), rest)
    go false e rest = rest

pub All-map {ℓ κ κ'} :
    {A : Type ℓ} (P : A → Type κ) (Q : A → Type κ')
    → ((a : A) → P a → Q a)
    → (xs : List A) → All P xs
    → All Q xs
All-map P Q f [] h = tt
All-map P Q f (x ∷ xs) h = (f x h.0, All-map P Q f xs h.1)

module _ {A : Type 0} (id : A → ℕ) where
  -- DELETE … WHERE id = n.
  abbrev pub delete_id : ℕ → List A → List A
  delete_id n xs = select (λ x. not (id x == n)) xs

  IsNew-select :
      (n : ℕ) (q : A → Bool) (xs : List A) → IsNew n (map id xs) → IsNew n (map id (select q xs))
  IsNew-select n q [] h = tt
  IsNew-select n q (x ∷ xs) h = go (q x) (IsNew-select n q xs h.1)
    where
      go :
          (b : Bool)
          → IsNew n (map id (select q xs))
          → IsNew n (map id (if b then x ∷ select q xs else select q xs))
      go true rest = (h.0, rest)
      go false rest = rest

  pub Distinct-select :
      (q : A → Bool) (xs : List A) → Distinct (map id xs) → Distinct (map id (select q xs))
  Distinct-select q [] d = tt
  Distinct-select q (x ∷ xs) d = go (q x) (Distinct-select q xs d.1) (IsNew-select (id x) q xs d.0)
    where
      go :
          (b : Bool)
          → Distinct (map id (select q xs))
          → IsNew (id x) (map id (select q xs))
          → Distinct (map id (if b then x ∷ select q xs else select q xs))
      go true rest new = (new, rest)
      go false rest new = rest

  pub find?-delete_id :
      (n k : ℕ) (xs : List A) (a : A)
      → find? (λ x. id x == k) xs ≡ some a
      → (k == n) ≡ false
      → find? (λ x. id x == k) (delete_id n xs) ≡ some a
  find?-delete_id n k [] a h ne = ground arith
  find?-delete_id n k (x ∷ xs) a h ne = ground (arith, find?-delete_id n k xs a)

  sum_by-IsNew :
      (w : A → ℕ) (n : ℕ) (xs : List A)
      → IsNew n (map id xs)
      → sum_by w (delete_id n xs) ≡ sum_by w xs
  sum_by-IsNew w n [] h = refl
  sum_by-IsNew w n (x ∷ xs) h = ground (arith, sum_by-IsNew w n xs h.1)

  -- A DELETE by id takes the measure of the one row with the id.
  pub sum_by-delete_id :
      (w : A → ℕ) (n : ℕ) (xs : List A) (a : A)
      → Distinct (map id xs)
      → find? (λ x. id x == n) xs ≡ some a
      → sum_by w (delete_id n xs) + w a ≡ sum_by w xs
  sum_by-delete_id w n [] a d f = ground arith
  sum_by-delete_id w n (x ∷ xs) a d f = elim (Bool-cases (id x == n)) [
    | inl e ↦
        ground
          (arith, sum_by-IsNew w n xs (subst (λ k. IsNew k (map id xs)) (==_eq (id x) n e) d.0))
    | inr e ↦ ground (arith, sum_by-delete_id w n xs a d.1)
  ]

  module _ (g : A → A) (keeps : (a : A) → id (g a) ≡ id a) where
    pub find?-update_some :
        (q : A → Bool) (n : ℕ) (xs : List A) (a : A)
        → find? (λ x. id x == n) xs ≡ some a
        → find? (λ x. id x == n) (update_where q g xs) ≡ some (if q a then g a else a)
    find?-update_some q n [] a h = ground arith
    find?-update_some q n (x ∷ xs) a h = ground (arith, keeps x, find?-update_some q n xs a)

-- A measure that an UPDATE does not change.
pub sum_by-update_same :
    {A : Type 0} (w : A → ℕ) (g : A → A)
    → ((a : A) → w (g a) ≡ w a)
    → (q : A → Bool) (xs : List A) → sum_by w (update_where q g xs) ≡ sum_by w xs
sum_by-update_same w g same q [] = refl
sum_by-update_same w g same q (x ∷ xs) = ground (arith, same x, sum_by-update_same w g same q xs)

pub sum_by-none_found :
    {A : Type 0} (p : A → Bool) (xs : List A)
    → find? p xs ≡ none
    → sum_by (λ x. if p x then 1 else 0) xs ≡ 0
sum_by-none_found p [] h = refl
sum_by-none_found p (x ∷ xs) h = ground (arith, sum_by-none_found p xs)
