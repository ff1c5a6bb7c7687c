-- ===== src/Base/Rows.antt =====
-- Tables whose rows have distinct ids: a row that any search finds is the one its id finds.
use mathlib.Core.Path.{◌≡◌, refl, subst}
use mathlib.Core.Logic.{◌≢◌, inl, inr}
use mathlib.Core.Bool.{Bool}
use mathlib.Core.List.{List, [], ◌∷◌, ◌++◌, map}
use mathlib.Core.Option.{none, some}
use Prim.Native.Nat.{ℕ, ◌+◌}
use native.Mathlib.Omega.{arith}
use monorepo_payment.Base.Tests.{◌==◌, ==_eq, Bool-cases}
use monorepo_payment.Base.Lists.{IsNew, find?, update_where, sum_by}

abbrev pub Distinct : List ℕ → Type 0
Distinct [] = Unit
Distinct (x ∷ xs) = IsNew x xs × Distinct xs

module _ {A : Type 0} (id : A → ℕ) where
  -- A row with a new id keeps the ids distinct.
  pub Distinct-add :
      (xs : List A) (a : A)
      → Distinct (map id xs)
      → IsNew (id a) (map id xs)
      → Distinct (map id (xs ++ a ∷ []))
  Distinct-add [] a d h = (tt, tt)
  Distinct-add (x ∷ xs) a d h = (new_in xs (λ e. h.0 (omega arith)) d.0, Distinct-add xs a d.1 h.1)
    where
      new_in :
          (ys : List A)
          → id a ≢ id x
          → IsNew (id x) (map id ys)
          → IsNew (id x) (map id (ys ++ a ∷ []))
      new_in [] k h' = (k, tt)
      new_in (y ∷ ys) k h' = (h'.0, new_in ys k h'.1)

  pub find?-IsNew : (n : ℕ) (xs : List A) → IsNew n (map id xs) → find? (λ x. id x == n) xs ≡ none
  find?-IsNew n [] h = refl
  find?-IsNew n (x ∷ xs) h = ground (arith, find?-IsNew n xs h.1)

  pub find?-ne_of_IsNew :
      (p : A → Bool) (n : ℕ) (xs : List A) (a : A)
      → IsNew n (map id xs)
      → find? p xs ≡ some a
      → id a ≢ n
  find?-ne_of_IsNew p n [] a h f = ground arith
  find?-ne_of_IsNew p n (x ∷ xs) a h f = ground (arith, find?-ne_of_IsNew p n xs a h.1)

  pub find?-Distinct :
      (p : A → Bool) (xs : List A) (a : A)
      → Distinct (map id xs)
      → find? p xs ≡ some a
      → find? (λ x. id x == id a) xs ≡ some a
  find?-Distinct p [] a d f = ground arith
  find?-Distinct p (x ∷ xs) a d f =
      ground (arith, find?-Distinct p xs a d.1, find?-ne_of_IsNew p (id x) xs a d.0)

  module _ (g : A → A) (keeps : (a : A) → id (g a) ≡ id a) where
    pub map-update_where : (p : A → Bool) (xs : List A) → map id (update_where p g xs) ≡ map id xs
    map-update_where p [] = refl
    map-update_where p (x ∷ xs) = ground (arith, keeps x, map-update_where p xs)

    -- The row that an UPDATE by id changed is what the id then finds.
    pub find?-update_where :
        (n : ℕ) (xs : List A) (a : A)
        → find? (λ x. id x == n) xs ≡ some a
        → find? (λ x. id x == n) (update_where (λ x. id x == n) g xs) ≡ some (g a)
    find?-update_where n [] a f = ground arith
    find?-update_where n (x ∷ xs) a f = ground (arith, keeps x, find?-update_where n xs a)

    update_where-IsNew :
        (w : A → ℕ) (n : ℕ) (xs : List A)
        → IsNew n (map id xs)
        → sum_by w (update_where (λ x. id x == n) g xs) ≡ sum_by w xs
    update_where-IsNew w n [] h = refl
    update_where-IsNew w n (x ∷ xs) h = ground (arith, update_where-IsNew w n xs h.1)

    -- An UPDATE by id replaces the measure of the one row with the id.
    pub sum_by-update_where :
        (w : A → ℕ) (n : ℕ) (xs : List A) (a : A)
        → Distinct (map id xs)
        → find? (λ x. id x == n) xs ≡ some a
        → sum_by w (update_where (λ x. id x == n) g xs) + w a ≡ sum_by w xs + w (g a)
    sum_by-update_where w n [] a d f = ground arith
    sum_by-update_where w n (x ∷ xs) a d f = elim (Bool-cases (id x == n)) [
      | inl e ↦ ground (
        arith,
        update_where-IsNew w n xs (subst (λ k. IsNew k (map id xs)) (==_eq (id x) n e) d.0),
      )
      | inr e ↦ ground (arith, sum_by-update_where w n xs a d.1)
    ]
