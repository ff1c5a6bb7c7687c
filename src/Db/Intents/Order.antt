-- ===== src/Db/Intents/Order.antt =====
-- ORDER BY a number, ascending; rows of the same number keep their order.
use monorepo_payment.Base.{ℕ, Bool, true, false, List, [], ◌∷◌, leb, if◌then◌else◌, All}

module _ {A : Type 0} (by : A → ℕ) where
  unfoldable pub place : A → List A → List A
  place x [] = x ∷ []
  place x (y ∷ ys) = if leb (by x) (by y) then x ∷ y ∷ ys else y ∷ place x ys

  unfoldable pub order_by : List A → List A
  unfolding place
  order_by [] = []
  order_by (x ∷ xs) = place x (order_by xs)

  module _ (P : A → Type 0) where
    place-All : (x : A) (ys : List A) → P x → All P ys → All P (place x ys)
    unfolding place
    place-All x [] h k = (h, tt)
    place-All x (y ∷ ys) h (q, k) = go (leb (by x) (by y)) (place-All x ys h k)
      where
        go : (b : Bool) → All P (place x ys) → All P (if b then x ∷ y ∷ ys else y ∷ place x ys)
        go true r = (h, (q, k))
        go false r = (q, r)

    -- Ordering keeps what holds of every row.
    pub order_by-All : (xs : List A) → All P xs → All P (order_by xs)
    unfolding order_by
    order_by-All [] h = tt
    order_by-All (x ∷ xs) (h, k) = place-All x (order_by xs) h (order_by-All xs k)
