-- ===== src/Http/Tokens/Luhn.antt =====
-- `luhnValid` of nem_pay/api/internal/httpapi/tokens.go finds each single wrong digit.
use monorepo_payment.Base.{
  ==_eq, ℕ, ◌+◌, ◌-◌, ◌%◌, ◌≤◌, ◌≡◌, ◌≢◌, sym, ◌∙◌, ap, subst, Bool, true, false, not, [], ◌∷◌,
  ◌++◌, append_assoc, append-nil, Bytes, reverse, ◌==◌, arith, Bool-cases, inl, inr,
}
use monorepo_payment.Http.Tokens.{is_digit, weight, luhn_sum, luhn_valid}

reverse-append : (xs ys : Bytes) → reverse (xs ++ ys) ≡ reverse ys ++ reverse xs
reverse-append [] ys = sym (append-nil (reverse ys))
reverse-append (x ∷ xs) ys =
    ap (λ zs. zs ++ x ∷ []) (reverse-append xs ys) ∙ append_assoc (reverse ys) (reverse xs) (x ∷ [])

-- The sum is a constant and the weight of the digit at one place.
luhn_sum-split :
    (alt : Bool) (us vs : Bytes)
    → (k : ℕ) × (alt' : Bool) × ((c : ℕ) → luhn_sum alt (us ++ c ∷ vs) ≡ k + weight alt' (c - 48))
unfolding luhn_sum
luhn_sum-split alt [] vs = (luhn_sum (not alt) vs, alt, λ c. omega arith)
luhn_sum-split alt (u ∷ us) vs =
    let (k, alt', split) = luhn_sum-split (not alt) us vs in
    (weight alt (u - 48) + k, alt', λ c. omega (arith, split c))

weight_le : (alt : Bool) (d : ℕ) → d ≤ 9 → weight alt d ≤ 9
weight_le false d h = h
weight_le true d h = ground (arith, h)

weight_injective : (alt : Bool) (d e : ℕ) → d ≤ 9 → e ≤ 9 → weight alt d ≡ weight alt e → d ≡ e
weight_injective false d e hd he h = h
weight_injective true d e hd he h = ground (arith, hd, he, h)

same_rest : (k a b : ℕ) → a ≤ 9 → b ≤ 9 → (k + a) % 10 ≡ 0 → (k + b) % 10 ≡ 0 → a ≡ b
same_rest k a b ha hb ea eb = omega (arith, ha, hb, ea, eb)

-- If a number passes, then so does none that differs from it in one digit.
pub luhn_valid-one_digit :
    (xs ys : Bytes) (a b : ℕ)
    → is_digit a ≡ true
    → is_digit b ≡ true
    → a ≢ b
    → luhn_valid (xs ++ a ∷ ys) ≡ true
    → luhn_valid (xs ++ b ∷ ys) ≡ false
unfolding luhn_valid
luhn_valid-one_digit xs ys a b da db ne passes =
    let (k, alt, split) = luhn_sum-split false (reverse ys) (reverse xs) in
    let sum_of : (c : ℕ) → luhn_sum false (reverse (xs ++ c ∷ ys)) ≡ k + weight alt (c - 48) =
      λ c. ap (luhn_sum false) (turned c) ∙ split c in
    let a_le : a - 48 ≤ 9 = ground arith in
    let b_le : b - 48 ≤ 9 = ground arith in
    let zero_a : (k + weight alt (a - 48)) % 10 ≡ 0 =
      subst (λ n. n % 10 ≡ 0) (sum_of a)
        (==_eq (luhn_sum false (reverse (xs ++ a ∷ ys)) % 10) 0 passes) in
    elim (Bool-cases (luhn_sum false (reverse (xs ++ b ∷ ys)) % 10 == 0)) [
      | inr e ↦ e
      | inl e ↦
          let zero_b : (k + weight alt (b - 48)) % 10 ≡ 0 =
            subst (λ n. n % 10 ≡ 0) (sum_of b)
              (==_eq (luhn_sum false (reverse (xs ++ b ∷ ys)) % 10) 0 e) in
          let same : a - 48 ≡ b - 48 = weight_injective alt (a - 48) (b - 48) a_le b_le (
            same_rest k (weight alt (a - 48)) (weight alt (b - 48)) (weight_le alt (a - 48) a_le)
              (weight_le alt (b - 48) b_le) zero_a zero_b) in
          absurd (ne (ground (arith, same)))
    ]
  where
    turned : (c : ℕ) → reverse (xs ++ c ∷ ys) ≡ reverse ys ++ c ∷ reverse xs
    turned c = reverse-append xs (c ∷ ys) ∙ append_assoc (reverse ys) (c ∷ []) (reverse xs)
