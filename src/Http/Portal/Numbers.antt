-- ===== src/Http/Portal/Numbers.antt =====
-- Numbers in a query string (`paginate` of nem_pay/api/internal/httpapi/portal_reads.go and `atoi32` of
-- payment_intents.go).
use monorepo_payment.Base.{
  ℕ, zero, suc, ◌+◌, ◌-◌, ◌*◌, ◌/◌, ◌%◌, ◌≤◌, ◌<◌, ◌≡◌, refl, sym, ◌∙◌, ap, subst, true, Option,
  none, some, [], ◌∷◌, ◌++◌, Bytes, ltb, if◌then◌else◌, arith, Bool-cases, inl, inr,
}
use monorepo_payment.Base.Int.{ℤ, pos, negsuc, two63}
use monorepo_payment.Http.Tokens.{is_digit, all_digits, digits_only}
use monorepo_payment.Http.Portal.{to_int32, page_limit, page_offset, paginate}
use monorepo_payment.Http.Query.{decimal, parse_int, two31, two32}

-- The decimal text of a number, with enough rounds.
unfoldable pub digits : ℕ → ℕ → Bytes
digits zero n = (48 + n % 10) ∷ []
digits (suc rounds) n =
    let rest = digits rounds (n / 10) in
    if ltb n 10 then (48 + n) ∷ [] else rest ++ ((48 + n % 10) ∷ [])

abbrev pub print : ℕ → Bytes
print n = digits n n

decimal-snoc :
    (k : ℕ) (xs : Bytes) (c : ℕ) → decimal k (xs ++ c ∷ []) ≡ decimal k xs * 10 + (c - 48)
unfolding decimal
decimal-snoc k [] c = refl
decimal-snoc k (x ∷ xs) c = decimal-snoc (k * 10 + (x - 48)) xs c

all_digits-snoc :
    (xs : Bytes) (c : ℕ)
    → all_digits xs ≡ true
    → is_digit c ≡ true
    → all_digits (xs ++ c ∷ []) ≡ true
all_digits-snoc [] c h hc = ground (arith, hc)
all_digits-snoc (x ∷ xs) c h hc = ground (arith, h, all_digits-snoc xs c)

digits-all : (rounds n : ℕ) → all_digits (digits rounds n) ≡ true
unfolding digits
digits-all zero n = ground arith
digits-all (suc rounds) n = elim (Bool-cases (ltb n 10)) [
  | inl e ↦ rw e (ground (arith, e))
  | inr e ↦ rw e (
      all_digits-snoc (digits rounds (n / 10)) (48 + n % 10) (digits-all rounds (n / 10))
        (ground arith))
]

digits_only-snoc :
    (xs : Bytes) (c : ℕ) → all_digits (xs ++ c ∷ []) ≡ true → digits_only (xs ++ c ∷ []) ≡ true
unfolding digits_only
digits_only-snoc [] c h = h
digits_only-snoc (x ∷ xs) c h = h

digits-digits_only : (rounds n : ℕ) → digits_only (digits rounds n) ≡ true
unfolding digits digits_only
digits-digits_only zero n = ground arith
digits-digits_only (suc rounds) n = elim (Bool-cases (ltb n 10)) [
  | inl e ↦ rw e (ground (arith, e))
  | inr e ↦ rw e (
      digits_only-snoc (digits rounds (n / 10)) (48 + n % 10) (
        all_digits-snoc (digits rounds (n / 10)) (48 + n % 10) (digits-all rounds (n / 10))
          (ground arith)))
]

digits-decimal : (rounds n : ℕ) → n ≤ rounds → decimal 0 (digits rounds n) ≡ n
unfolding digits decimal
digits-decimal zero n h = omega (arith, h)
digits-decimal (suc rounds) n h = elim (Bool-cases (ltb n 10)) [
  | inl e ↦ rw e (omega arith)
  | inr e ↦
      let large : 10 ≤ n = ground (arith, e) in
      let rest = digits-decimal rounds (n / 10) (omega (arith, h, large)) in
      rw e (decimal-snoc 0 (digits rounds (n / 10)) (48 + n % 10) ∙ omega (arith, rest))
]

-- A text of digits is read as its decimal value if that is below the bound.
parse_int-digits :
    (bound : ℕ) (ds : Bytes)
    → digits_only ds ≡ true
    → decimal 0 ds < bound
    → parse_int bound ds ≡ some (pos (decimal 0 ds))
unfolding digits_only parse_int
parse_int-digits bound [] h below = absurd (ground arith)
parse_int-digits bound (c ∷ cs) h below = ground (arith, h, below)

-- The decimal text of a number below the bound is read back.
pub parse_int-print : (bound n : ℕ) → n < bound → parse_int bound (print n) ≡ some (pos n)
parse_int-print bound n below =
    let e : decimal 0 (print n) ≡ n = digits-decimal n n (omega arith) in
    parse_int-digits bound (print n) (digits-digits_only n n) (subst (λ k. k < bound) (sym e) below)
    ∙ ap (λ k. some (pos k)) e

to_int32-small : (n : ℕ) → n < two31 → to_int32 n ≡ pos n
to_int32-small n h = ground (arith, h)

-- The page size is from 1 to 100 whatever the text is. The offset is the number in the text if that is
-- below 2^31; from 2^31 on and below 2^32 it wraps around to a negative number.
pub paginate-bounds :
    (limit offset : Bytes) (n : ℕ)
    → parse_int two63 offset ≡ some (pos n)
    → let (l, o) = paginate limit offset in
      ((k : ℕ) × (l ≡ pos k) × (1 ≤ k) × (k ≤ 100))
      × (n < two31 → o ≡ pos n)
      × (two31 ≤ n → n < two32 → o ≡ negsuc (two32 - n - 1))
unfolding paginate
paginate-bounds limit offset n read = (
  limit_ok (parse_int two63 limit),
  λ small. ap page_offset read ∙ offset_small n small,
  λ large fits. ap page_offset read ∙ offset_large n large fits,
)
  where
    limit_ok : (o : Option ℤ) → (k : ℕ) × (page_limit o ≡ pos k) × (1 ≤ k) × (k ≤ 100)
    limit_ok none = (20, refl, omega arith, omega arith)
    limit_ok (some (negsuc k)) = (20, refl, omega arith, omega arith)
    limit_ok (some (pos zero)) = (20, refl, omega arith, omega arith)
    limit_ok (some (pos (suc k))) = elim (Bool-cases (ltb 100 (suc k))) [
      | inl e ↦ (100, rw e refl, omega arith, omega arith)
      | inr e ↦
          let most : suc k ≤ 100 = ground (arith, e) in
          (suc k, rw e (to_int32-small (suc k) (omega (arith, most))), omega arith, most)
    ]

    offset_small : (n : ℕ) → n < two31 → page_offset (some (pos n)) ≡ pos n
    offset_small zero h = refl
    offset_small (suc n) h = to_int32-small (suc n) h

    offset_large :
        (n : ℕ) → two31 ≤ n → n < two32 → page_offset (some (pos n)) ≡ negsuc (two32 - n - 1)
    offset_large zero h k = absurd (omega (arith, h))
    offset_large (suc n) h k = ground (arith, h, k)
