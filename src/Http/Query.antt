-- ===== src/Http/Query.antt =====
-- Numbers in a query string: `atoi32` of nem_pay/api/internal/httpapi/payment_intents.go, over
-- strconv.ParseInt.
use monorepo_payment.Base.{
  ℕ, ◌+◌, ◌-◌, ◌*◌, ◌==◌, Option, none, some, [], ◌∷◌, Bytes, leb, ltb, if◌then◌else◌,
}
use monorepo_payment.Base.Int.{ℤ, pos, sub_ℕ}
use monorepo_payment.Http.Tokens.{digits_only}

-- The value of decimal digits, after a value that has been read.
unfoldable pub decimal : ℕ → Bytes → ℕ
decimal n [] = n
decimal n (c ∷ cs) = decimal (n * 10 + (c - 48)) cs

-- strconv.ParseInt in base 10, to 1 + the bits of `bound`: -bound … bound - 1.
abbrev pub magnitude : Bytes → Option ℕ
magnitude ds = if digits_only ds then some (decimal 0 ds) else none

abbrev pub up_to : ℕ → Option ℕ → Option ℤ
up_to bound none = none
up_to bound (some n) = if ltb n bound then some (pos n) else none

abbrev pub down_to : ℕ → Option ℕ → Option ℤ
down_to bound none = none
down_to bound (some n) = if leb n bound then some (sub_ℕ 0 n) else none

unfoldable pub parse_int : ℕ → Bytes → Option ℤ
parse_int bound [] = none
parse_int bound (c ∷ cs) =
    if c == 45
    then down_to bound (magnitude cs)
    else if c == 43
    then up_to bound (magnitude cs)
    else up_to bound (magnitude (c ∷ cs))

abbrev pub two31 : ℕ
two31 = 2147483648

abbrev pub two32 : ℕ
two32 = 4294967296

abbrev pub or_zero : Option ℤ → ℤ
or_zero none = pos 0
or_zero (some n) = n

unfoldable pub atoi32 : Bytes → ℤ
atoi32 s = or_zero (parse_int two31 s)
