-- ===== src/Http/Tokens/Tests.antt =====
-- Card numbers (nem_pay/api/internal/httpapi/tokens.go).
use monorepo_payment.Base.{◌≡◌, refl, true, false, [], ◌∷◌, ◌++◌, Bytes, bytes_eq, arith}
use monorepo_payment.Base.Int.{pos}
use monorepo_payment.Http.Tokens.{
  CreateTokenRequest, Token, tok_ok, visa, create_token, luhn_sum, luhn_valid, digits_only,
  magic_token_for_card, card_brand,
}
use monorepo_payment.Http.Tokens.Luhn.{luhn_valid-one_digit}
use monorepo_payment.Http.Tokens.Checks.{Passed, create_token-Passed}

-- 424242424242424, before the last digit 2.
abbrev front : Bytes
front = 52 ∷ 50 ∷ 52 ∷ 50 ∷ 52 ∷ 50 ∷ 52 ∷ 50 ∷ 52 ∷ 50 ∷ 52 ∷ 50 ∷ 52 ∷ 50 ∷ 52 ∷ []

front_passes : luhn_valid (front ++ 50 ∷ []) ≡ true
unfolding luhn_valid luhn_sum
front_passes = refl

luhn_valid-one_digit_example : luhn_valid (front ++ 55 ∷ []) ≡ false
luhn_valid-one_digit_example =
    luhn_valid-one_digit front [] 50 55 refl refl (λ e. absurd (omega (arith, e))) front_passes

abbrev request : CreateTokenRequest
request = record {
  number = front ++ 50 ∷ [];
  exp_month = pos 12;
  exp_year = pos 2030;
  cvc = 49 ∷ 50 ∷ 51 ∷ [];
}

abbrev given : Token
given = record {
  id = tok_ok;
  brand = visa;
  last4 = 52 ∷ 50 ∷ 52 ∷ 50 ∷ [];
  exp_month = pos 12;
  exp_year = pos 2030;
}

create_token-Passed_example : Passed request given
unfolding create_token luhn_valid luhn_sum digits_only magic_token_for_card card_brand bytes_eq
create_token-Passed_example = create_token-Passed request given refl
