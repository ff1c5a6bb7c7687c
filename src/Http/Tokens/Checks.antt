-- ===== src/Http/Tokens/Checks.antt =====
-- What a token says of its card (nem_pay/api/internal/httpapi/tokens.go).
use monorepo_payment.Base.{
  suc, ℕ, zero, ◌+◌, ◌-◌, ◌≤◌, ◌≡◌, refl, sym, ◌∙◌, ap, Bool, true, false, not, ◌||◌, some, [], ◌∷◌,
  Bytes, length, drop, ltb, if◌then◌else◌, arith,
}
use monorepo_payment.Base.Int.{ℤ, pos, leb_ℤ, ltb_ℤ}
use monorepo_payment.Http.Tokens.{
  CreateTokenRequest, Token, digits_only, luhn_valid, number_of, number_bad, month_bad, year_bad,
  cvc_bad, token, refuse, token_of, create_token,
}

length-drop : (n : ℕ) (xs : Bytes) → n ≤ length xs → length (drop n xs) + n ≡ length xs
length-drop zero xs h = omega arith
length-drop (suc n) [] h = absurd (omega (arith, h))
length-drop (suc n) (x ∷ xs) h = omega (arith, length-drop n xs (omega (arith, h)))

-- What a request with a token has passed.
pub record Passed (req : CreateTokenRequest) (t : Token) : Type 0 where
  pub digits : digits_only (number_of req) ≡ true
  pub at_least : 13 ≤ length (number_of req)
  pub at_most : length (number_of req) ≤ 19
  pub luhn : luhn_valid (number_of req) ≡ true
  pub month : leb_ℤ (pos 1) req.exp_month ≡ true
  pub month_most : leb_ℤ req.exp_month (pos 12) ≡ true
  pub year : leb_ℤ (pos 2000) req.exp_year ≡ true
  pub year_most : leb_ℤ req.exp_year (pos 2100) ≡ true
  pub cvc : digits_only req.cvc ≡ true
  pub cvc_least : 3 ≤ length req.cvc
  pub cvc_most : length req.cvc ≤ 4
  pub four : length t.last4 ≡ 4
  pub same : t ≡ token_of req (number_of req)

token_injective : {s t : Token} → token s ≡ token t → s ≡ t
token_injective e = ground arith

-- A token is given only for a number of 13 to 19 digits that passes Luhn's check, a month from 1 to
-- 12, a year from 2000 to 2100 and a security code of 3 or 4 digits; it tells exactly four digits of
-- the number.
pub create_token-Passed :
    (req : CreateTokenRequest) (t : Token) → create_token (some req) ≡ token t → Passed req t
unfolding create_token
create_token-Passed req t e =
    go (number_bad number) (month_bad req.exp_month) (year_bad req.exp_year) (cvc_bad req.cvc) refl
      refl refl refl e
  where
    number : Bytes
    number = number_of req

    four_false :
        (a b c d : Bool)
        → (not a || b || c || not d) ≡ false
        → (a ≡ true) × (b ≡ false) × (c ≡ false) × (d ≡ true)
    four_false a b c d h = (ground arith, ground arith, ground arith, ground arith)

    three_false :
        (a b c : Bool) → (a || b || not c) ≡ false → (a ≡ false) × (b ≡ false) × (c ≡ true)
    three_false a b c h = (ground arith, ground arith, ground arith)

    not_less : (a b : ℤ) → ltb_ℤ a b ≡ false → leb_ℤ b a ≡ true
    not_less a b h = ground arith

    two_false : (a b : Bool) → (a || b) ≡ false → (a ≡ false) × (b ≡ false)
    two_false a b h = (ground arith, ground arith)

    accepted :
        number_bad number ≡ false
        → month_bad req.exp_month ≡ false
        → year_bad req.exp_year ≡ false
        → cvc_bad req.cvc ≡ false
        → t ≡ token_of req number
        → Passed req t
    accepted hn hm hy hc same =
        let (digits, long, short, luhn) =
          four_false (digits_only number) (ltb (length number) 13) (ltb 19 (length number))
            (luhn_valid number) hn in
        let (low, high) =
          two_false (ltb_ℤ req.exp_month (pos 1)) (ltb_ℤ (pos 12) req.exp_month) hm in
        let (from, upto) =
          two_false (ltb_ℤ req.exp_year (pos 2000)) (ltb_ℤ (pos 2100) req.exp_year) hy in
        let (few, many, figures) =
          three_false (ltb (length req.cvc) 3) (ltb 4 (length req.cvc)) (digits_only req.cvc) hc in
        let at_least : 13 ≤ length number = ground (arith, long) in
        let dropped : length (drop (length number - 4) number) + (length number - 4)
            ≡ length number =
          length-drop (length number - 4) number (omega arith) in
        record {
          digits = digits;
          at_least = at_least;
          at_most = ground (arith, short);
          luhn = luhn;
          month = not_less req.exp_month (pos 1) low;
          month_most = not_less (pos 12) req.exp_month high;
          year = not_less req.exp_year (pos 2000) from;
          year_most = not_less (pos 2100) req.exp_year upto;
          cvc = figures;
          cvc_least = ground (arith, few);
          cvc_most = ground (arith, many);
          four = ap (λ x. length x.last4) same ∙ omega (arith, at_least, dropped);
          same = same;
        }

    go :
        (a b c d : Bool)
        → number_bad number ≡ a
        → month_bad req.exp_month ≡ b
        → year_bad req.exp_year ≡ c
        → cvc_bad req.cvc ≡ d
        → (if a
            then refuse "invalid_card_number" "number"
            else if b
            then refuse "invalid_expiry" "exp_month"
            else if c
            then refuse "invalid_expiry" "exp_year"
            else if d
            then refuse "invalid_cvc" "cvc"
            else token (token_of req number))
          ≡ token t
        → Passed req t
    go true b c d hn hm hy hc e = absurd (ground arith)
    go false true c d hn hm hy hc e = absurd (ground arith)
    go false false true d hn hm hy hc e = absurd (ground arith)
    go false false false true hn hm hy hc e = absurd (ground arith)
    go false false false false hn hm hy hc e = accepted hn hm hy hc (sym (token_injective e))
