-- ===== src/Http/Tokens.antt =====
-- Tokenization: nem_pay/api/internal/httpapi/tokens.go. Texts that come out of JSON are lists of code
-- points.
pub mod Luhn
pub mod Checks
pub mod Tests
use Prim.Native.String.{String}
use monorepo_payment.Base.{
  ℕ, zero, suc, ◌+◌, ◌-◌, ◌*◌, ◌%◌, Bool, true, false, ◌&&◌, ◌||◌, not, Option, none, some, List,
  [], ◌∷◌, Bytes, bytes_eq, length, drop, reverse, leb, ltb, ◌==◌, select, if◌then◌else◌,
}
use monorepo_payment.Base.Int.{ℤ, pos, leb_ℤ, ltb_ℤ}
use monorepo_payment.Http.{ApiError, invalid_request_error, respond_error}

-- `createTokenRequest`.
pub record CreateTokenRequest : Type 0 where
  pub number : Bytes
  pub exp_month : ℤ
  pub exp_year : ℤ
  pub cvc : Bytes

pub data MagicToken : Type 0 where
  tok_ok tok_declined tok_timeout : MagicToken

pub data Brand : Type 0 where
  visa mastercard amex card : Brand

pub record Token : Type 0 where
  pub id : MagicToken
  pub brand : Brand
  pub last4 : Bytes
  pub exp_month : ℤ
  pub exp_year : ℤ

-- r < '0' || r > '9'
abbrev pub is_digit : ℕ → Bool
is_digit r = leb 48 r && leb r 57

abbrev pub all_digits : Bytes → Bool
all_digits [] = true
all_digits (r ∷ rs) = is_digit r && all_digits rs

unfoldable pub digits_only : Bytes → Bool
digits_only [] = false
digits_only (r ∷ rs) = all_digits (r ∷ rs)

-- What a digit adds to the sum, doubled in every other place.
abbrev pub weight : Bool → ℕ → ℕ
weight false d = d
weight true d = if ltb 9 (d * 2) then d * 2 - 9 else d * 2

-- The loop from the last digit to the first, over the number turned round.
unfoldable pub luhn_sum : Bool → Bytes → ℕ
luhn_sum alt [] = 0
luhn_sum alt (c ∷ cs) = weight alt (c - 48) + luhn_sum (not alt) cs

unfoldable pub luhn_valid : Bytes → Bool
unfolding luhn_sum
luhn_valid number = luhn_sum false (reverse number) % 10 == 0

-- unicode.IsSpace
abbrev pub is_space : ℕ → Bool
is_space r =
    (leb 9 r && leb r 13)
    || r == 32
    || r == 133
    || r == 160
    || r == 5760
    || (leb 8192 r && leb r 8202)
    || r == 8232
    || r == 8233
    || r == 8239
    || r == 8287
    || r == 12288

abbrev pub trim_left : Bytes → Bytes
trim_left [] = []
trim_left (r ∷ rs) = if is_space r then trim_left rs else r ∷ rs

-- strings.TrimSpace
abbrev pub trim_space : Bytes → Bytes
trim_space rs = reverse (trim_left (reverse (trim_left rs)))

-- strings.ReplaceAll(…, " ", "")
abbrev pub without_spaces : Bytes → Bytes
without_spaces rs = select (λ r. not (r == 32)) rs

abbrev pub number_of : CreateTokenRequest → Bytes
number_of req = without_spaces (trim_space req.number)

-- 4000000000000002 and 4000000000000069
abbrev pub declined_card : Bytes
declined_card = 52 ∷ 48 ∷ 48 ∷ 48 ∷ 48 ∷ 48 ∷ 48 ∷ 48 ∷ 48 ∷ 48 ∷ 48 ∷ 48 ∷ 48 ∷ 48 ∷ 48 ∷ 50 ∷ []

abbrev pub timeout_card : Bytes
timeout_card = 52 ∷ 48 ∷ 48 ∷ 48 ∷ 48 ∷ 48 ∷ 48 ∷ 48 ∷ 48 ∷ 48 ∷ 48 ∷ 48 ∷ 48 ∷ 48 ∷ 54 ∷ 57 ∷ []

unfoldable pub magic_token_for_card : Bytes → MagicToken
magic_token_for_card number =
    if bytes_eq number declined_card
    then tok_declined
    else if bytes_eq number timeout_card
    then tok_timeout
    else tok_ok

-- By the first digit; the code never calls it with an empty number.
unfoldable pub card_brand : Bytes → Brand
card_brand [] = card
card_brand (c ∷ cs) =
    if c == 52 then visa else if c == 53 then mastercard else if c == 51 then amex else card

-- number[len(number)-4:]
abbrev pub last_four : Bytes → Bytes
last_four number = drop (length number - 4) number

abbrev pub number_bad : Bytes → Bool
number_bad number =
    not (digits_only number)
    || ltb (length number) 13
    || ltb 19 (length number)
    || not (luhn_valid number)

abbrev pub month_bad : ℤ → Bool
month_bad m = ltb_ℤ m (pos 1) || ltb_ℤ (pos 12) m

abbrev pub year_bad : ℤ → Bool
year_bad y = ltb_ℤ y (pos 2000) || ltb_ℤ (pos 2100) y

-- The length in bytes; it is that in code points wherever the last test passes.
abbrev pub cvc_bad : Bytes → Bool
cvc_bad cvc = ltb (length cvc) 3 || ltb 4 (length cvc) || not (digits_only cvc)

pub data Tokenized : Type 0 where
  token : Token → Tokenized
  refused : ApiError → Tokenized

abbrev pub refuse : String → String → Tokenized
refuse code param = refused (respond_error 400 invalid_request_error code param)

abbrev pub token_of : CreateTokenRequest → Bytes → Token
token_of req number = record {
  id = magic_token_for_card number;
  brand = card_brand number;
  last4 = last_four number;
  exp_month = req.exp_month;
  exp_year = req.exp_year;
}

-- The switch, over the number without spaces.
abbrev pub check_card : CreateTokenRequest → Bytes → Tokenized
check_card req number =
    if number_bad number
    then refuse "invalid_card_number" "number"
    else if month_bad req.exp_month
    then refuse "invalid_expiry" "exp_month"
    else if year_bad req.exp_year
    then refuse "invalid_expiry" "exp_year"
    else if cvc_bad req.cvc
    then refuse "invalid_cvc" "cvc"
    else token (token_of req number)

-- `create`, of what ShouldBindJSON gives.
unfoldable pub create_token : Option CreateTokenRequest → Tokenized
create_token none = refuse "invalid_body" ""
create_token (some req) = check_card req (number_of req)
