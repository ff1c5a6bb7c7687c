-- ===== src/Service/Create.antt =====
-- `Intents.Create`, `normalizeCurrency`, `Intents.Get` and `Intents.List` of
-- nem_pay/api/internal/service/payment_intent.go.
pub mod Validation
pub mod Outcome
pub mod Effect
use monorepo_payment.Base.{
  ℕ, zero, suc, ◌-◌, Bool, true, false, ◌&&◌, ◌||◌, Option, none, some, List, [], ◌∷◌, Bytes, leb,
  ltb, ◌==◌, if◌then◌else◌,
}
use monorepo_payment.Base.Int.{ℤ, pos, negsuc, leb_ℤ, ltb_ℤ, pos_part}
use monorepo_payment.StateMachine.{Mode, direct, escrow, Status}
use monorepo_payment.Errors.{
  Error, Result, ok, err, invalid_amount, invalid_currency, payee_required, invalid_fee,
}
use monorepo_payment.Db.{Uuid, PaymentIntent}
use monorepo_payment.Db.Exec.{Exec, raise, pure, ◌>>=◌}
use monorepo_payment.Db.Intents.{CreateIntentParams, create_intent, get_intent, list_intents}
use monorepo_payment.Service.{or_not_found}

pub record CreateInput : Type 0 where
  pub amount : ℤ
  pub currency : Bytes
  pub metadata : Bytes
  pub is_escrow : Bool
  pub payee : Option Uuid
  pub application_fee : Option ℤ

-- A lower-case letter is turned into its upper-case one, an upper-case one stays, and nothing else is
-- accepted.
abbrev pub upper_letter : ℕ → Option ℕ
upper_letter b =
    if leb 97 b && leb b 122 then some (b - 32) else if leb 65 b && leb b 90 then some b else none

abbrev pub cons_letter : Option ℕ → Option Bytes → Option Bytes
cons_letter (some b) (some bs) = some (b ∷ bs)
cons_letter _ _ = none

abbrev pub upper_letters : Bytes → Option Bytes
upper_letters [] = some []
upper_letters (b ∷ bs) = cons_letter (upper_letter b) (upper_letters bs)

-- `normalizeCurrency`: exactly three bytes, each of them a letter.
unfoldable pub normalize_currency : Bytes → Option Bytes
normalize_currency (a ∷ b ∷ c ∷ []) = upper_letters (a ∷ b ∷ c ∷ [])
normalize_currency _ = none

-- An absent metadata object is stored as {}.
abbrev pub metadata_of : Bytes → Bytes
metadata_of [] = 123 ∷ 125 ∷ []
metadata_of (b ∷ bs) = b ∷ bs

-- The payee and the fee of an escrow intent: uuid.Nil is 0.
abbrev pub payee_ok : Option Uuid → Bool
payee_ok none = false
payee_ok (some zero) = false
payee_ok (some (suc n)) = true

abbrev pub fee_ok : ℤ → Option ℤ → Bool
fee_ok amount none = false
fee_ok amount (some fee) = leb_ℤ (pos 0) fee && leb_ℤ fee amount

abbrev pub params_of : Uuid → CreateInput → Bytes → CreateIntentParams
params_of merchant_id i currency = record {
  merchant_id = merchant_id;
  amount = i.amount;
  currency = currency;
  settlement_mode = if i.is_escrow then escrow else direct;
  payee_id = if i.is_escrow then i.payee else none;
  application_fee = if i.is_escrow then i.application_fee else none;
  metadata = metadata_of i.metadata;
}

-- The checks of `Create`, in the order of the code.
unfoldable pub check_input : Uuid → CreateInput → Option Bytes → Result CreateIntentParams
check_input merchant_id i none =
    if leb_ℤ i.amount (pos 0) then err invalid_amount else err invalid_currency
check_input merchant_id i (some currency) =
    if leb_ℤ i.amount (pos 0)
    then err invalid_amount
    else if i.is_escrow
    then (if payee_ok i.payee
        then if fee_ok i.amount i.application_fee
          then ok (params_of merchant_id i currency)
          else err invalid_fee
        else err payee_required)
    else ok (params_of merchant_id i currency)

abbrev pub insert_checked : Result CreateIntentParams → Exec PaymentIntent
insert_checked (ok params) = create_intent params
insert_checked (err e) = raise e

unfoldable pub create : Uuid → CreateInput → Exec PaymentIntent
create merchant_id i = insert_checked (check_input merchant_id i (normalize_currency i.currency))

-- `Intents.Get`.
unfoldable pub get : Uuid → Uuid → Exec PaymentIntent
get id merchant_id env s = let (r, s') = get_intent id merchant_id env s in (or_not_found r, s')

-- The page size, and the offset.
abbrev pub clamp_limit : ℤ → ℕ
clamp_limit limit =
    if leb_ℤ limit (pos 0) then 20 else if ltb_ℤ (pos 100) limit then 100 else pos_part limit

-- `Intents.List`, with the empty status as no filter.
unfoldable pub list : Uuid → Option Status → ℤ → ℤ → Exec (List PaymentIntent)
list merchant_id status limit offset =
    list_intents merchant_id status (clamp_limit limit) (pos_part offset)
