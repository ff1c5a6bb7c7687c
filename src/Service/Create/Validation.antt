-- ===== src/Service/Create/Validation.antt =====
-- What `Intents.Create` (nem_pay/api/internal/service/payment_intent.go) lets into the table.
use monorepo_payment.Base.{
  suc, zero, ◌≢◌, ℕ, ◌≤◌, ◌≡◌, refl, Bool, true, false, Option, none, some, Bytes, arith,
  if◌then◌else◌,
}
use monorepo_payment.Base.Int.{ℤ, pos, negsuc, leb_ℤ, pos_part}
use monorepo_payment.Errors.{
  Error, Result, ok, err, invalid_amount, invalid_currency, payee_required, invalid_fee,
}
use monorepo_payment.Db.{Uuid}
use monorepo_payment.Db.Intents.{CreateIntentParams}
use monorepo_payment.Service.Create.{
  CreateInput, normalize_currency, payee_ok, fee_ok, params_of, check_input,
}

-- Why an input is refused: the first check that fails.
pub data Rejects (i : CreateInput) : Error → Type 0 where
  amount : leb_ℤ i.amount (pos 0) ≡ true → Rejects i invalid_amount
  currency : normalize_currency i.currency ≡ none → Rejects i invalid_currency
  payee : i.is_escrow ≡ true → payee_ok i.payee ≡ false → Rejects i payee_required
  fee :
      i.is_escrow ≡ true
      → leb_ℤ i.amount (pos 0) ≡ false
      → fee_ok i.amount i.application_fee ≡ false
      → Rejects i invalid_fee

-- What an accepted input has.
pub record Accepts (m : Uuid) (i : CreateInput) (params : CreateIntentParams) : Type 0 where
  pub positive : leb_ℤ i.amount (pos 0) ≡ false
  pub currency : normalize_currency i.currency ≡ some params.currency
  pub payee : i.is_escrow ≡ true → payee_ok i.payee ≡ true
  pub fee : i.is_escrow ≡ true → fee_ok i.amount i.application_fee ≡ true
  pub same : params ≡ params_of m i params.currency

abbrev pub Checked : Uuid → CreateInput → Result CreateIntentParams → Type 0
Checked m i (ok params) = Accepts m i params
Checked m i (err e) = Rejects i e

escrow-Checked :
    (m : Uuid) (i : CreateInput) (c : Bytes) (e p f : Bool)
    → leb_ℤ i.amount (pos 0) ≡ false
    → normalize_currency i.currency ≡ some c
    → i.is_escrow ≡ e
    → payee_ok i.payee ≡ p
    → fee_ok i.amount i.application_fee ≡ f
    → Checked m i (
        if e
        then (if p then if f then ok (params_of m i c) else err invalid_fee else err payee_required)
        else ok (params_of m i c))
escrow-Checked m i c false p f a n e_e p_e f_e = record {
  positive = a;
  currency = n;
  payee = λ t. absurd (ground arith);
  fee = λ t. absurd (ground arith);
  same = refl;
}
escrow-Checked m i c true false f a n e_e p_e f_e = payee e_e p_e
escrow-Checked m i c true true false a n e_e p_e f_e = fee e_e a f_e
escrow-Checked m i c true true true a n e_e p_e f_e = record {
  positive = a;
  currency = n;
  payee = λ t. p_e;
  fee = λ t. f_e;
  same = refl;
}

pub check_input-Checked :
    (m : Uuid) (i : CreateInput) (o : Option Bytes)
    → normalize_currency i.currency ≡ o
    → Checked m i (check_input m i o)
unfolding check_input
check_input-Checked m i none n = go (leb_ℤ i.amount (pos 0)) refl
  where
    go :
        (b : Bool)
        → leb_ℤ i.amount (pos 0) ≡ b
        → Checked m i (if b then err invalid_amount else err invalid_currency)
    go true e = amount e
    go false e = currency n
check_input-Checked m i (some c) n = go (leb_ℤ i.amount (pos 0)) refl
  where
    rest : Result CreateIntentParams
    rest =
        if i.is_escrow
        then (if payee_ok i.payee
            then if fee_ok i.amount i.application_fee then ok (params_of m i c) else err invalid_fee
            else err payee_required)
        else ok (params_of m i c)

    go :
        (b : Bool)
        → leb_ℤ i.amount (pos 0) ≡ b
        → Checked m i (if b then err invalid_amount else rest)
    go true e = amount e
    go false e =
        escrow-Checked m i c i.is_escrow (payee_ok i.payee) (fee_ok i.amount i.application_fee) e n
          refl refl refl

pub has_payee : (o : Option Uuid) → payee_ok o ≡ true → (p : Uuid) × (o ≡ some p) × (p ≢ 0)
has_payee none h = absurd (ground arith)
has_payee (some zero) h = absurd (ground arith)
has_payee (some (suc n)) h = (suc n, refl, λ e. absurd (omega (arith, e)))

pub has_fee :
    (x : ℤ) (o : Option ℤ)
    → fee_ok x o ≡ true
    → (fee : ℕ) × (o ≡ some (pos fee)) × (fee ≤ pos_part x)
has_fee x none h = absurd (ground arith)
has_fee x (some (pos n)) h = (n, refl, ground arith)
has_fee x (some (negsuc n)) h = absurd (ground arith)
