-- ===== src/Service/Create/Outcome.antt =====
-- What a creation promises, stated apart from the checks of `Intents.Create` and `normalizeCurrency`
-- (nem_pay/api/internal/service/payment_intent.go).
use monorepo_payment.Base.{
  ℕ, suc, zero, ◌-◌, ◌≤◌, ◌≡◌, ◌≢◌, refl, sym, ◌∙◌, ap, Bool, true, false, Option, none, some, [],
  ◌∷◌, ◌++◌, Bytes, leb, ◌&&◌, if◌then◌else◌, ◌⊎◌, inl, inr, arith, find?, ◌==◌,
}
use monorepo_payment.Base.Int.{ℤ, pos, negsuc, leb_ℤ, pos_part}
use monorepo_payment.StateMachine.{direct, escrow, created}
use monorepo_payment.Errors.{
  Error, db_failure, foreign_key_violation, invalid_amount, invalid_currency, payee_required,
  invalid_fee,
}
use monorepo_payment.Db.{Uuid, PaymentIntent, Merchant, Database}
use monorepo_payment.Db.Exec.{Env, HasFault}
use monorepo_payment.Service.Valid.{IsValid}
use monorepo_payment.Service.Create.{
  CreateInput, upper_letter, cons_letter, upper_letters, normalize_currency, payee_ok, fee_ok,
}
use monorepo_payment.Service.Create.Validation.{Rejects, amount, currency, payee, fee}

-- `u` is the upper-case letter of the ASCII letter `b`.
pub data Upper (b u : ℕ) : Type 0 where
  lower_case : 97 ≤ b → b ≤ 122 → u ≡ b - 32 → Upper b u
  upper_case : 65 ≤ b → b ≤ 90 → u ≡ b → Upper b u

-- Three letters, and the code that is stored for them.
pub record CurrencyOf (raw code : Bytes) : Type 0 where
  pub a : ℕ
  pub b : ℕ
  pub c : ℕ
  pub u : ℕ
  pub v : ℕ
  pub w : ℕ
  pub letters : raw ≡ a ∷ b ∷ c ∷ []
  pub stored : code ≡ u ∷ v ∷ w ∷ []
  pub uppers : Upper a u × Upper b v × Upper c w

-- What an escrow intent records of its input.
pub record EscrowTerms (i : CreateInput) (new : PaymentIntent) : Type 0 where
  pub mode : new.settlement_mode ≡ escrow
  pub payee : Uuid
  pub given_payee : i.payee ≡ some payee
  pub not_nil : payee ≢ 0
  pub payee_recorded : new.payee_id ≡ some payee
  pub fee : ℕ
  pub given_fee : i.application_fee ≡ some (pos fee)
  pub fee_within : fee ≤ new.amount
  pub fee_recorded : new.application_fee ≡ some (pos fee)

-- Why a creation is refused.
pub data CreateRefused (env : Env) (db : Database) (m : Uuid) (i : CreateInput)
    : Error → Type 0 where
  fault : HasFault env → CreateRefused env db m i db_failure
  unknown_merchant :
      find? (λ x. x.id == m) db.merchants ≡ none → CreateRefused env db m i foreign_key_violation
  bad_amount : leb_ℤ i.amount (pos 0) ≡ true → CreateRefused env db m i invalid_amount
  bad_currency :
      ((code : Bytes) → ¬ CurrencyOf i.currency code) → CreateRefused env db m i invalid_currency
  bad_payee :
      i.is_escrow ≡ true
      → (i.payee ≡ none) ⊎ (i.payee ≡ some 0)
      → CreateRefused env db m i payee_required
  bad_fee :
      i.is_escrow ≡ true
      → ((n : ℕ) → n ≤ pos_part i.amount → i.application_fee ≢ some (pos n))
      → CreateRefused env db m i invalid_fee

-- What an accepted creation has done: each column of the new row, and the tables.
pub record Created (now : ℕ) (m : Uuid) (i : CreateInput) (old : Database) (new : PaymentIntent)
    (db : Database) : Type 0 where
  pub owner : Merchant
  pub owned : find? (λ x. x.id == m) old.merchants ≡ some owner
  pub merchant : new.merchant_id ≡ m
  pub status : new.status ≡ created
  pub positive : new.amount ≢ 0
  pub amount : i.amount ≡ pos new.amount
  pub currency : CurrencyOf i.currency new.currency
  pub metadata :
      ((i.metadata ≡ []) × (new.metadata ≡ b'{' ∷ b'}' ∷ []))
      ⊎ ((i.metadata ≢ []) × (new.metadata ≡ i.metadata))
  pub as_direct :
      i.is_escrow ≡ false
      → (new.settlement_mode ≡ direct) × (new.payee_id ≡ none) × (new.application_fee ≡ none)
  pub as_escrow : i.is_escrow ≡ true → EscrowTerms i new
  pub created_at : new.created_at ≡ now
  pub updated_at : new.updated_at ≡ now
  pub added : db ≡ record old { intents = old.intents ++ new ∷ [] }
  pub valid : IsValid db

upper_letter-Upper : (b u : ℕ) → upper_letter b ≡ some u → Upper b u
upper_letter-Upper b u h = go (leb 97 b && leb b 122) (leb 65 b && leb b 90) refl refl h
  where
    go :
        (p q : Bool)
        → (leb 97 b && leb b 122) ≡ p
        → (leb 65 b && leb b 90) ≡ q
        → (if p then some (b - 32) else if q then some b else none) ≡ some u
        → Upper b u
    go true q e f h = lower_case (ground (arith, e)) (ground (arith, e)) (ground arith)
    go false true e f h = upper_case (ground (arith, f)) (ground (arith, f)) (ground arith)
    go false false e f h = absurd (ground arith)

Upper-upper_letter : (b u : ℕ) → Upper b u → upper_letter b ≡ some u
Upper-upper_letter b u (lower_case lo hi e) = ground (arith, e)
Upper-upper_letter b u (upper_case lo hi e) = ground (arith, e)

letters_split :
    (x : Option ℕ) (xs : Option Bytes) (out : Bytes)
    → cons_letter x xs ≡ some out
    → (u : ℕ) × (us : Bytes) × (x ≡ some u) × (xs ≡ some us) × (out ≡ u ∷ us)
letters_split none none out h = absurd (ground arith)
letters_split none (some us) out h = absurd (ground arith)
letters_split (some u) none out h = absurd (ground arith)
letters_split (some u) (some us) out h = (u, us, refl, refl, ground arith)

pub normalize-CurrencyOf :
    (raw code : Bytes) → normalize_currency raw ≡ some code → CurrencyOf raw code
unfolding normalize_currency
normalize-CurrencyOf [] code h = absurd (ground arith)
normalize-CurrencyOf (a ∷ []) code h = absurd (ground arith)
normalize-CurrencyOf (a ∷ b ∷ []) code h = absurd (ground arith)
normalize-CurrencyOf (a ∷ b ∷ c ∷ []) code h =
    let (u, us, eu, eus, e₁) = letters_split (upper_letter a) (upper_letters (b ∷ c ∷ [])) code h in
    let (v, vs, ev, evs, e₂) = letters_split (upper_letter b) (upper_letters (c ∷ [])) us eus in
    let (w, ws, ew, ews, e₃) = letters_split (upper_letter c) (some []) vs evs in
    record {
      a = a;
      b = b;
      c = c;
      u = u;
      v = v;
      w = w;
      letters = refl;
      stored = ground (arith, e₁, e₂, e₃, ews);
      uppers = (upper_letter-Upper a u eu, upper_letter-Upper b v ev, upper_letter-Upper c w ew);
    }
normalize-CurrencyOf (a ∷ b ∷ c ∷ d ∷ rest) code h = absurd (ground arith)

CurrencyOf-normalize : (raw code : Bytes) → CurrencyOf raw code → normalize_currency raw ≡ some code
unfolding normalize_currency
CurrencyOf-normalize raw code o =
    ap normalize_currency o.letters
    ∙ ap (λ x. cons_letter x (upper_letters (o.b ∷ o.c ∷ [])))
        (Upper-upper_letter o.a o.u o.uppers.0)
    ∙ ap (λ x. cons_letter (some o.u) (cons_letter x (upper_letters (o.c ∷ []))))
        (Upper-upper_letter o.b o.v o.uppers.1)
    ∙ ap (λ x. cons_letter (some o.u) (cons_letter (some o.v) (cons_letter x (some []))))
        (Upper-upper_letter o.c o.w o.uppers.2)
    ∙ ap some (sym o.stored)

no_payee : (o : Option Uuid) → payee_ok o ≡ false → (o ≡ none) ⊎ (o ≡ some 0)
no_payee none h = inl refl
no_payee (some zero) h = inr refl
no_payee (some (suc n)) h = absurd (ground arith)

no_fee :
    (x : ℤ) (o : Option ℤ)
    → leb_ℤ x (pos 0) ≡ false
    → fee_ok x o ≡ false
    → (n : ℕ) → n ≤ pos_part x
    → o ≢ some (pos n)
no_fee (pos a) none p h n within e = ground arith
no_fee (pos a) (some (pos f)) p h n within e = ground arith
no_fee (pos a) (some (negsuc f)) p h n within e = ground arith
no_fee (negsuc a) o p h n within e = absurd (ground arith)

pub Rejects-CreateRefused :
    (env : Env) (db : Database) (m : Uuid) (i : CreateInput) (e : Error)
    → Rejects i e
    → CreateRefused env db m i e
Rejects-CreateRefused env db m i _ (amount h) = bad_amount h
Rejects-CreateRefused env db m i _ (currency h) =
    bad_currency λ code o. ground (arith, h, CurrencyOf-normalize i.currency code o)
Rejects-CreateRefused env db m i _ (payee e h) = bad_payee e (no_payee i.payee h)
Rejects-CreateRefused env db m i _ (fee e p h) = bad_fee e (no_fee i.amount i.application_fee p h)
