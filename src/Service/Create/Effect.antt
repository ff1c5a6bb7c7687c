-- ===== src/Service/Create/Effect.antt =====
-- What `Intents.Create` (nem_pay/api/internal/service/payment_intent.go) does to the tables.
use monorepo_payment.Base.{
  ◌≢◌, Bytes, Option, some, ◌⊎◌, inl, inr, find?, ◌==◌, ◌<◌, ◌≡◌, refl, sym, ◌∙◌, ap, subst, Bool,
  true, false, none, List, [], ◌∷◌, ◌++◌, arith, if◌then◌else◌, All, Distinct-add, map,
}
use monorepo_payment.Base.Int.{ℤ, pos, negsuc, leb_ℤ, ltb_ℤ, pos_part, two63}
use monorepo_payment.StateMachine.{direct, escrow}
use monorepo_payment.Errors.{Result, ok, err, check_violation}
use monorepo_payment.Db.{Uuid, PaymentIntent, Merchant, Database}
use monorepo_payment.Db.Exec.{Env, Session, Atomic, Answers, Atomic-stmt}
use monorepo_payment.Db.Intents.{
  CreateIntentParams, new_intent, referenced, add_intent, create_intent,
}
use monorepo_payment.Service.Valid.{IntentOk, IsValid}
use monorepo_payment.Service.Create.{
  CreateInput, metadata_of, normalize_currency, params_of, check_input, insert_checked, create,
}
use monorepo_payment.Service.Create.Outcome.{
  EscrowTerms, CreateRefused, fault, unknown_merchant, Created, normalize-CurrencyOf,
  Rejects-CreateRefused,
}
use monorepo_payment.Service.Create.Validation.{
  Accepts, Checked, check_input-Checked, has_payee, has_fee,
}

All-add :
    {A : Type 0} (P : A → Type 0) (xs : List A) (a : A) → All P xs → P a → All P (xs ++ a ∷ [])
All-add P [] a h p = (p, tt)
All-add P (x ∷ xs) a (q, h) p = (q, All-add P xs a h p)

positive_amount :
    (x : ℤ)
    → leb_ℤ x (pos 0) ≡ false
    → (0 < pos_part x) × (x ≡ pos (pos_part x)) × (ltb_ℤ (pos 0) x ≡ true)
positive_amount (pos n) h = (ground arith, refl, ground arith)
positive_amount (negsuc n) h = absurd (ground arith)

metadata_cases :
    (raw : Bytes)
    → ((raw ≡ []) × (metadata_of raw ≡ b'{' ∷ b'}' ∷ [])) ⊎ ((raw ≢ []) × (metadata_of raw ≡ raw))
metadata_cases [] = inl (refl, refl)
metadata_cases (b ∷ raw) = inr (λ e. ground arith, refl)

escrow_only : (b : Bool) → (if b then escrow else direct) ≡ escrow → b ≡ true
escrow_only true h = refl
escrow_only false h = absurd (ground arith)

module _ (env : Env) (m : Uuid) (i : CreateInput) (params : CreateIntentParams)
    (ok_i : Accepts m i params) (old : Database) where
  row_IntentOk :
      pos_part i.amount < two63 → IntentOk (new_intent (params_of m i params.currency) env old)
  row_IntentOk in_range = record {
    positive = (positive_amount i.amount ok_i.positive).0;
    in_range = in_range;
    fee = λ e.
        let is_escrow = escrow_only i.is_escrow e in
        let (fee, recorded, within) = has_fee i.amount i.application_fee (ok_i.fee is_escrow) in
        (fee, ap (λ b. if b then i.application_fee else none) is_escrow ∙ recorded, within);
    payee = λ e.
        let is_escrow = escrow_only i.is_escrow e in
        let (payee, recorded, _) = has_payee i.payee (ok_i.payee is_escrow) in
        (payee, ap (λ b. if b then i.payee else none) is_escrow ∙ recorded);
  }

  abbrev row : PaymentIntent
  row = new_intent (params_of m i params.currency) env old

  row_escrow : i.is_escrow ≡ true → EscrowTerms i row
  row_escrow is_escrow =
      let (payee, given, not_nil) = has_payee i.payee (ok_i.payee is_escrow) in
      let (fee, recorded, within) = has_fee i.amount i.application_fee (ok_i.fee is_escrow) in
      record {
        mode = ap (λ b. if b then escrow else direct) is_escrow;
        payee = payee;
        given_payee = given;
        not_nil = not_nil;
        payee_recorded = ap (λ b. if b then i.payee else none) is_escrow ∙ given;
        fee = fee;
        given_fee = recorded;
        fee_within = within;
        fee_recorded = ap (λ b. if b then i.application_fee else none) is_escrow ∙ recorded;
      }

  row_Created :
      pos_part i.amount < two63
      → IsValid old
      → (owner : Merchant) → find? (λ x. x.id == m) old.merchants ≡ some owner
      → Created env.now m i old row (record old { intents = old.intents ++ row ∷ [] })
  row_Created in_range v owner owned =
      let (positive, amount, _) = positive_amount i.amount ok_i.positive in
      record {
        owner = owner;
        owned = owned;
        merchant = refl;
        status = refl;
        positive = λ e. omega (arith, e, positive);
        amount = amount;
        currency = normalize-CurrencyOf i.currency params.currency ok_i.currency;
        metadata = metadata_cases i.metadata;
        as_direct = λ e. (
          ap (λ b. if b then escrow else direct) e,
          ap (λ b. if b then i.payee else none) e,
          ap (λ b. if b then i.application_fee else none) e,
        );
        as_escrow = row_escrow;
        created_at = refl;
        updated_at = refl;
        added = refl;
        valid = record {
          distinct_intents =
              Distinct-add (λ x. x.id) old.intents row v.distinct_intents
                (env.gen_new (map (λ x. x.id) old.intents));
          distinct_accounts = v.distinct_accounts;
          intents_ok = All-add IntentOk old.intents row v.intents_ok (row_IntentOk in_range);
        };
      }

  add_intent-Answers :
      pos_part i.amount < two63
      → IsValid old
      → Answers (Created env.now m i old) (CreateRefused env old m i) (add_intent params env old)
  add_intent-Answers in_range v =
      subst
        (λ p. Answers (Created env.now m i old) (CreateRefused env old m i) (add_intent p env old))
        (sym ok_i.same)
        (subst
          (λ b. Answers (Created env.now m i old) (CreateRefused env old m i) (
            if b
            then referenced (find? (λ x. x.id == m) old.merchants) inserted
            else err check_violation))
          (sym (positive_amount i.amount ok_i.positive).2)
          (go (find? (λ x. x.id == m) old.merchants) refl))
    where
      inserted : Result (PaymentIntent × Database)
      inserted = ok (row, record old { intents = old.intents ++ row ∷ [] })

      go :
          (o : Option Merchant)
          → find? (λ x. x.id == m) old.merchants ≡ o
          → Answers (Created env.now m i old) (CreateRefused env old m i) (referenced o inserted)
      go none e = unknown_merchant e
      go (some owner) e = row_Created in_range v owner e

insert_checked-Atomic :
    (env : Env) (m : Uuid) (i : CreateInput) (s : Session) (r : Result CreateIntentParams)
    → pos_part i.amount < two63
    → IsValid s.db
    → Checked m i r
    → Atomic (Created env.now m i s.db) (CreateRefused env s.db m i) s.db (insert_checked r env s)
unfolding create_intent
insert_checked-Atomic env m i s (ok params) in_range v a =
    Atomic-stmt env (CreateRefused env s.db m i) fault (Created env.now m i s.db)
      (add_intent params) s (add_intent-Answers env m i params a s.db in_range v)
insert_checked-Atomic env m i s (err e) in_range v r =
    (Rejects-CreateRefused env s.db m i e r, refl)

pub create-Atomic :
    (env : Env) (m : Uuid) (i : CreateInput) (s : Session)
    → pos_part i.amount < two63
    → IsValid s.db
    → Atomic (Created env.now m i s.db) (CreateRefused env s.db m i) s.db (create m i env s)
unfolding create
create-Atomic env m i s in_range v =
    insert_checked-Atomic env m i s (check_input m i (normalize_currency i.currency)) in_range v
      (check_input-Checked m i (normalize_currency i.currency) refl)
