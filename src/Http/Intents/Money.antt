-- ===== src/Http/Intents/Money.antt =====
-- What a money request does to the tables, by its answer
-- (nem_pay/api/internal/httpapi/payment_intents.go over nem_pay/api/internal/service).
use monorepo_payment.Http.Intents.{
  missing_token, map_money_error, map_create_error, CreateRequest, IntentResponse,
  to_intent_response, Response, success, failure, Codec, answer_with, Serve, reject, input_of,
  create_with, create_bound, create_intent, with_id, confirm_bound, confirm_intent, capture_intent,
  release_intent, refund_bound, refund_intent, Route, to_create, to_confirm, to_capture, to_refund,
  to_release, serve,
}
use monorepo_payment.Base.{
  ◌≤◌, arith, ◌≡◌, refl, Bool, true, false, Option, none, some, Bytes, if◌then◌else◌,
}
use Prim.Native.String.{String}
use text.Mathlib.Text.{◌==◌}
use monorepo_payment.Base.Int.{ℤ}
use monorepo_payment.Errors.{
  Error, Result, ok, err, invalid_amount, invalid_currency, payee_required, invalid_fee,
  intent_not_found, invalid_state, refund_exceeds_capture, partial_refund_before_settle,
  partial_escrow_refund, bank_declined, bank_unavailable,
}
use monorepo_payment.Db.{Uuid, PaymentIntent, Database}
use monorepo_payment.Db.Exec.{Env, Session, Atomic}
use monorepo_payment.Bank.{Client}
use monorepo_payment.Service.Valid.{IsValid}
use monorepo_payment.Service.Create.Outcome.{Created, CreateRefused}
use monorepo_payment.Service.Create.Effect.{create-Atomic}
use monorepo_payment.Service.Confirm.{confirm, Confirmed, ConfirmRefused}
use monorepo_payment.Service.Confirm.Effect.{confirm-Atomic}
use monorepo_payment.Service.Capture.{Captured, CaptureRefused}
use monorepo_payment.Service.Capture.Effect.{capture-Atomic}
use monorepo_payment.Service.Refund.{Refunded, RefundRefused}
use monorepo_payment.Service.Refund.Atomic.{Amounts, refund-Atomic}
use monorepo_payment.Service.Release.{Released, ReleaseRefused}
use monorepo_payment.Service.Release.Effect.{release-Atomic}
use monorepo_payment.Http.{ApiError}

-- What a request that is answered 200 has done.
pub data Done (codec : Codec) (bank : Client) (env : Env) (m : Uuid) (body : Bytes) (old : Database)
    : Route → PaymentIntent → Database → Type 0 where
  created :
      {pi : PaymentIntent} {db : Database} (req : CreateRequest) (payee : Option Uuid)
      → codec.create_request body ≡ some req
      → payee ≡ (if req.escrow then codec.parse_uuid req.payee else none)
      → Created env.now m (input_of req payee) old pi db
      → Done codec bank env m body old to_create pi db
  confirmed :
      {pi : PaymentIntent} {db : Database} {raw : Bytes} (id : Uuid) (token : String)
      → codec.parse_uuid raw ≡ some id
      → codec.confirm_token body ≡ some token
      → Confirmed env.now bank id m token old pi db
      → Done codec bank env m body old (to_confirm raw) pi db
  captured :
      {pi : PaymentIntent} {db : Database} {raw : Bytes} (id : Uuid)
      → codec.parse_uuid raw ≡ some id
      → Captured env.now bank id m old pi db
      → Done codec bank env m body old (to_capture raw) pi db
  refunded :
      {pi : PaymentIntent} {db : Database} {raw : Bytes} (id : Uuid) (amount : ℤ)
      → codec.parse_uuid raw ≡ some id
      → codec.refund_amount body ≡ some amount
      → Amounts amount (λ n. Refunded env.now id m n old pi db)
      → Done codec bank env m body old (to_refund raw) pi db
  released :
      {pi : PaymentIntent} {db : Database} {raw : Bytes} (id : Uuid)
      → codec.parse_uuid raw ≡ some id
      → Released env.now id m old pi db
      → Done codec bank env m body old (to_release raw) pi db

-- What an answer says of the tables.
abbrev pub Served :
    (PaymentIntent → Database → Type 0) → Database → Response IntentResponse × Session → Type 0
Served P old (success v, s) = (pi : PaymentIntent) × (v ≡ to_intent_response pi) × P pi s.db
Served P old (failure e, s) = (400 ≤ e.status) × (s.db ≡ old)

create_error-status : (e : Error) → 400 ≤ (map_create_error e).status
unfolding map_create_error
create_error-status invalid_amount = omega arith
create_error-status invalid_currency = omega arith
create_error-status payee_required = omega arith
create_error-status invalid_fee = omega arith
create_error-status _ = omega arith

money_error-status : (e : Error) → 400 ≤ (map_money_error e).status
unfolding map_money_error
money_error-status intent_not_found = omega arith
money_error-status invalid_state = omega arith
money_error-status refund_exceeds_capture = omega arith
money_error-status partial_refund_before_settle = omega arith
money_error-status partial_escrow_refund = omega arith
money_error-status invalid_amount = omega arith
money_error-status bank_declined = omega arith
money_error-status bank_unavailable = omega arith
money_error-status _ = omega arith

answer_with-Served :
    (P Q : PaymentIntent → Database → Type 0) (E : Error → Type 0) (old : Database)
    (on_error : Error → ApiError) (r : Result PaymentIntent × Session)
    → ((e : Error) → 400 ≤ (on_error e).status)
    → ((pi : PaymentIntent) (db : Database) → Q pi db → P pi db)
    → Atomic Q E old r
    → Served P old (answer_with on_error r)
answer_with-Served P Q E old on_error (ok pi, s) bad f h = (pi, refl, f pi s.db h)
answer_with-Served P Q E old on_error (err e, s) bad f h = (bad e, h.1)

-- A handler that needs the id of the path.
with_id-Served :
    (P : PaymentIntent → Database → Type 0) (o : Option Uuid) (k : Uuid → Serve IntentResponse)
    (env : Env) (s : Session)
    → ((id : Uuid) → o ≡ some id → Served P s.db (k id env s))
    → Served P s.db (with_id o k env s)
with_id-Served P none k env s h = (omega arith, refl)
with_id-Served P (some id) k env s h = h id refl

module _ (codec : Codec) (bank : Client) (env : Env) (s : Session) (valid : IsValid s.db) (m : Uuid)
    (body : Bytes) where
  abbrev By : Route → PaymentIntent → Database → Type 0
  By route = Done codec bank env m body s.db route

  create_with-Served :
      (req : CreateRequest)
      → codec.create_request body ≡ some req
      → (b : Bool) → req.escrow ≡ b
      → (payee : Option Uuid) → codec.parse_uuid req.payee ≡ payee
      → Served (By to_create) s.db (create_with m req b payee env s)
  create_with-Served req bound false is payee e =
      answer_with-Served (By to_create) (Created env.now m (input_of req none) s.db)
        (CreateRefused env s.db m (input_of req none)) s.db map_create_error _ create_error-status
        (λ pi db h. created req none bound (rw is refl) h)
        (create-Atomic env m (input_of req none) s (codec.in_range body req bound) valid)
  create_with-Served req bound true is none e = (omega arith, refl)
  create_with-Served req bound true is (some payee) e =
      answer_with-Served (By to_create) (Created env.now m (input_of req (some payee)) s.db)
        (CreateRefused env s.db m (input_of req (some payee))) s.db map_create_error _
        create_error-status (λ pi db h. created req (some payee) bound (rw (is, e) refl) h)
        (create-Atomic env m (input_of req (some payee)) s (codec.in_range body req bound) valid)

  create_bound-Served :
      (o : Option CreateRequest)
      → codec.create_request body ≡ o
      → Served (By to_create) s.db (create_bound codec m o env s)
  create_bound-Served none e = (omega arith, refl)
  create_bound-Served (some req) e =
      create_with-Served req e req.escrow refl (codec.parse_uuid req.payee) refl

  confirm_bound-Served :
      (raw : Bytes) (id : Uuid)
      → codec.parse_uuid raw ≡ some id
      → (o : Option String) → codec.confirm_token body ≡ o
      → Served (By (to_confirm raw)) s.db (confirm_bound bank m id o env s)
  confirm_bound-Served raw id parsed none e = (omega arith, refl)
  confirm_bound-Served raw id parsed (some token) e = go (token == "") (
      answer_with-Served (By (to_confirm raw)) (Confirmed env.now bank id m token s.db)
        (ConfirmRefused env bank s.db id m token) s.db map_money_error
        (confirm bank id m token env s) money_error-status
        (λ pi db h. confirmed id token parsed e h) (confirm-Atomic env bank id m token s valid))
    where
      go :
          (b : Bool)
          → Served
              (By (to_confirm raw))
              s.db
              (answer_with map_money_error (confirm bank id m token env s))
          → Served (By (to_confirm raw)) s.db (
              (if b then reject missing_token else λ env' s'.
              answer_with map_money_error (confirm bank id m token env' s'))
                env s)
      go true h = (omega arith, refl)
      go false h = h

  refund_bound-Served :
      (raw : Bytes) (id : Uuid)
      → codec.parse_uuid raw ≡ some id
      → (o : Option ℤ) → codec.refund_amount body ≡ o
      → Served (By (to_refund raw)) s.db (refund_bound m id o env s)
  refund_bound-Served raw id parsed none e = (omega arith, refl)
  refund_bound-Served raw id parsed (some amount) e =
      answer_with-Served (By (to_refund raw))
        (λ updated db. Amounts amount (λ n. Refunded env.now id m n s.db updated db))
        (RefundRefused env s.db id m amount) s.db map_money_error _ money_error-status
        (λ pi db h. refunded id amount parsed e h) (refund-Atomic env id m amount s valid)

  -- On valid tables a money request of an authenticated merchant is either answered with an error (400 or above)
  -- and leaves every table as it was, or answered 200 with the intent, and has then done what the service
  -- does for what the request says: the creation, confirmation, capture, refund or release.
  pub serve-Served :
      (route : Route) → Served (By route) s.db (serve codec bank route (some m) body env s)
  unfolding serve create_intent confirm_intent capture_intent refund_intent release_intent
  serve-Served to_create = create_bound-Served (codec.create_request body) refl
  serve-Served (to_confirm raw) =
      with_id-Served (By (to_confirm raw)) (codec.parse_uuid raw) _ env s
        λ id parsed. confirm_bound-Served raw id parsed (codec.confirm_token body) refl
  serve-Served (to_capture raw) =
      with_id-Served (By (to_capture raw)) (codec.parse_uuid raw) _ env s λ id parsed.
        answer_with-Served (By (to_capture raw)) (Captured env.now bank id m s.db)
          (CaptureRefused env bank s.db id m) s.db map_money_error _ money_error-status
          (λ pi db h. captured id parsed h) (capture-Atomic env bank id m s valid)
  serve-Served (to_refund raw) =
      with_id-Served (By (to_refund raw)) (codec.parse_uuid raw) _ env s
        λ id parsed. refund_bound-Served raw id parsed (codec.refund_amount body) refl
  serve-Served (to_release raw) =
      with_id-Served (By (to_release raw)) (codec.parse_uuid raw) _ env s λ id parsed.
        answer_with-Served (By (to_release raw)) (Released env.now id m s.db)
          (ReleaseRefused env s.db id m) s.db map_money_error _ money_error-status
          (λ pi db h. released id parsed h) (release-Atomic env id m s valid)
