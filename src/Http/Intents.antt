-- ===== src/Http/Intents.antt =====
-- The handlers of payment intents: nem_pay/api/internal/httpapi/payment_intents.go. JSON and the
-- parser of UUIDs are not the program's own: a `Codec` stands for them.
pub mod Money
pub mod Keyed
pub mod Tests
use Prim.Native.String.{String}
use text.Mathlib.Text.{◌==◌}
use monorepo_payment.Base.{
  ℕ, ◌<◌, ◌≡◌, Bool, true, false, Option, none, some, List, [], ◌∷◌, map, Bytes, if◌then◌else◌,
}
use monorepo_payment.Base.Int.{ℤ, pos_part, two63}
use monorepo_payment.StateMachine.{Mode, Status}
use monorepo_payment.Errors.{
  Error, Result, ok, err, invalid_amount, invalid_currency, intent_not_found, payee_required,
  invalid_fee, invalid_state, bank_unavailable, bank_declined, refund_exceeds_capture,
  partial_refund_before_settle, partial_escrow_refund,
}
use monorepo_payment.Db.{Uuid, PaymentIntent}
use monorepo_payment.Db.Exec.{Env, Session, Exec}
use monorepo_payment.Bank.{Client}
use monorepo_payment.Service.Create.{CreateInput, metadata_of, create, get, list}
use monorepo_payment.Service.Confirm.{confirm}
use monorepo_payment.Service.Capture.{capture}
use monorepo_payment.Service.Refund.{refund}
use monorepo_payment.Service.Release.{release}
use monorepo_payment.Http.{
  ErrorType, invalid_request_error, authentication_error, not_found_error, api_error, ApiError,
  respond_error,
}
use monorepo_payment.Http.Query.{atoi32}
use monorepo_payment.Http.Idempotency.{Outcome, written, Handler}

-- `createIntentRequest`; the amounts are of type int64.
pub record CreateRequest : Type 0 where
  pub amount : ℤ
  pub currency : Bytes
  pub metadata : Bytes
  pub escrow : Bool
  pub payee : Bytes
  pub application_fee : Option ℤ

-- `intentResponse`, less its constant `object`.
pub record IntentResponse : Type 0 where
  pub id : Uuid
  pub amount : ℕ
  pub currency : Bytes
  pub status : Status
  pub settlement_mode : Mode
  pub payee : Option Uuid
  pub application_fee : Option ℤ
  pub metadata : Bytes
  pub created_at : ℕ
  pub updated_at : ℕ

unfoldable pub to_intent_response : PaymentIntent → IntentResponse
to_intent_response pi = record {
  id = pi.id;
  amount = pi.amount;
  currency = pi.currency;
  status = pi.status;
  settlement_mode = pi.settlement_mode;
  payee = pi.payee_id;
  application_fee = pi.application_fee;
  metadata = metadata_of pi.metadata;
  created_at = pi.created_at;
  updated_at = pi.updated_at;
}

-- 200 with a value, or the error envelope.
pub data Response (A : Type 0) : Type 0 where
  success : A → Response A
  failure : ApiError → Response A

abbrev pub status_of : {A : Type 0} → Response A → ℕ
status_of (success a) = 200
status_of (failure e) = e.status

-- `none` where the library reports an error; a field of type int64 holds an int64.
pub record Codec : Type 0 where
  pub parse_uuid : Bytes → Option Uuid
  pub create_request : Bytes → Option CreateRequest
  pub in_range :
      (body : Bytes) (req : CreateRequest)
      → create_request body ≡ some req
      → pos_part req.amount < two63
  pub confirm_token : Bytes → Option String
  pub refund_amount : Bytes → Option ℤ
  pub render : Response IntentResponse → Bytes

abbrev pub invalid_request : ℕ → String → String → ApiError
invalid_request status code param = respond_error status invalid_request_error code param

abbrev pub unauthenticated : ApiError
unauthenticated = respond_error 401 authentication_error "authentication_required" ""

-- The errors of `create`.
unfoldable pub map_create_error : Error → ApiError
map_create_error invalid_amount = invalid_request 400 "invalid_amount" "amount"
map_create_error invalid_currency = invalid_request 400 "invalid_currency" "currency"
map_create_error payee_required = invalid_request 400 "payee_required" "payee"
map_create_error invalid_fee = invalid_request 400 "invalid_application_fee" "application_fee"
map_create_error _ = respond_error 500 api_error "create_failed" ""

unfoldable pub map_money_error : Error → ApiError
map_money_error intent_not_found = respond_error 404 not_found_error "intent_not_found" "id"
map_money_error invalid_state = invalid_request 409 "invalid_state" ""
map_money_error refund_exceeds_capture = invalid_request 400 "refund_too_large" "amount"
map_money_error partial_refund_before_settle =
    invalid_request 422 "partial_refund_before_settle" "amount"
map_money_error partial_escrow_refund = invalid_request 422 "partial_escrow_refund" "amount"
map_money_error invalid_amount = invalid_request 400 "invalid_amount" "amount"
map_money_error bank_declined = invalid_request 402 "bank_declined" ""
map_money_error bank_unavailable = respond_error 504 api_error "bank_unavailable" ""
map_money_error _ = respond_error 500 api_error "internal_error" ""

-- What a handler does with the answer of the service.
abbrev pub answer_with :
    (Error → ApiError) → Result PaymentIntent × Session → Response IntentResponse × Session
answer_with on_error (ok pi, s) = (success (to_intent_response pi), s)
answer_with on_error (err e, s) = (failure (on_error e), s)

abbrev pub Serve : Type 0 → Type 0
Serve A = Env → Session → Response A × Session

abbrev pub reject : {A : Type 0} → ApiError → Serve A
reject e env s = (failure e, s)

abbrev pub bad_body : ApiError
bad_body = invalid_request 400 "invalid_body" ""

abbrev pub input_of : CreateRequest → Option Uuid → CreateInput
input_of req payee = record {
  amount = req.amount;
  currency = req.currency;
  metadata = req.metadata;
  is_escrow = req.escrow;
  payee = payee;
  application_fee = req.application_fee;
}

-- The payee is parsed for an escrow intent only.
abbrev pub create_with : Uuid → CreateRequest → Bool → Option Uuid → Serve IntentResponse
create_with m req false payee =
    λ env s. answer_with map_create_error (create m (input_of req none) env s)
create_with m req true none = reject (invalid_request 400 "invalid_payee" "payee")
create_with m req true (some payee) =
    λ env s. answer_with map_create_error (create m (input_of req (some payee)) env s)

abbrev pub create_bound : Codec → Uuid → Option CreateRequest → Serve IntentResponse
create_bound codec m none = reject bad_body
create_bound codec m (some req) = create_with m req req.escrow (codec.parse_uuid req.payee)

unfoldable pub create_intent : Codec → Option Uuid → Bytes → Serve IntentResponse
create_intent codec none body = reject unauthenticated
create_intent codec (some m) body = create_bound codec m (codec.create_request body)

-- `authAndID`, and what follows it.
abbrev pub with_id : {A : Type 0} → Option Uuid → (Uuid → Serve A) → Serve A
with_id none k = reject (invalid_request 400 "invalid_id" "id")
with_id (some id) k = k id

abbrev pub auth_and_id :
    {A : Type 0} → Codec → Option Uuid → Bytes → (Uuid → Uuid → Serve A) → Serve A
auth_and_id codec none raw k = reject unauthenticated
auth_and_id codec (some m) raw k = with_id (codec.parse_uuid raw) (k m)

abbrev pub missing_token : ApiError
missing_token = invalid_request 400 "missing_token" "token"

-- An empty token is as good as none.
abbrev pub confirm_bound : Client → Uuid → Uuid → Option String → Serve IntentResponse
confirm_bound bank m id none = reject missing_token
confirm_bound bank m id (some token) = if token == "" then reject missing_token else λ env s.
    answer_with map_money_error (confirm bank id m token env s)

unfoldable pub confirm_intent : Codec → Client → Option Uuid → Bytes → Bytes → Serve IntentResponse
confirm_intent codec bank merchant raw body =
    auth_and_id codec merchant raw λ m id. confirm_bound bank m id (codec.confirm_token body)

unfoldable pub capture_intent : Codec → Client → Option Uuid → Bytes → Serve IntentResponse
capture_intent codec bank merchant raw =
    auth_and_id codec merchant raw
      λ m id env s. answer_with map_money_error (capture bank id m env s)

unfoldable pub release_intent : Codec → Option Uuid → Bytes → Serve IntentResponse
release_intent codec merchant raw =
    auth_and_id codec merchant raw λ m id env s. answer_with map_money_error (release id m env s)

abbrev pub refund_bound : Uuid → Uuid → Option ℤ → Serve IntentResponse
refund_bound m id none = reject bad_body
refund_bound m id (some amount) = λ env s. answer_with map_money_error (refund id m amount env s)

unfoldable pub refund_intent : Codec → Option Uuid → Bytes → Bytes → Serve IntentResponse
refund_intent codec merchant raw body =
    auth_and_id codec merchant raw λ m id. refund_bound m id (codec.refund_amount body)

-- The errors of `get`.
abbrev pub map_read_error : Error → ApiError
map_read_error intent_not_found = respond_error 404 not_found_error "intent_not_found" "id"
map_read_error _ = respond_error 500 api_error "read_failed" ""

unfoldable pub get_handler : Codec → Option Uuid → Bytes → Serve IntentResponse
get_handler codec merchant raw =
    auth_and_id codec merchant raw λ m id env s. answer_with map_read_error (get id m env s)

abbrev pub list_answer :
    Result (List PaymentIntent) × Session → Response (List IntentResponse) × Session
list_answer (ok rows, s) = (success (map to_intent_response rows), s)
list_answer (err e, s) = (failure (respond_error 500 api_error "list_failed" ""), s)

-- The filter is a status or none.
unfoldable pub list_handler :
    Option Uuid → Option Status → Bytes → Bytes → Serve (List IntentResponse)
list_handler none status limit offset = reject unauthenticated
list_handler (some m) status limit offset =
    λ env s. list_answer (list m status (atoi32 limit) (atoi32 offset) env s)

-- The routes behind `WithIdempotency` of router.go, with the :id of the path.
pub data Route : Type 0 where
  to_create : Route
  to_confirm to_capture to_refund to_release : Bytes → Route

unfoldable pub serve : Codec → Client → Route → Option Uuid → Bytes → Serve IntentResponse
serve codec bank to_create merchant body = create_intent codec merchant body
serve codec bank (to_confirm raw) merchant body = confirm_intent codec bank merchant raw body
serve codec bank (to_capture raw) merchant body = capture_intent codec bank merchant raw
serve codec bank (to_refund raw) merchant body = refund_intent codec merchant raw body
serve codec bank (to_release raw) merchant body = release_intent codec merchant raw

-- The body as the handler reads it again.
abbrev pub bytes_of : Option Bytes → Bytes
bytes_of none = []
bytes_of (some body) = body

abbrev pub write_response : Codec → Response IntentResponse × Session → Outcome × Session
write_response codec (r, s) = (written (status_of r) (codec.render r), s)

unfoldable pub money_handler : Codec → Client → Route → Handler
money_handler codec bank route req env s =
    write_response codec (serve codec bank route req.merchant (bytes_of req.body) env s)
