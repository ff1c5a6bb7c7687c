-- ===== src/Http/Portal.antt =====
-- The portal's handlers: nem_pay/api/internal/httpapi/webhook_endpoints.go, and `paginate`, `apiKeys`
-- and the grouping of `ledger` of portal_reads.go. url.Parse is the standard library's, uuid.Parse a
-- third party's.
pub mod Numbers
pub mod Grouping
pub mod Tenants
pub mod Tests
use Prim.Native.String.{String}
use monorepo_payment.Base.{
  ℕ, zero, suc, ◌+◌, ◌-◌, ◌*◌, ◌%◌, Bool, true, false, ◌&&◌, ◌||◌, not, Option, none, some, List,
  [], ◌∷◌, ◌++◌, map, Bytes, bytes_eq, leb, ltb, ◌==◌, if◌then◌else◌, find?, update_where,
}
use monorepo_payment.Base.Int.{two63, ℤ, pos, negsuc, sub_ℕ, leb_ℤ, ltb_ℤ}
use monorepo_payment.Errors.{Error, Result, ok, err, no_rows}
use monorepo_payment.Chart.{TransactionKind}
use monorepo_payment.Db.{Uuid, WebhookEndpoint}
use monorepo_payment.Db.Exec.{Env, Session, Exec}
use monorepo_payment.Db.Endpoints.{
  is_active, list_endpoints, insert_webhook_endpoint, disable_endpoint,
}
use monorepo_payment.Db.Keys.{ApiKeyRow, list_api_keys_for_merchant}
use monorepo_payment.Http.{ApiError, not_found_error, api_error, respond_error}
use monorepo_payment.Http.Query.{parse_int, two31, two32}
use monorepo_payment.Http.Intents.{
  Response, success, failure, Serve, reject, unauthenticated, invalid_request, bad_body,
}
use monorepo_payment.Http.Tokens.{is_digit, digits_only, trim_space}

-- int32(v), of a positive int.
abbrev pub to_int32 : ℕ → ℤ
to_int32 n = if ltb (n % two32) two31 then pos (n % two32) else sub_ℕ (n % two32) two32

abbrev pub page_limit : Option ℤ → ℤ
page_limit (some (pos (suc n))) = if ltb 100 (suc n) then to_int32 100 else to_int32 (suc n)
page_limit _ = pos 20

abbrev pub page_offset : Option ℤ → ℤ
page_offset (some (pos (suc n))) = to_int32 (suc n)
page_offset _ = pos 0

-- `paginate`, of the texts of ?limit and ?offset; strconv.Atoi reads an int of 64 bits.
unfoldable pub paginate : Bytes → Bytes → ℤ × ℤ
paginate limit offset = (page_limit (parse_int two63 limit), page_offset (parse_int two63 offset))

-- A row of `LedgerForIntent`: the transaction, and the entry as it is shown.
pub record LedgerRow (E : Type 0) : Type 0 where
  pub transaction_id : Uuid
  pub transaction_kind : TransactionKind
  pub transaction_created_at : ℕ
  pub entry : E

pub record Txn (E : Type 0) : Type 0 where
  pub id : Uuid
  pub kind : TransactionKind
  pub created_at : ℕ
  pub entries : List E

-- The transaction that a row starts.
abbrev pub txn_of : {E : Type 0} → LedgerRow E → Txn E
txn_of r = record {
  id = r.transaction_id;
  kind = r.transaction_kind;
  created_at = r.transaction_created_at;
  entries = r.entry ∷ [];
}

-- One round of the loop of `ledger`: `byID` says whether a transaction with the id is there.
abbrev pub put_row : {E : Type 0} → List (Txn E) → LedgerRow E → Option (Txn E) → List (Txn E)
put_row txns r none = txns ++ txn_of r ∷ []
put_row txns r (some t) =
    update_where (λ t. t.id == r.transaction_id)
      (λ t. record t { entries = t.entries ++ r.entry ∷ [] }) txns

abbrev pub add_row : {E : Type 0} → List (Txn E) → LedgerRow E → List (Txn E)
add_row txns r = put_row txns r (find? (λ t. t.id == r.transaction_id) txns)

unfoldable pub group_rows : {E : Type 0} → List (Txn E) → List (LedgerRow E) → List (Txn E)
group_rows txns [] = txns
group_rows txns (r ∷ rs) = group_rows (add_row txns r) rs

-- `endpointJSON`: no secret.
pub record EndpointView : Type 0 where
  pub id : Uuid
  pub url : Bytes
  pub active : Bool
  pub created_at : ℕ

abbrev pub endpoint_json : WebhookEndpoint → EndpointView
endpoint_json e = record {
  id = e.id;
  url = e.url;
  active = is_active e.disabled_at;
  created_at = e.created_at;
}

pub record CreateEndpointRequest : Type 0 where
  pub url : Bytes
  pub secret : Bytes

-- What url.Parse gives of a text, and uuid.Parse.
pub record Parsers : Type 0 where
  pub url_of : Bytes → Option (Bytes × Bytes)
  pub uuid_of : Bytes → Option Uuid

abbrev pub http : Bytes
http = b'h' ∷ b't' ∷ b't' ∷ b'p' ∷ []

abbrev pub https : Bytes
https = b'h' ∷ b't' ∷ b't' ∷ b'p' ∷ b's' ∷ []

abbrev pub is_empty : Bytes → Bool
is_empty [] = true
is_empty (b ∷ bs) = false

-- The scheme and the host of a parsed URL.
abbrev pub is_http_with_host : Option (Bytes × Bytes) → Bool
is_http_with_host none = false
is_http_with_host (some (scheme, host)) =
    (bytes_eq scheme http || bytes_eq scheme https) && not (is_empty host)

unfoldable pub valid_endpoint_url : Parsers → Bytes → Bool
valid_endpoint_url parsers raw =
    not (is_empty (trim_space raw)) && is_http_with_host (parsers.url_of (trim_space raw))

abbrev pub failed : {A : Type 0} → String → Response A
failed code = failure (respond_error 500 api_error code "")

abbrev pub shown_list :
    Result (List WebhookEndpoint) × Session → Response (List EndpointView) × Session
shown_list (ok rows, s) = (success (map endpoint_json rows), s)
shown_list (err e, s) = (failed "endpoints_failed", s)

unfoldable pub list_endpoints_handler : Option Uuid → Serve (List EndpointView)
list_endpoints_handler none = reject unauthenticated
list_endpoints_handler (some m) = λ env s. shown_list (list_endpoints m env s)

abbrev pub shown_created : Result WebhookEndpoint × Session → Response EndpointView × Session
shown_created (ok e, s) = (success (endpoint_json e), s)
shown_created (err x, s) = (failed "endpoint_create_failed", s)

abbrev pub create_checked : Parsers → Uuid → CreateEndpointRequest → Serve EndpointView
create_checked parsers m req =
    if not (valid_endpoint_url parsers req.url)
    then reject (invalid_request 400 "invalid_url" "url")
    else if is_empty (trim_space req.secret)
    then reject (invalid_request 400 "invalid_secret" "secret")
    else λ env s. shown_created (insert_webhook_endpoint m req.url req.secret env s)

unfoldable pub create_endpoint_handler :
    Parsers → Option Uuid → Option CreateEndpointRequest → Serve EndpointView
create_endpoint_handler parsers none req = reject unauthenticated
create_endpoint_handler parsers (some m) none = reject bad_body
create_endpoint_handler parsers (some m) (some req) = create_checked parsers m req

-- errors.Is(err, pgx.ErrNoRows)
abbrev pub is_no_rows : Error → Bool
is_no_rows no_rows = true
is_no_rows _ = false

abbrev pub shown_disabled : Result WebhookEndpoint × Session → Response EndpointView × Session
shown_disabled (ok e, s) = (success (endpoint_json e), s)
shown_disabled (err e, s) = (
  if is_no_rows e
      then failure (respond_error 404 not_found_error "endpoint_not_found" "id")
      else failed "endpoint_disable_failed",
  s,
)

abbrev pub disable_parsed : Uuid → Option Uuid → Serve EndpointView
disable_parsed m none = reject (invalid_request 400 "invalid_id" "id")
disable_parsed m (some id) = λ env s. shown_disabled (disable_endpoint id m env s)

unfoldable pub disable_endpoint_handler : Parsers → Option Uuid → Bytes → Serve EndpointView
disable_endpoint_handler parsers none raw = reject unauthenticated
disable_endpoint_handler parsers (some m) raw = disable_parsed m (parsers.uuid_of raw)

abbrev pub shown_keys : Result (List ApiKeyRow) × Session → Response (List ApiKeyRow) × Session
shown_keys (ok rows, s) = (success rows, s)
shown_keys (err e, s) = (failed "api_keys_failed", s)

unfoldable pub api_keys_handler : Option Uuid → Serve (List ApiKeyRow)
api_keys_handler none = reject unauthenticated
api_keys_handler (some m) = λ env s. shown_keys (list_api_keys_for_merchant m env s)
