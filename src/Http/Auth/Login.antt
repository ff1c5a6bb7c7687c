-- ===== src/Http/Auth/Login.antt =====
-- `login` of nem_pay/api/internal/httpapi/session.go. The comparison of bcrypt is third-party code.
use Prim.Native.String.{String}
use monorepo_payment.Base.{ℕ, ◌+◌, Bool, Option, none, some, [], ◌∷◌, Bytes, if◌then◌else◌}
use monorepo_payment.Errors.{Result, ok, err, no_rows}
use monorepo_payment.Db.{Uuid, User, Merchant}
use monorepo_payment.Db.Exec.{Env, Session}
use monorepo_payment.Db.Users.{get_user_by_email, get_merchant}
use monorepo_payment.Http.{
  ApiError, invalid_request_error, authentication_error, api_error, respond_error,
}
use monorepo_payment.Http.Auth.{Jwt, access, refresh, issue}

-- `loginRequest`.
pub record LoginRequest : Type 0 where
  pub email : Bytes
  pub password : Bytes

-- The answer of a login.
pub record LoggedIn : Type 0 where
  pub token : Bytes
  pub refresh_token : Bytes
  pub expires_at : ℕ
  pub merchant_id : Uuid
  pub name : Bytes

pub data Login : Type 0 where
  logged_in : LoggedIn → Login
  not_logged_in : ApiError → Login

-- bcrypt, JWT and the two lifetimes in seconds.
pub record SessionHandler : Type 0 where
  pub matches : Bytes → Bytes → Bool
  pub jwt : Jwt
  pub ttl : ℕ
  pub refresh_ttl : ℕ

abbrev pub invalid_credentials : Login
invalid_credentials =
    not_logged_in (respond_error 401 authentication_error "invalid_credentials" "")

abbrev pub server_error : String → Login
server_error code = not_logged_in (respond_error 500 api_error code "")

-- With both tokens, the merchant is loaded.
abbrev pub with_merchant :
    SessionHandler → ℕ → Bytes → Bytes → Result Merchant × Session → Login × Session
with_merchant h now token refresh_token (ok m, s) = (
  logged_in record {
    token = token;
    refresh_token = refresh_token;
    expires_at = now + h.ttl;
    merchant_id = m.id;
    name = m.name;
  },
  s,
)
with_merchant h now token refresh_token (err e, s) = (server_error "merchant_lookup_failed", s)

abbrev pub with_tokens :
    SessionHandler → ℕ → Uuid → Option Bytes → Option Bytes → Env → Session → Login × Session
with_tokens h now m none refresh_token = λ env s. (server_error "token_error", s)
with_tokens h now m (some token) none = λ env s. (server_error "token_error", s)
with_tokens h now m (some token) (some refresh_token) =
    λ env s. with_merchant h now token refresh_token (get_merchant m env s)

-- What follows the lookup of the user.
abbrev pub with_user : SessionHandler → ℕ → Bytes → Result User × Session → Env → Login × Session
with_user h now password (ok u, s) env =
    if h.matches u.password_hash password
    then with_tokens h now u.merchant_id (issue h.jwt u.merchant_id access h.ttl now)
        (issue h.jwt u.merchant_id refresh h.refresh_ttl now) env s
    else (invalid_credentials, s)
with_user h now password (err no_rows, s) env = (invalid_credentials, s)
with_user h now password (err _, s) env = (server_error "auth_lookup_failed", s)

abbrev pub empty_field : Login
empty_field = not_logged_in (respond_error 400 invalid_request_error "invalid_body" "")

abbrev pub login_with : SessionHandler → ℕ → Bytes → Bytes → Env → Session → Login × Session
login_with h now [] password = λ env s. (empty_field, s)
login_with h now (e ∷ email) [] = λ env s. (empty_field, s)
login_with h now (e ∷ email) (p ∷ password) =
    λ env s. with_user h now (p ∷ password) (get_user_by_email (e ∷ email) env s) env

unfoldable pub login : SessionHandler → ℕ → Option LoginRequest → Env → Session → Login × Session
login h now none = λ env s. (empty_field, s)
login h now (some req) = login_with h now req.email req.password
