-- ===== src/Http/Auth.antt =====
-- Who may call what: nem_pay/api/internal/httpapi/middleware_auth.go, the sessions of session.go,
-- `publishableOnly` of tokens.go and the groups of router.go, over nem_pay/api/internal/apikey. The
-- header is a list of bytes. SHA-256, the constant-time comparison, JWT and UUID texts are
-- third-party code.
pub mod Access
pub mod Sessions
pub mod Login
pub mod Tests
use Prim.Native.String.{String}
use monorepo_payment.Base.{
  zero, suc, reverse, ◌==◌, ℕ, ◌+◌, Bool, true, false, ◌&&◌, ◌||◌, Option, none, some, List, [],
  ◌∷◌, Bytes, bytes_eq, length, take, drop, leb, ltb, map, if◌then◌else◌,
}
use monorepo_payment.Errors.{Error, Result, ok, err}
use monorepo_payment.Db.{Uuid, KeyKind, publishable, secret, ApiKey}
use monorepo_payment.Db.Exec.{Env, Session, Exec, pure, ◌>>=◌}
use monorepo_payment.Db.Keys.{get_keys_by_prefix}
use monorepo_payment.Http.{
  ApiError, authentication_error, invalid_request_error, api_error, respond_error,
}

-- `PrefixLen` and `Prefix`.
abbrev pub prefix_len : ℕ
prefix_len = 16

abbrev pub prefix : Bytes → Bytes
prefix token = if ltb (length token) prefix_len then token else take prefix_len token

-- `Hash` and `Equal`.
pub record Crypto : Type 0 where
  pub hash : Bytes → Bytes
  pub equal : Bytes → Bytes → Bool

-- `lookupAPIKey`: the candidate whose hash is the token's; `none` is errNoKeyMatch.
unfoldable pub first_match : Crypto → Bytes → List ApiKey → Option ApiKey
first_match c hash [] = none
first_match c hash (k ∷ ks) = if c.equal k.token_hash hash then some k else first_match c hash ks

unfoldable pub lookup_api_key : Crypto → Bytes → Exec (Option ApiKey)
lookup_api_key c token = do
  candidates ← get_keys_by_prefix (prefix token)
  pure (first_match c (c.hash token) candidates)

-- The bytes of one white space character (unicode.IsSpace) in UTF-8.
abbrev pub space_1 : ℕ → Bool
space_1 a = (leb 9 a && leb a 13) || a == 32

abbrev pub space_2 : ℕ → ℕ → Bool
space_2 a b = a == 194 && (b == 133 || b == 160)

abbrev pub space_3 : ℕ → ℕ → ℕ → Bool
space_3 a b c =
    (a == 225 && b == 154 && c == 128)
    || (a == 226 && b == 128 && ((leb 128 c && leb c 138) || c == 168 || c == 169 || c == 175))
    || (a == 226 && b == 129 && c == 159)
    || (a == 227 && b == 128 && c == 128)

-- How many bytes the white space character at the start takes, 0 if there is none.
abbrev pub space_width : Bytes → ℕ
space_width [] = 0
space_width (a ∷ []) = if space_1 a then 1 else 0
space_width (a ∷ b ∷ []) = if space_1 a then 1 else if space_2 a b then 2 else 0
space_width (a ∷ b ∷ c ∷ bs) =
    if space_1 a then 1 else if space_2 a b then 2 else if space_3 a b c then 3 else 0

-- The same at the end, of the bytes turned round.
abbrev pub space_width_back : Bytes → ℕ
space_width_back [] = 0
space_width_back (c ∷ []) = if space_1 c then 1 else 0
space_width_back (c ∷ b ∷ []) = if space_1 c then 1 else if space_2 b c then 2 else 0
space_width_back (c ∷ b ∷ a ∷ bs) =
    if space_1 c then 1 else if space_2 b c then 2 else if space_3 a b c then 3 else 0

-- Leaves out the bytes that are still of a white space character, and those that follow it.
abbrev pub drop_spaces : (Bytes → ℕ) → ℕ → Bytes → Bytes
drop_spaces width k [] = []
drop_spaces width (suc k) (b ∷ bs) = drop_spaces width k bs
drop_spaces width zero (b ∷ bs) = elim (width (b ∷ bs)) [
  | zero ↦ b ∷ bs
  | suc k ↦ drop_spaces width k bs
]

-- strings.TrimSpace, on bytes
abbrev pub trim_bytes : Bytes → Bytes
trim_bytes bs = reverse (drop_spaces space_width_back 0 (reverse (drop_spaces space_width 0 bs)))

-- "bearer "
abbrev pub scheme : Bytes
scheme = b'b' ∷ b'e' ∷ b'a' ∷ b'r' ∷ b'e' ∷ b'r' ∷ b' ' ∷ []

abbrev pub lower : ℕ → ℕ
lower c = if leb 65 c && leb c 90 then c + 32 else c

-- strings.EqualFold with an ASCII text whose letters have no other case forms
abbrev pub equal_fold : Bytes → Bytes → Bool
equal_fold xs ys = bytes_eq (map lower xs) ys

abbrev pub non_empty : Bytes → Option Bytes
non_empty [] = none
non_empty (b ∷ bs) = some (b ∷ bs)

-- `bearerToken`; an absent header is the empty one.
unfoldable pub bearer_token : Bytes → Option Bytes
bearer_token h =
    if leb (length h) 7
    then none
    else if equal_fold (take 7 h) scheme
    then non_empty (trim_bytes (drop 7 h))
    else none

-- What the context holds of the caller.
pub data Credential : Type 0 where
  key : KeyKind → Credential
  session : Credential

pub record Caller : Type 0 where
  pub merchant : Uuid
  pub kind : Credential

-- What a chain of middleware gives: the caller that is set, or the answer that ends the request.
pub data Gate : Type 0 where
  passed : Caller → Gate
  stopped : ApiError → Gate

abbrev pub Guard : Type 0
Guard = Bytes → Env → Session → Gate × Session

abbrev pub deny : ℕ → String → Gate
deny status code = stopped (respond_error status authentication_error code "")

-- What follows the lookup.
abbrev pub with_key : Result (Option ApiKey) × Session → Gate × Session
with_key (ok none, s) = (deny 401 "invalid_api_key", s)
with_key (ok (some k), s) = (passed (record { merchant = k.merchant_id; kind = key k.kind }), s)
with_key (err e, s) = (stopped (respond_error 500 api_error "auth_lookup_failed" ""), s)

abbrev pub with_token : Crypto → Option Bytes → Env → Session → Gate × Session
with_token c none env s = (deny 401 "missing_api_key", s)
with_token c (some token) env s = with_key (lookup_api_key c token env s)

unfoldable pub api_key_auth : Crypto → Guard
api_key_auth c header env s = with_token c (bearer_token header) env s

-- `secretOnly` and `publishableOnly`, after the caller is set.
abbrev pub secret_only : Caller → Gate
secret_only caller = elim caller.kind [
  | key k ↦ elim k [ publishable ↦ deny 403 "secret_key_required" | secret ↦ passed caller ]
  | session ↦ deny 403 "secret_key_required"
]

abbrev pub publishable_only : Caller → Gate
publishable_only caller = elim caller.kind [
  | key k ↦ elim k [ publishable ↦ passed caller | secret ↦ deny 403 "publishable_key_required" ]
  | session ↦ deny 403 "publishable_key_required"
]

-- The next handler of the chain.
abbrev pub and_then : (Caller → Gate) → Gate × Session → Gate × Session
and_then next (passed caller, s) = (next caller, s)
and_then next (stopped e, s) = (stopped e, s)

pub data TokenType : Type 0 where
  access refresh other_type : TokenType

-- The claims of a token: `merchant_id`, `typ` and `exp`, in seconds.
pub record Claims : Type 0 where
  pub merchant_id : Bytes
  pub typ : TokenType
  pub exp : ℕ

-- The signing and parsing of JWTs with the secret of the process, by HMAC methods only, at a time;
-- and the texts of UUIDs.
pub record Jwt : Type 0 where
  pub sign : Claims → Option Bytes
  pub parse : ℕ → Bytes → Option Claims
  pub print_uuid : Uuid → Bytes
  pub parse_uuid : Bytes → Option Uuid

unfoldable pub issue : Jwt → Uuid → TokenType → ℕ → ℕ → Option Bytes
issue jwt merchant typ ttl now =
    jwt.sign (record { merchant_id = jwt.print_uuid merchant; typ = typ; exp = now + ttl })

abbrev pub with_type : TokenType → Option Uuid → Option (Uuid × TokenType)
with_type typ none = none
with_type typ (some m) = some (m, typ)

abbrev pub claims_merchant : Jwt → Option Claims → Option (Uuid × TokenType)
claims_merchant jwt none = none
claims_merchant jwt (some c) = with_type c.typ (jwt.parse_uuid c.merchant_id)

unfoldable pub parse_token : Jwt → ℕ → Bytes → Option (Uuid × TokenType)
parse_token jwt now token = claims_merchant jwt (jwt.parse now token)

abbrev pub if_access : Option (Uuid × TokenType) → Option Uuid
if_access (some (m, access)) = some m
if_access _ = none

abbrev pub if_refresh : Option (Uuid × TokenType) → Option Uuid
if_refresh (some (m, refresh)) = some m
if_refresh _ = none

unfoldable pub verify_token : Jwt → ℕ → Bytes → Option Uuid
verify_token jwt now token = if_access (parse_token jwt now token)

unfoldable pub verify_refresh : Jwt → ℕ → Bytes → Option Uuid
verify_refresh jwt now token = if_refresh (parse_token jwt now token)

-- `refresh`, of a body that binds: a new access token, and when it ends.
pub data Refreshed : Type 0 where
  renewed : Bytes → ℕ → Refreshed
  not_renewed : ApiError → Refreshed

abbrev pub token_or_error : ℕ → Option Bytes → Refreshed
token_or_error exp none = not_renewed (respond_error 500 api_error "token_error" "")
token_or_error exp (some token) = renewed token exp

abbrev pub renew_for : Jwt → ℕ → ℕ → Option Uuid → Refreshed
renew_for jwt ttl now none =
    not_renewed (respond_error 401 authentication_error "invalid_refresh" "")
renew_for jwt ttl now (some m) = token_or_error (now + ttl) (issue jwt m access ttl now)

unfoldable pub refresh_session : Jwt → ℕ → ℕ → Bytes → Refreshed
refresh_session jwt ttl now [] =
    not_renewed (respond_error 400 invalid_request_error "invalid_body" "")
refresh_session jwt ttl now (b ∷ bs) = renew_for jwt ttl now (verify_refresh jwt now (b ∷ bs))

-- strings.HasPrefix(token, "pk_") || strings.HasPrefix(token, "sk_")
abbrev pub is_api_key : Bytes → Bool
is_api_key token =
    bytes_eq (take 3 token) (b'p' ∷ b'k' ∷ b'_' ∷ [])
    || bytes_eq (take 3 token) (b's' ∷ b'k' ∷ b'_' ∷ [])

abbrev pub with_session : Option Uuid → Gate
with_session none = deny 401 "invalid_session"
with_session (some m) = passed (record { merchant = m; kind = session })

abbrev pub with_either : Crypto → Jwt → ℕ → Option Bytes → Env → Session → Gate × Session
with_either c jwt now none env s = (deny 401 "missing_credentials", s)
with_either c jwt now (some token) env s =
    if is_api_key token
    then with_key (lookup_api_key c token env s)
    else (with_session (verify_token jwt now token), s)

unfoldable pub auth_any : Crypto → Jwt → ℕ → Guard
auth_any c jwt now header env s = with_either c jwt now (bearer_token header) env s

-- The groups of `NewRouter` that need a caller, and their chains.
pub data Group : Type 0 where
  tokens money reads : Group

unfoldable pub guard : Crypto → Jwt → ℕ → Group → Guard
guard c jwt now tokens header env s = and_then publishable_only (api_key_auth c header env s)
guard c jwt now money header env s = and_then secret_only (api_key_auth c header env s)
guard c jwt now reads header env s = auth_any c jwt now header env s
