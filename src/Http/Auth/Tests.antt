-- ===== src/Http/Auth/Tests.antt =====
-- Callers and tokens (nem_pay/api/internal/httpapi): a key of a merchant, and a toy signature.
use mathlib.Core.Option.{some-injective}
use monorepo_payment.Base.{
  ℕ, zero, suc, ◌≡◌, refl, sym, ap, Option, none, some, [], ◌∷◌, Bytes, bytes_eq, ltb,
  if◌then◌else◌, ◌∙◌,
}
use monorepo_payment.Db.{Uuid, secret, ApiKey, empty_db}
use monorepo_payment.Db.Exec.{Session, stmt, ◌>>=◌}
use monorepo_payment.Db.Keys.{get_keys_by_prefix}
use monorepo_payment.Service.Tests.{calm}
use monorepo_payment.Http.Auth.{
  Crypto, key, passed, TokenType, access, refresh, other_type, Claims, Jwt, issue, verify_token,
  verify_refresh, money, guard, api_key_auth, lookup_api_key, first_match, bearer_token,
}
use monorepo_payment.Http.Auth.Access.{Admits, Allowed, guard-Admits}
use monorepo_payment.Http.Auth.Sessions.{issue-verify}

-- The hash of a token is the token.
abbrev plain : Crypto
plain = record { hash = λ b. b; equal = bytes_eq }

abbrev sk_1 : Bytes
sk_1 = b's' ∷ b'k' ∷ b'_' ∷ b'1' ∷ []

abbrev header : Bytes
header = b'B' ∷ b'e' ∷ b'a' ∷ b'r' ∷ b'e' ∷ b'r' ∷ b' ' ∷ sk_1

abbrev secret_key : ApiKey
secret_key = record {
  id = 1;
  merchant_id = 5;
  kind = secret;
  token_prefix = sk_1;
  token_hash = sk_1;
  created_at = 0;
  revoked_at = none;
}

abbrev keyed : Session
keyed = record { db = record empty_db { api_keys = secret_key ∷ [] }; sent = 0 }

-- A token is its type, its end and the merchant.
abbrev code_of : TokenType → ℕ
code_of access = 0
code_of refresh = 1
code_of other_type = 2

abbrev type_of : ℕ → TokenType
type_of zero = access
type_of (suc zero) = refresh
type_of (suc (suc n)) = other_type

abbrev read_claims : ℕ → Bytes → Option Claims
read_claims later (t ∷ exp ∷ m) =
    if ltb later exp then some (record { merchant_id = m; typ = type_of t; exp = exp }) else none
read_claims later _ = none

abbrev read_uuid : Bytes → Option Uuid
read_uuid [] = none
read_uuid (b ∷ bs) = some b

abbrev toy : Jwt
toy = record {
  sign = λ c. some (code_of c.typ ∷ c.exp ∷ c.merchant_id);
  parse = read_claims;
  print_uuid = λ m. m ∷ [];
  parse_uuid = read_uuid;
}

let_in :
    (guard plain toy 0 money header calm keyed).0
    ≡ passed (record { merchant = 5; kind = key secret })
unfolding guard api_key_auth lookup_api_key first_match bearer_token get_keys_by_prefix bytes_eq
    stmt ◌>>=◌
let_in = refl

guard-Admits_example :
    Admits
      (λ caller. Allowed plain toy 0 header keyed.db caller money)
      keyed.db
      (guard plain toy 0 money header calm keyed)
guard-Admits_example = guard-Admits plain toy 0 money header calm keyed

toy_reads :
    (claims : Claims) (token : Bytes) (later : ℕ)
    → toy.sign claims ≡ some token
    → toy.parse later token ≡ (if ltb later claims.exp then some claims else none)
toy_reads claims token later signed =
    ap (read_claims later)
      (sym (some-injective (code_of claims.typ ∷ claims.exp ∷ claims.merchant_id) token signed))
    ∙ ap (λ t. if ltb later claims.exp then some (record claims { typ = t }) else none)
        (back claims.typ)
  where
    back : (t : TokenType) → type_of (code_of t) ≡ t
    back access = refl
    back refresh = refl
    back other_type = refl

issue-verify_example :
    (verify_token toy 20 (1 ∷ 43210 ∷ 5 ∷ []) ≡ none)
    × (verify_refresh toy 20 (1 ∷ 43210 ∷ 5 ∷ []) ≡ some 5)
unfolding issue
issue-verify_example =
    issue-verify toy toy_reads (λ m. refl) 5 refresh 43200 10 20 (1 ∷ 43210 ∷ 5 ∷ []) refl
