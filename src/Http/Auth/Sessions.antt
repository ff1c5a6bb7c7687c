-- ===== src/Http/Auth/Sessions.antt =====
-- Session tokens (nem_pay/api/internal/httpapi/session.go): an access token and a refresh token are
-- not interchangeable, and each ends.
use monorepo_payment.Base.{
  ℕ, ◌+◌, ◌≡◌, refl, ◌∙◌, ap, Bool, true, false, Option, none, some, Bytes, ltb, if◌then◌else◌,
}
use monorepo_payment.Db.{Uuid}
use monorepo_payment.Http.Auth.{
  TokenType, access, refresh, other_type, Claims, Jwt, issue, with_type, claims_merchant,
  parse_token, if_access, if_refresh, verify_token, verify_refresh,
}

-- What a token of a type is good for until it ends.
abbrev pub access_of : TokenType → Uuid → Option Uuid
access_of access m = some m
access_of _ m = none

abbrev pub refresh_of : TokenType → Uuid → Option Uuid
refresh_of refresh m = some m
refresh_of _ m = none

-- With a parser that reads a signed token's claims back before they expire and nothing after, and texts
-- of UUIDs that parse back, a token that is issued to a merchant names that merchant until its time is
-- over: as a session if it is an access token, for a renewal if it is a refresh token, and for nothing
-- else; and afterwards it is good for nothing.
pub issue-verify :
    (jwt : Jwt)
    → ((claims : Claims) (token : Bytes) (later : ℕ)
        → jwt.sign claims ≡ some token
        → jwt.parse later token ≡ (if ltb later claims.exp then some claims else none))
    → ((m : Uuid) → jwt.parse_uuid (jwt.print_uuid m) ≡ some m)
    → (m : Uuid) (typ : TokenType) (ttl now later : ℕ) (token : Bytes)
    → issue jwt m typ ttl now ≡ some token
    → (verify_token jwt later token ≡ (if ltb later (now + ttl) then access_of typ m else none))
      × (verify_refresh jwt later token
          ≡ (if ltb later (now + ttl) then refresh_of typ m else none))
unfolding issue verify_token verify_refresh parse_token
issue-verify jwt reads_back prints m typ ttl now later token issued =
    let claims : Claims = record { merchant_id = jwt.print_uuid m; typ = typ; exp = now + ttl } in
    let parsed = reads_back claims token later issued in
    (
      ap (λ o. if_access (claims_merchant jwt o)) parsed ∙ as_access (ltb later (now + ttl)) typ,
      ap (λ o. if_refresh (claims_merchant jwt o)) parsed ∙ as_refresh (ltb later (now + ttl)) typ,
    )
  where
    claims_of : TokenType → Claims
    claims_of t = record { merchant_id = jwt.print_uuid m; typ = t; exp = now + ttl }

    named : (t : TokenType) → claims_merchant jwt (some (claims_of t)) ≡ some (m, t)
    named t = ap (with_type t) (prints m)

    as_access :
        (b : Bool) (t : TokenType)
        → if_access (claims_merchant jwt (if b then some (claims_of t) else none))
          ≡ (if b then access_of t m else none)
    as_access false t = refl
    as_access true access = ap if_access (named access)
    as_access true refresh = ap if_access (named refresh)
    as_access true other_type = ap if_access (named other_type)

    as_refresh :
        (b : Bool) (t : TokenType)
        → if_refresh (claims_merchant jwt (if b then some (claims_of t) else none))
          ≡ (if b then refresh_of t m else none)
    as_refresh false t = refl
    as_refresh true access = ap if_refresh (named access)
    as_refresh true refresh = ap if_refresh (named refresh)
    as_refresh true other_type = ap if_refresh (named other_type)
