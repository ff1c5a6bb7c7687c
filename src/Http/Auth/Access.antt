-- ===== src/Http/Auth/Access.antt =====
-- Whom each group of routes lets in (nem_pay/api/internal/httpapi/router.go).
use monorepo_payment.Base.{
  ◌++◌, ℕ, ◌≡◌, refl, sym, ap, subst, Bool, true, false, Option, none, some, List, [], ◌∷◌, Bytes,
  select, if◌then◌else◌, arith,
}
use mathlib.Core.Option.{some-injective}
use monorepo_payment.Errors.{Result, ok, err}
use monorepo_payment.Db.{Uuid, KeyKind, publishable, secret, ApiKey, Database}
use monorepo_payment.Db.Exec.{Env, Session}
use monorepo_payment.Db.Exec.After.{After, After-bind, After-stmt}
use monorepo_payment.Db.Keys.{is_candidate, read_candidates, get_keys_by_prefix}
use monorepo_payment.Http.Auth.{
  prefix, Crypto, first_match, lookup_api_key, bearer_token, key, session, Caller, Gate, passed,
  stopped, with_key, with_token, api_key_auth, secret_only, publishable_only, and_then, Jwt,
  verify_token, is_api_key, with_session, with_either, auth_any, Group, tokens, money, reads, guard,
}

-- A row that passes a test and has a hash stands in a table.
pub data Standing (c : Crypto) (hash : Bytes) (p : ApiKey → Bool) (ks : List ApiKey) (k : ApiKey)
    : Type 0 where
  stands :
      (before after : List ApiKey)
      → ks ≡ before ++ k ∷ after
      → p k ≡ true
      → c.equal k.token_hash hash ≡ true
      → Standing c hash p ks k

Standing-later :
    (c : Crypto) (hash : Bytes) (p : ApiKey → Bool) (ks : List ApiKey) (k x : ApiKey)
    → Standing c hash p ks k
    → Standing c hash p (x ∷ ks) k
Standing-later c hash p ks k x (stands before after same hp hq) =
    stands (x ∷ before) after (ap (λ l. x ∷ l) same) hp hq

first_match-Standing :
    (c : Crypto) (hash : Bytes) (p : ApiKey → Bool) (ks : List ApiKey) (k : ApiKey)
    → first_match c hash (select p ks) ≡ some k
    → Standing c hash p ks k
unfolding first_match
first_match-Standing c hash p [] k e = absurd (ground arith)
first_match-Standing c hash p (x ∷ ks) k e =
    let rest : first_match c hash (select p ks) ≡ some k → Standing c hash p (x ∷ ks) k =
      λ f. Standing-later c hash p ks k x (first_match-Standing c hash p ks k f) in
    go (p x) refl rest e
  where
    here :
        (d : Bool)
        → p x ≡ true
        → c.equal x.token_hash hash ≡ d
        → (first_match c hash (select p ks) ≡ some k → Standing c hash p (x ∷ ks) k)
        → (if d then some x else first_match c hash (select p ks)) ≡ some k
        → Standing c hash p (x ∷ ks) k
    here true hp hq rest f =
        subst (Standing c hash p (x ∷ ks)) (some-injective x k f) (stands [] ks refl hp hq)
    here false hp hq rest f = rest f

    go :
        (b : Bool)
        → p x ≡ b
        → (first_match c hash (select p ks) ≡ some k → Standing c hash p (x ∷ ks) k)
        → first_match c hash (if b then x ∷ select p ks else select p ks) ≡ some k
        → Standing c hash p (x ∷ ks) k
    go true hp rest f = here (c.equal x.token_hash hash) hp refl rest f
    go false hp rest f = rest f

-- A caller by an API key: a row of the table, not revoked, with the token's prefix and hash.
pub record KeyHolder (c : Crypto) (db : Database) (token : Bytes) (kind : KeyKind) (caller : Caller)
    : Type 0 where
  pub row : ApiKey
  pub stands_in : Standing c (c.hash token) (is_candidate (prefix token)) db.api_keys row
  pub kind_is : row.kind ≡ kind
  pub caller_is : caller ≡ record { merchant = row.merchant_id; kind = key kind }

-- Who is let in by each group.
pub data Allowed (c : Crypto) (jwt : Jwt) (now : ℕ) (header : Bytes) (db : Database)
    (caller : Caller) : Group → Type 0 where
  by_publishable :
      (token : Bytes)
      → bearer_token header ≡ some token
      → KeyHolder c db token publishable caller
      → Allowed c jwt now header db caller tokens
  by_secret :
      (token : Bytes)
      → bearer_token header ≡ some token
      → KeyHolder c db token secret caller
      → Allowed c jwt now header db caller money
  by_key :
      (token : Bytes) (kind : KeyKind)
      → bearer_token header ≡ some token
      → is_api_key token ≡ true
      → KeyHolder c db token kind caller
      → Allowed c jwt now header db caller reads
  by_session :
      (token : Bytes) (m : Uuid)
      → bearer_token header ≡ some token
      → is_api_key token ≡ false
      → verify_token jwt now token ≡ some m
      → caller ≡ record { merchant = m; kind = session }
      → Allowed c jwt now header db caller reads

-- The tables are as they were, and whoever is let in has `Q`.
abbrev pub Admits : (Caller → Type 0) → Database → Gate × Session → Type 0
Admits Q old (passed caller, s) = Q caller × (s.db ≡ old)
Admits Q old (stopped e, s) = s.db ≡ old

abbrev SomeKey : Crypto → Database → Bytes → Caller → Type 0
SomeKey c db token caller = (kind : KeyKind) × KeyHolder c db token kind caller

module _ (c : Crypto) (env : Env) (s : Session) where
  abbrev Looked : Bytes → Option ApiKey → Database → Type 0
  Looked token o db =
      ((k : ApiKey)
        → o ≡ some k
        → Standing c (c.hash token) (is_candidate (prefix token)) s.db.api_keys k)
      × (db ≡ s.db)

  lookup_api_key-After :
      (token : Bytes) → After (Looked token) (λ _ db. db ≡ s.db) (lookup_api_key c token env s)
  unfolding lookup_api_key get_keys_by_prefix
  lookup_api_key-After token =
      let p = is_candidate (prefix token) in
      After-bind env (λ _ db. db ≡ s.db) (λ ks db. (ks ≡ select p s.db.api_keys) × (db ≡ s.db))
        (Looked token) _ _ s
        (After-stmt env (λ _ db. db ≡ s.db) (λ ks db. (ks ≡ select p s.db.api_keys) × (db ≡ s.db))
          (read_candidates (prefix token)) s (λ _. refl) (refl, refl))
        λ ks s₁ (e, same). (
          λ k f.
              first_match-Standing c (c.hash token) p s.db.api_keys k
                (subst (λ l. first_match c (c.hash token) l ≡ some k) e f),
          same,
        )

  with_key-Admits :
      (token : Bytes) (r : Result (Option ApiKey) × Session)
      → After (Looked token) (λ _ db. db ≡ s.db) r
      → Admits (SomeKey c s.db token) s.db (with_key r)
  with_key-Admits token (ok none, s₁) (h, same) = same
  with_key-Admits token (ok (some k), s₁) (h, same) =
      ((k.kind, record { row = k; stands_in = h k refl; kind_is = refl; caller_is = refl }), same)
  with_key-Admits token (err e, s₁) same = same

  secret_only-holder :
      (token : Bytes) (caller : Caller) (k : KeyKind)
      → KeyHolder c s.db token k caller
      → (s' : Session) → s'.db ≡ s.db
      → Admits (KeyHolder c s.db token secret) s.db (secret_only caller, s')
  secret_only-holder token caller publishable h s' same =
      subst (λ x. Admits (KeyHolder c s.db token secret) s.db (secret_only x, s')) (sym h.caller_is)
        same
  secret_only-holder token caller secret h s' same =
      subst (λ x. Admits (KeyHolder c s.db token secret) s.db (secret_only x, s')) (sym h.caller_is)
        (subst (KeyHolder c s.db token secret) h.caller_is h, same)

  publishable_only-holder :
      (token : Bytes) (caller : Caller) (k : KeyKind)
      → KeyHolder c s.db token k caller
      → (s' : Session) → s'.db ≡ s.db
      → Admits (KeyHolder c s.db token publishable) s.db (publishable_only caller, s')
  publishable_only-holder token caller secret h s' same =
      subst (λ x. Admits (KeyHolder c s.db token publishable) s.db (publishable_only x, s'))
        (sym h.caller_is) same
  publishable_only-holder token caller publishable h s' same =
      subst (λ x. Admits (KeyHolder c s.db token publishable) s.db (publishable_only x, s'))
        (sym h.caller_is) (subst (KeyHolder c s.db token publishable) h.caller_is h, same)

  Admits-then :
      (Q R : Caller → Type 0) (next : Caller → Gate) (x : Gate × Session)
      → ((caller : Caller) (s' : Session)
          → Q caller
          → s'.db ≡ s.db
          → Admits R s.db (next caller, s'))
      → Admits Q s.db x
      → Admits R s.db (and_then next x)
  Admits-then Q R next (passed caller, s') f (h, same) = f caller s' h same
  Admits-then Q R next (stopped e, s') f same = same

  Admits-mono :
      (Q R : Caller → Type 0) (x : Gate × Session)
      → ((caller : Caller) → Q caller → R caller)
      → Admits Q s.db x
      → Admits R s.db x
  Admits-mono Q R (passed caller, s') f (h, same) = (f caller h, same)
  Admits-mono Q R (stopped e, s') f same = same

  looked :
      (token : Bytes) → Admits (SomeKey c s.db token) s.db (with_key (lookup_api_key c token env s))
  looked token = with_key-Admits token (lookup_api_key c token env s) (lookup_api_key-After token)

  module _ (jwt : Jwt) (now : ℕ) (header : Bytes) where
    money-Admits :
        (o : Option Bytes)
        → bearer_token header ≡ o
        → Admits
            (λ caller. Allowed c jwt now header s.db caller money)
            s.db
            (and_then secret_only (with_token c o env s))
    money-Admits none e = refl
    money-Admits (some token) e =
        Admits-mono (KeyHolder c s.db token secret)
          (λ caller. Allowed c jwt now header s.db caller money) _ (λ caller h. by_secret token e h)
          (Admits-then (SomeKey c s.db token) (KeyHolder c s.db token secret) secret_only
            (with_key (lookup_api_key c token env s))
            (λ caller s' (k, h) same. secret_only-holder token caller k h s' same) (looked token))

    tokens-Admits :
        (o : Option Bytes)
        → bearer_token header ≡ o
        → Admits
            (λ caller. Allowed c jwt now header s.db caller tokens)
            s.db
            (and_then publishable_only (with_token c o env s))
    tokens-Admits none e = refl
    tokens-Admits (some token) e =
        Admits-mono (KeyHolder c s.db token publishable)
          (λ caller. Allowed c jwt now header s.db caller tokens) _
          (λ caller h. by_publishable token e h)
          (Admits-then (SomeKey c s.db token) (KeyHolder c s.db token publishable) publishable_only
            (with_key (lookup_api_key c token env s))
            (λ caller s' (k, h) same. publishable_only-holder token caller k h s' same)
            (looked token))

    with_session-Admits :
        (token : Bytes)
        → bearer_token header ≡ some token
        → is_api_key token ≡ false
        → (o : Option Uuid) → verify_token jwt now token ≡ o
        → Admits (λ caller. Allowed c jwt now header s.db caller reads) s.db (with_session o, s)
    with_session-Admits token e other none v = refl
    with_session-Admits token e other (some m) v = (by_session token m e other v refl, refl)

    reads-Admits :
        (o : Option Bytes)
        → bearer_token header ≡ o
        → Admits
            (λ caller. Allowed c jwt now header s.db caller reads)
            s.db
            (with_either c jwt now o env s)
    reads-Admits none e = refl
    reads-Admits (some token) e = go (is_api_key token) refl
      where
        go :
            (b : Bool)
            → is_api_key token ≡ b
            → Admits
                (λ caller. Allowed c jwt now header s.db caller reads)
                s.db
                (if b
                  then with_key (lookup_api_key c token env s)
                  else (with_session (verify_token jwt now token), s))
        go true is =
            Admits-mono (SomeKey c s.db token)
              (λ caller. Allowed c jwt now header s.db caller reads) _
              (λ caller (k, h). by_key token k e is h) (looked token)
        go false other = with_session-Admits token e other (verify_token jwt now token) refl

-- Whatever the header says and whatever statement fails, a route group changes no table, and lets a
-- caller in only so: tokens by a publishable key and money by a secret one, each a row of the table
-- that is not revoked and has the prefix and the hash of the bearer token, with the row's merchant;
-- reads by a key of either kind, or by an access token of a session with that token's merchant.
pub guard-Admits :
    (c : Crypto) (jwt : Jwt) (now : ℕ) (group : Group) (header : Bytes) (env : Env) (s : Session)
    → Admits
        (λ caller. Allowed c jwt now header s.db caller group)
        s.db
        (guard c jwt now group header env s)
unfolding guard api_key_auth auth_any
guard-Admits c jwt now tokens header env s =
    tokens-Admits c env s jwt now header (bearer_token header) refl
guard-Admits c jwt now money header env s =
    money-Admits c env s jwt now header (bearer_token header) refl
guard-Admits c jwt now reads header env s =
    reads-Admits c env s jwt now header (bearer_token header) refl
