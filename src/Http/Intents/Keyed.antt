-- ===== src/Http/Intents/Keyed.antt =====
-- Money requests under their Idempotency-Key: the handlers of
-- nem_pay/api/internal/httpapi/payment_intents.go behind `WithIdempotency` of idempotency.go.
use monorepo_payment.Base.{
  ℕ, ◌≤◌, ◌≡◌, refl, sym, ◌∙◌, ap, subst, Bool, true, false, Option, none, some, Bytes, [], ◌∷◌,
  leb, ◌⊎◌, inl, inr, if◌then◌else◌, delete_id, update_where, ◌==◌, arith,
}
use monorepo_payment.Errors.{Error, Result, ok, err}
use monorepo_payment.Db.{Uuid, PaymentIntent, Database}
use monorepo_payment.Db.Exec.{Env, Session}
use monorepo_payment.Bank.{Client}
use monorepo_payment.Service.Valid.{IsValid}
use monorepo_payment.Http.Keys.{
  IdempotencyKey, Store, key_stmt, key_stmt-db, read_key, add_key, insert_in_flight, get_by_key,
  mark_completed, delete_key, rewrite_keys, completed_row,
}
use monorepo_payment.Http.Idempotency.{
  replayed, Request, Outcome, written, panicked, Reply, handled, admitted, admit, with_merchant,
  bounded, Claim, first, answered, after_lookup, after_insert, limited, refused,
  is_unique_violation, on_conflict, replay_or_conflict, claim_key, write_back, run_first, restored,
  after_claim, hash_of, with_idempotency,
}
use monorepo_payment.Http.Idempotency.Replay.{
  Says, stored, bare, busy, reused, reply_of-Says, with_idempotency-admitted,
}
use monorepo_payment.Http.{ApiError, respond_error, api_error}
use monorepo_payment.Http.Intents.{
  IntentResponse, to_intent_response, Response, success, failure, Codec, Route, serve,
  write_response, money_handler,
}
use monorepo_payment.Http.Intents.Money.{Done, Served, serve-Served}

admit-merchant :
    (req : Request) (m : Uuid) (body : Bytes) → admit req ≡ admitted m body → req.merchant ≡ some m
unfolding admit
admit-merchant req m body e = go req.merchant req.key req.body e
  where
    bounded-merchant : (n : Uuid) (raw : Bytes) → bounded n raw ≡ admitted m body → some n ≡ some m
    bounded-merchant n raw e = ground arith

    go :
        (o : Option Uuid) (key : Bytes) (raw : Option Bytes)
        → with_merchant o key raw ≡ admitted m body
        → o ≡ some m
    go none key raw e = ground arith
    go (some n) [] raw e = ground arith
    go (some n) (b ∷ key) none e = ground arith
    go (some n) (b ∷ key) (some raw) e = bounded-merchant n (limited raw) e

-- An answer that reports nothing new: an error, or the stored answer of a request that came before.
pub data Declined : Reply → Type 0 where
  turned : (e : ApiError) → 400 ≤ e.status → Declined (refused e)
  again : (code : ℕ) (body : Bytes) → Declined (replayed code body)
  failed : (status : ℕ) (body : Bytes) → 400 ≤ status → Declined (handled (written status body))

Says-Declined :
    (hash : Bytes) (row : IdempotencyKey) (reply : Reply) → Says hash row reply → Declined reply
Says-Declined hash row _ (stored code e st c) = again code row.response_body
Says-Declined hash row _ (bare e st c) = again 200 row.response_body
Says-Declined hash row _ (busy e st) = turned _ (omega arith)
Says-Declined hash row _ (reused e) = turned _ (omega arith)

after_lookup-Declined :
    (hash : Bytes) (x : Result IdempotencyKey × Store) → Declined (after_lookup hash x).0
after_lookup-Declined hash (ok row, s) = Says-Declined hash row _ (reply_of-Says hash row)
after_lookup-Declined hash (err e, s) = turned _ (omega arith)

-- What a claim gives that is not the first of its key.
abbrev ClaimDeclined : Claim → Type 0
ClaimDeclined (first id) = Unit {0}
ClaimDeclined (answered reply) = Declined reply

on_conflict-Declined :
    (m : Uuid) (key hash : Bytes) (e : Error) (env : Env) (s : Store)
    → ClaimDeclined (on_conflict m key hash e env s).0
unfolding replay_or_conflict
on_conflict-Declined m key hash e env s = go (is_unique_violation e)
  where
    go :
        (b : Bool)
        → let claim : Claim × Store =
            if b
            then (let (reply, s') = replay_or_conflict m key hash env s in (answered reply, s'))
            else (
              answered (refused (respond_error 500 api_error "idempotency_claim_failed" "")),
              s,
            ) in
          ClaimDeclined claim.0
    go true = after_lookup-Declined hash (get_by_key m key env s)
    go false = turned _ (omega arith)

after_insert-Declined :
    (m : Uuid) (key hash : Bytes) (env : Env) (x : Result IdempotencyKey × Store)
    → ClaimDeclined (after_insert m key hash env x).0
after_insert-Declined m key hash env (ok row, s) = tt
after_insert-Declined m key hash env (err e, s) = on_conflict-Declined m key hash e env s

claim_key-Declined :
    (m : Uuid) (key hash : Bytes) (env : Env) (s : Store)
    → ClaimDeclined (claim_key m key hash env s).0
unfolding claim_key
claim_key-Declined m key hash env s =
    after_insert-Declined m key hash env (insert_in_flight m key hash env s)

-- Either 200 and the deed, or an answer that reports nothing new and no table of the services changed.
abbrev pub Deed : Codec → (PaymentIntent → Database → Type 0) → Database → Reply × Store → Type 0
Deed codec P old (reply, s) =
    ((pi : PaymentIntent) × (reply
        ≡ handled (written 200 (codec.render (success (to_intent_response pi)))))
      × P pi s.session.db)
    ⊎ (Declined reply × (s.session.db ≡ old))

after_lookup-db :
    (hash : Bytes) (x : Result IdempotencyKey × Store)
    → (after_lookup hash x).1.session.db ≡ x.1.session.db
after_lookup-db hash (ok row, s) = refl
after_lookup-db hash (err e, s) = refl

replay_or_conflict-db :
    (m : Uuid) (key hash : Bytes) (env : Env) (s : Store)
    → (replay_or_conflict m key hash env s).1.session.db ≡ s.session.db
unfolding replay_or_conflict get_by_key
replay_or_conflict-db m key hash env s =
    after_lookup-db hash (key_stmt (read_key m key) env s) ∙ key_stmt-db (read_key m key) env s

on_conflict-db :
    (m : Uuid) (key hash : Bytes) (e : Error) (env : Env) (s : Store)
    → (on_conflict m key hash e env s).1.session.db ≡ s.session.db
on_conflict-db m key hash e env s = go (is_unique_violation e)
  where
    Same : Claim × Store → Type 0
    Same x = x.1.session.db ≡ s.session.db

    go :
        (b : Bool)
        → Same (
            if b
            then (let (reply, s') = replay_or_conflict m key hash env s in (answered reply, s'))
            else (
              answered (refused (respond_error 500 api_error "idempotency_claim_failed" "")),
              s,
            ))
    go true = replay_or_conflict-db m key hash env s
    go false = refl

after_insert-db :
    (m : Uuid) (key hash : Bytes) (env : Env) (x : Result IdempotencyKey × Store)
    → (after_insert m key hash env x).1.session.db ≡ x.1.session.db
after_insert-db m key hash env (ok row, s) = refl
after_insert-db m key hash env (err e, s) = on_conflict-db m key hash e env s

claim_key-db :
    (m : Uuid) (key hash : Bytes) (env : Env) (s : Store)
    → (claim_key m key hash env s).1.session.db ≡ s.session.db
unfolding claim_key insert_in_flight
claim_key-db m key hash env s =
    after_insert-db m key hash env (key_stmt (add_key m key hash) env s)
    ∙ key_stmt-db (add_key m key hash) env s

write_back-db :
    (id : Uuid) (outcome : Outcome) (env : Env) (s : Store)
    → (write_back id outcome env s).1.session.db ≡ s.session.db
unfolding delete_key mark_completed
write_back-db id panicked env s = key_stmt-db (rewrite_keys (delete_id (λ r. r.id) id)) env s
write_back-db id (written status body) env s = go (leb 500 status)
  where
    go :
        (b : Bool)
        → ((if b then delete_key id else mark_completed id status body) env s).1.session.db
          ≡ s.session.db
    go true = key_stmt-db (rewrite_keys (delete_id (λ r. r.id) id)) env s
    go false =
        key_stmt-db (rewrite_keys (update_where (λ r. r.id == id) (completed_row status body))) env
          s

module _ (codec : Codec) (bank : Client) (route : Route) (req : Request) (env : Env) where
  run_first-Deed :
      (P : PaymentIntent → Database → Type 0) (id : Uuid) (s : Store)
      (x : Response IntentResponse × Session)
      → Served P s.session.db x
      → Deed codec P s.session.db (
          let (outcome, session) = write_response codec x in
          let (r, s') = write_back id outcome env (record s { session = session }) in
          (handled outcome, s'))
  run_first-Deed P id s (success v, session) (pi, e, h) = inl (
    pi,
    ap (λ w. handled (written 200 (codec.render (success w)))) e,
    subst (P pi)
        (sym (
          write_back-db id (written 200 (codec.render (success v))) env
            (record s { session = session })))
        h,
  )
  run_first-Deed P id s (failure e, session) (bad, h) = inr (
    failed e.status (codec.render (failure e)) bad,
    write_back-db id (written e.status (codec.render (failure e))) env
          (record s { session = session })
        ∙ h,
  )

  -- Whatever key an admitted money request brings and whatever statement fails, on valid tables it is
  -- either answered 200 with an intent, and has done to the tables what it asks for; or it is answered
  -- with an error (400 or above), or with the stored answer of a request that came before, and no table
  -- of the services has changed. The bank is not among the tables: a capture that it approved before a
  -- statement failed is not undone there.
  pub with_idempotency-Deed :
      (digest : Bytes → Bytes) (s : Store) (m : Uuid) (body : Bytes)
      → IsValid s.session.db
      → admit req ≡ admitted m body
      → Deed codec
          (Done codec bank env m body s.session.db route)
          s.session.db
          (with_idempotency digest (money_handler codec bank route) req env s)
  unfolding run_first money_handler
  with_idempotency-Deed digest s m body valid admits =
      let who = admit-merchant req m body admits in
      subst (Deed codec P s.session.db)
        (sym (
          with_idempotency-admitted digest (money_handler codec bank route) req env s m body
            admits))
        (go (claim_key m req.key (hash_of digest req body) env s)
          (claim_key-db m req.key (hash_of digest req body) env s)
          (claim_key-Declined m req.key (hash_of digest req body) env s) who)
    where
      P : PaymentIntent → Database → Type 0
      P = Done codec bank env m body s.session.db route

      go :
          (c : Claim × Store)
          → c.1.session.db ≡ s.session.db
          → ClaimDeclined c.0
          → req.merchant ≡ some m
          → Deed codec P s.session.db
              (after_claim (money_handler codec bank route) (restored req body) c env)
      go (answered reply, s₁) e declined who = inr (declined, e)
      go (first id, s₁) e _ who =
          subst
            (λ d.
              Deed codec (Done codec bank env m body d route) d
                (run_first (money_handler codec bank route) (restored req body) id env s₁))
            e
            (run_first-Deed (Done codec bank env m body s₁.session.db route) id s₁
              (serve codec bank route req.merchant body env s₁.session)
              (subst
                (λ w.
                  Served (Done codec bank env m body s₁.session.db route) s₁.session.db
                    (serve codec bank route w body env s₁.session))
                (sym who)
                (serve-Served codec bank env s₁.session (subst IsValid (sym e) valid) m body
                  route)))
