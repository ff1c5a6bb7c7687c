-- ===== src/Http/Idempotency/Replay.antt =====
-- A key that has been used: `WithIdempotency` and `replayOrConflict` of
-- nem_pay/api/internal/httpapi/idempotency.go.
use monorepo_payment.Base.{
  bytes_eq_sound, bytes_eq_refl, ◌∙◌, not_both, ◌≢◌, none, bytes_eq, Option, ℕ, if◌then◌else◌, ◌≡◌,
  refl, sym, ap, subst, Bool, true, false, some, Bytes, find?, ◌⊎◌, inl, inr,
}
use monorepo_payment.Http.Idempotency.{
  stored_code, in_flight, replayed, completed, KeyStatus, Request, Handler, Reply, refused,
  admitted, admit, reply_of, after_lookup, after_insert, replay_or_conflict, first, on_conflict,
  claim_key, restored, after_claim, hash_of, with_idempotency,
}
use monorepo_payment.Http.{idempotency_error, api_error, respond_error}
use monorepo_payment.Errors.{Error, ok, err, db_failure, unique_violation}
use monorepo_payment.Db.{Uuid}
use monorepo_payment.Db.Exec.{Env, HasFault}
use monorepo_payment.Http.Keys.{
  IdempotencyKey, Store, is_key, add_key, read_key, sent_one, insert_in_flight, get_by_key,
  key_stmt-fails, key_stmt-ok, key_stmt-err,
}

-- Nothing but the count of statements is new.
abbrev pub Untouched : Store → Store → Type 0
Untouched old s = (s.keys ≡ old.keys) × (s.session.db ≡ old.session.db)

abbrev pub lookup_failed : Reply
lookup_failed = refused (respond_error 500 api_error "idempotency_lookup_failed" "")

abbrev pub claim_failed : Reply
claim_failed = refused (respond_error 500 api_error "idempotency_claim_failed" "")

-- What a duplicate may get: the reply `said`, or an error of a statement that failed.
abbrev pub Duplicate : Env → Store → Reply → Reply × Store → Type 0
Duplicate env old said (reply, s) =
    ((reply ≡ said) ⊎ (HasFault env × ((reply ≡ lookup_failed) ⊎ (reply ≡ claim_failed))))
    × Untouched old s

pub with_idempotency-admitted :
    (digest : Bytes → Bytes) (handler : Handler) (req : Request) (env : Env) (s : Store) (m : Uuid)
    (body : Bytes)
    → admit req ≡ admitted m body
    → with_idempotency digest handler req env s
      ≡ after_claim handler
          (restored req body)
          (claim_key m req.key (hash_of digest req body) env s)
          env
unfolding with_idempotency
with_idempotency-admitted digest handler req env s m body e = rw (with_idempotency, e) refl

-- What follows from the answers of the two statements of a claim.
module _ (m : Uuid) (key hash : Bytes) (env : Env) (s s' : Store) where
  pub claim_key-first :
      (row : IdempotencyKey)
      → insert_in_flight m key hash env s ≡ (ok row, s')
      → claim_key m key hash env s ≡ (first row.id, s')
  unfolding claim_key
  claim_key-first row e = ap (after_insert m key hash env) e

  claim_key-err :
      (x : Error)
      → insert_in_flight m key hash env s ≡ (err x, s')
      → claim_key m key hash env s ≡ on_conflict m key hash x env s'
  unfolding claim_key
  claim_key-err x e = ap (after_insert m key hash env) e

  replay_or_conflict-ok :
      (row : IdempotencyKey)
      → get_by_key m key env s ≡ (ok row, s')
      → replay_or_conflict m key hash env s ≡ (reply_of hash row, s')
  unfolding replay_or_conflict
  replay_or_conflict-ok row e = ap (after_lookup hash) e

  replay_or_conflict-err :
      (x : Error)
      → get_by_key m key env s ≡ (err x, s')
      → replay_or_conflict m key hash env s ≡ (lookup_failed, s')
  unfolding replay_or_conflict
  replay_or_conflict-err x e = ap (after_lookup hash) e

replay_or_conflict-Duplicate :
    (m : Uuid) (key hash : Bytes) (env : Env) (s : Store) (row : IdempotencyKey)
    → find? (is_key m key) s.keys ≡ some row
    → Duplicate env s (reply_of hash row) (replay_or_conflict m key hash env s)
unfolding get_by_key
replay_or_conflict-Duplicate m key hash env s row found = go (env.fails s.session.sent) refl
  where
    go :
        (b : Bool)
        → env.fails s.session.sent ≡ b
        → Duplicate env s (reply_of hash row) (replay_or_conflict m key hash env s)
    go true e =
        subst (Duplicate env s (reply_of hash row))
          (sym (
            replay_or_conflict-err m key hash env s (sent_one s) db_failure
              (key_stmt-fails (read_key m key) env s e)))
          (inr ((s.session.sent, e), inl refl), (refl, refl))
    go false e =
        subst (Duplicate env s (reply_of hash row))
          (sym (
            replay_or_conflict-ok m key hash env s (sent_one s) row
              (key_stmt-ok (read_key m key) env s row s.keys e (rw (read_key, found) refl))))
          (inl refl, (refl, refl))

pub with_idempotency-reply :
    (digest : Bytes → Bytes) (handler : Handler) (req : Request) (env : Env) (s : Store) (m : Uuid)
    (body : Bytes) (row : IdempotencyKey)
    → admit req ≡ admitted m body
    → find? (is_key m req.key) s.keys ≡ some row
    → Duplicate env s
        (reply_of (hash_of digest req body) row)
        (with_idempotency digest handler req env s)
unfolding insert_in_flight
with_idempotency-reply digest handler req env s m body row admits found =
    subst (Duplicate env s (reply_of hash row))
      (sym (with_idempotency-admitted digest handler req env s m body admits))
      (go (env.fails s.session.sent) refl)
  where
    hash : Bytes
    hash = hash_of digest req body

    go :
        (b : Bool)
        → env.fails s.session.sent ≡ b
        → Duplicate env s
            (reply_of hash row)
            (after_claim handler (restored req body) (claim_key m req.key hash env s) env)
    go true e =
        subst
          (λ c. Duplicate env s (reply_of hash row) (after_claim handler (restored req body) c env))
          (sym (
            claim_key-err m req.key hash env s (sent_one s) db_failure
              (key_stmt-fails (add_key m req.key hash) env s e)))
          (inr ((s.session.sent, e), inr refl), (refl, refl))
    go false e =
        subst
          (λ c. Duplicate env s (reply_of hash row) (after_claim handler (restored req body) c env))
          (sym (
            claim_key-err m req.key hash env s (sent_one s) unique_violation (
              key_stmt-err (add_key m req.key hash) env s unique_violation e
                (rw (add_key, found) refl))))
          (replay_or_conflict-Duplicate m req.key hash env (sent_one s) row found)

-- What the row of a key says to a request with the fingerprint `hash`.
pub data Says (hash : Bytes) (row : IdempotencyKey) : Reply → Type 0 where
  stored :
      (code : ℕ)
      → row.request_hash ≡ hash
      → row.status ≡ completed
      → row.response_code ≡ some code
      → Says hash row (replayed code row.response_body)
  -- a completed row without a status code
  bare :
      row.request_hash ≡ hash
      → row.status ≡ completed
      → row.response_code ≡ none
      → Says hash row (replayed 200 row.response_body)
  busy :
      row.request_hash ≡ hash
      → row.status ≡ in_flight
      → Says hash row (refused (respond_error 409 idempotency_error "request_in_flight" ""))
  reused :
      row.request_hash ≢ hash
      → Says hash row
          (refused (respond_error 422 idempotency_error "idempotency_key_reused" "Idempotency-Key"))

pub reply_of-Says : (hash : Bytes) (row : IdempotencyKey) → Says hash row (reply_of hash row)
unfolding reply_of
reply_of-Says hash row =
    go (bytes_eq row.request_hash hash) row.status row.response_code refl refl refl
  where
    go :
        (b : Bool) (st : KeyStatus) (code : Option ℕ)
        → bytes_eq row.request_hash hash ≡ b
        → row.status ≡ st
        → row.response_code ≡ code
        → Says hash row (
            if b
            then elim st [
              | in_flight ↦ refused (respond_error 409 idempotency_error "request_in_flight" "")
              | completed ↦ replayed (stored_code code) row.response_body
            ]
            else refused
                (respond_error 422 idempotency_error "idempotency_key_reused" "Idempotency-Key"))
    go false st code e is_st is_code =
        reused λ same. not_both e (ap (λ h. bytes_eq h hash) same ∙ bytes_eq_refl hash)
    go true in_flight code e is_st is_code = busy (bytes_eq_sound row.request_hash hash e) is_st
    go true completed none e is_st is_code =
        bare (bytes_eq_sound row.request_hash hash e) is_st is_code
    go true completed (some code) e is_st is_code =
        stored code (bytes_eq_sound row.request_hash hash e) is_st is_code

-- Its reply is what the row says, or a 500 after a failed statement; no key and no table changes.
abbrev pub Answers : Env → Store → Bytes → IdempotencyKey → Reply × Store → Type 0
Answers env old hash row (reply, s) =
    (Says hash row reply ⊎ (HasFault env × ((reply ≡ lookup_failed) ⊎ (reply ≡ claim_failed))))
    × Untouched old s
