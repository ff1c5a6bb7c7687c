-- ===== src/Http/Idempotency/First.antt =====
-- The first caller of a key, and the retry of its request: `WithIdempotency` of
-- nem_pay/api/internal/httpapi/idempotency.go.
use monorepo_payment.Http.Idempotency.Replay.{
  Untouched, with_idempotency-admitted, claim_key-first, with_idempotency-reply,
}
use monorepo_payment.Base.{
  not_both, ℕ, ◌<◌, ◌≡◌, refl, sym, ◌∙◌, ap, subst, Bool, true, false, not, Option, none, some,
  List, [], ◌∷◌, ◌++◌, Bytes, bytes_eq_refl, leb, ◌==◌, ==_refl, if◌then◌else◌, find?, select,
  update_where, arith, inl, inr, Bool-cases,
}
use monorepo_payment.Db.Exec.{IsCalm, Env, Session}
use monorepo_payment.Db.{Uuid, Database}
use monorepo_payment.Http.Keys.{
  IdempotencyKey, Store, is_key, new_key, add_key, completed_row, sent_one, key_stmt,
  insert_in_flight, mark_completed, delete_key, key_stmt-ok,
}
use monorepo_payment.Http.Idempotency.{
  Request, Handler, Outcome, written, panicked, Reply, handled, replayed, admitted, admit, reply_of,
  write_back, run_first, restored, after_claim, hash_of, with_idempotency,
}

-- The row of a first caller once its outcome is written back: released rows are gone.
abbrev pub stored_row : Uuid → Bytes → Bytes → ℕ → Bytes → Env → Store → IdempotencyKey
stored_row m key hash status body env s = completed_row status body (new_key m key hash env s.keys)

abbrev pub kept : Uuid → Bytes → Bytes → Env → Store → Outcome → Option IdempotencyKey
kept m key hash env s panicked = none
kept m key hash env s (written status body) =
    if leb 500 status then none else some (stored_row m key hash status body env s)

find?-stored :
    (p q : IdempotencyKey → Bool) (f : IdempotencyKey → IdempotencyKey) (xs : List IdempotencyKey)
    (r : IdempotencyKey)
    → ((x : IdempotencyKey) → p (f x) ≡ p x)
    → find? p xs ≡ none
    → p r ≡ true
    → q r ≡ true
    → find? p (update_where q f (xs ++ r ∷ [])) ≡ some (f r)
find?-stored p q f [] r keeps h hp hq = ground (arith, keeps r)
find?-stored p q f (x ∷ xs) r keeps h hp hq = ground (arith, keeps x, find?-stored p q f xs r keeps)

find?-released :
    (p q : IdempotencyKey → Bool) (xs : List IdempotencyKey) (r : IdempotencyKey)
    → find? p xs ≡ none
    → q r ≡ false
    → find? p (select q (xs ++ r ∷ [])) ≡ none
find?-released p q [] r h hq = ground arith
find?-released p q (x ∷ xs) r h hq = ground (arith, find?-released p q xs r)

-- What a first call gives.
abbrev pub FirstCall :
    (IdempotencyKey → Bool) → Option IdempotencyKey → Outcome → Database → Reply × Store → Type 0
FirstCall p row outcome db (reply, s) =
    (reply ≡ handled outcome) × (s.session.db ≡ db) × (find? p s.keys ≡ row)

run_first-First :
    (handler : Handler) (req : Request) (m : Uuid) (key hash : Bytes) (env : Env) (old s : Store)
    → IsCalm env
    → find? (is_key m key) old.keys ≡ none
    → s.keys ≡ old.keys ++ new_key m key hash env old.keys ∷ []
    → let (outcome, session) = handler req env s.session in
      FirstCall
        (is_key m key)
        (kept m key hash env old outcome)
        outcome
        session.db
        (run_first handler req (new_key m key hash env old.keys).id env s)
unfolding run_first delete_key mark_completed key_stmt
run_first-First handler req m key hash env old s calm none_found keys =
    go (handler req env s.session)
  where
    row : IdempotencyKey
    row = new_key m key hash env old.keys

    gone : find? (is_key m key) (select (λ r. not (r.id == row.id)) s.keys) ≡ none
    gone =
        ap (λ ks. find? (is_key m key) (select (λ r. not (r.id == row.id)) ks)) keys
        ∙ find?-released (is_key m key) (λ r. not (r.id == row.id)) old.keys row none_found
            (ap not (==_refl row.id))

    go :
        (x : Outcome × Session)
        → FirstCall (is_key m key) (kept m key hash env old x.0) x.0 x.1.db (
            let (r, s') = write_back row.id x.0 env (record s { session = x.1 }) in
            (handled x.0, s'))
    go (panicked, session) = rw (calm session.sent) (refl, refl, gone)
    go (written status body, session) = elim (Bool-cases (leb 500 status)) [
      | inl e ↦ rw (e, calm session.sent) (refl, refl, gone)
      | inr e ↦
          rw (e, calm session.sent)
            (
              refl,
              refl,
              ap
                    (λ ks.
                      find? (is_key m key)
                        (update_where (λ r. r.id == row.id) (completed_row status body) ks))
                    keys
                  ∙ find?-stored (is_key m key) (λ r. r.id == row.id) (completed_row status body)
                      old.keys row (λ _. refl) none_found (ground (arith, bytes_eq_refl key))
                      (==_refl row.id),
            )
    ]

-- With no statement failing, a request whose key has no row runs its handler on the tables as they are
-- and is answered what the handler gives; the key then stands for that answer if it is final, and has
-- no row if the handler panicked or gave a 5xx.
pub with_idempotency-First :
    (digest : Bytes → Bytes) (handler : Handler) (req : Request) (env : Env) (s : Store) (m : Uuid)
    (body : Bytes)
    → IsCalm env
    → admit req ≡ admitted m body
    → find? (is_key m req.key) s.keys ≡ none
    → let (outcome, session) = handler (restored req body) env (sent_one s).session in
      FirstCall
        (is_key m req.key)
        (kept m req.key (hash_of digest req body) env s outcome)
        outcome
        session.db
        (with_idempotency digest handler req env s)
unfolding insert_in_flight
with_idempotency-First digest handler req env s m body calm admits none_found =
    let hash = hash_of digest req body in
    let row = new_key m req.key hash env s.keys in
    let claimed : Store = record (sent_one s) { keys = s.keys ++ row ∷ [] } in
    let (outcome, session) = handler (restored req body) env (sent_one s).session in
    subst (FirstCall (is_key m req.key) (kept m req.key hash env s outcome) outcome session.db)
      (sym (
        with_idempotency-admitted digest handler req env s m body admits
        ∙ ap (λ c. after_claim handler (restored req body) c env)
            (claim_key-first m req.key hash env s claimed row (
              key_stmt-ok (add_key m req.key hash) env s row (s.keys ++ row ∷ [])
                (calm s.session.sent) (rw (add_key, none_found) refl)))))
      (run_first-First handler (restored req body) m req.key hash env s claimed calm none_found
        refl)

reply_of-completed :
    (hash : Bytes) (status : ℕ) (out : Bytes) (row : IdempotencyKey)
    → row.request_hash ≡ hash
    → reply_of hash (completed_row status out row) ≡ replayed status out
unfolding reply_of
reply_of-completed hash status out row same = rw (same, bytes_eq_refl hash) refl

-- The same request again gets the first answer again: with no statement failing, if the handler of a
-- request whose key had no row gave a final answer (below 500), then the request, sent again over
-- whatever tables with the keys as the first call left them, replays that status and body and changes
-- no table.
pub with_idempotency-retry :
    (digest : Bytes → Bytes) (handler : Handler) (req : Request) (env env' : Env) (s s' : Store)
    (m : Uuid) (body : Bytes) (status : ℕ) (out : Bytes)
    → IsCalm env
    → IsCalm env'
    → admit req ≡ admitted m body
    → find? (is_key m req.key) s.keys ≡ none
    → (handler (restored req body) env (sent_one s).session).0 ≡ written status out
    → status < 500
    → s'.keys ≡ (with_idempotency digest handler req env s).1.keys
    → ((with_idempotency digest handler req env s).0 ≡ handled (written status out))
      × ((with_idempotency digest handler req env' s').0 ≡ replayed status out)
      × Untouched s' (with_idempotency digest handler req env' s').1
with_idempotency-retry digest handler req env env' s s' m body status out calm calm' admits
      none_found gives final keys =
    let hash = hash_of digest req body in
    let (reply, db_same, row_is) =
      with_idempotency-First digest handler req env s m body calm admits none_found in
    let stored = stored_row m req.key hash status out env s in
    let stands : kept m req.key hash env s (written status out) ≡ some stored = ground arith in
    let found : find? (is_key m req.key) s'.keys ≡ some stored =
      ap (find? (is_key m req.key)) keys ∙ row_is ∙ ap (kept m req.key hash env s) gives ∙ stands in
    let (answer, same) =
      with_idempotency-reply digest handler req env' s' m body stored admits found in
    (
      reply ∙ ap handled gives,
      elim answer [
        | inl e ↦ e ∙ reply_of-completed hash status out (new_key m req.key hash env s.keys) refl
        | inr (fault, e) ↦ absurd (not_both (calm' fault.0) fault.1)
      ],
      same,
    )
