-- ===== src/Http/Idempotency/Once.antt =====
-- A key is answered finally once (nem_pay/api/internal/httpapi/idempotency.go), however requests
-- overlap and whatever fails.
use monorepo_payment.Http.Idempotency.Inv.{count_jobs, count_keys, Inv, Inv-keys, Inv-claim}
use monorepo_payment.Http.Idempotency.Finish.{Inv-finished, run_first-WriteBack}
use monorepo_payment.Base.{
  ◌⊎◌, ◌+◌, ◌≤◌, ◌≡◌, refl, sym, ◌∙◌, ap, subst, Bool, true, false, Option, none, some, List, [],
  ◌∷◌, ◌++◌, Bytes, ◌==◌, ==_eq, find?, arith, find?-passes, Bool-cases, Option-cases, inl, inr,
}
use monorepo_payment.Errors.{no_rows, Result, ok, err, unique_violation}
use monorepo_payment.Db.{Uuid}
use monorepo_payment.Db.Exec.{Env, Session}
use monorepo_payment.Http.Keys.{
  IdempotencyKey, Store, is_key, new_key, add_key, read_key, sent_one, key_stmt, insert_in_flight,
  get_by_key, key_stmt-fails, key_stmt-ok, key_stmt-err,
}
use monorepo_payment.Http.Idempotency.{
  Request, Handler, Admission, turned_away, admitted, admit, after_insert, replay_or_conflict,
  after_lookup, claim_key, run_first, hash_of,
}
use monorepo_payment.Http.Idempotency.Traffic.{
  Job, Traffic, Event, arriving, finishing, elsewhere, with_claim, arrive, finish, happen,
  happen_all,
}

after_lookup-store :
    (hash : Bytes) (x : Result IdempotencyKey × Store) → (after_lookup hash x).1 ≡ x.1
after_lookup-store hash (ok row, s) = refl
after_lookup-store hash (err e, s) = refl

replay_or_conflict-keys :
    (m : Uuid) (key hash : Bytes) (env : Env) (s : Store)
    → (replay_or_conflict m key hash env s).1.keys ≡ s.keys
unfolding replay_or_conflict get_by_key
replay_or_conflict-keys m key hash env s =
    ap (λ x. x.keys) (after_lookup-store hash (key_stmt (read_key m key) env s)) ∙ read
  where
    read : (key_stmt (read_key m key) env s).1.keys ≡ s.keys
    read = elim (Bool-cases (env.fails s.session.sent)) [
      | inl e ↦ ap (λ x. x.1.keys) (key_stmt-fails (read_key m key) env s e)
      | inr e ↦ elim (Option-cases (find? (is_key m key) s.keys)) [
        | inl f ↦
            ap (λ x. x.1.keys)
              (key_stmt-err (read_key m key) env s no_rows e (rw (read_key, f) refl))
        | inr (r, f) ↦
            ap (λ x. x.1.keys)
              (key_stmt-ok (read_key m key) env s r s.keys e (rw (read_key, f) refl))
      ]
    ]

module _ (m : Uuid) (k : Bytes) where
  arrive-Inv :
      (digest : Bytes → Bytes) (req : Request) (env : Env) (t : Traffic) (a : Admission)
      → Inv m k t
      → Inv m k (arrive digest req env t a)
  unfolding claim_key insert_in_flight
  arrive-Inv digest req env t (turned_away e) h = h
  arrive-Inv digest req env t (admitted m' body) h =
      go (env.fails t.store.session.sent) refl
        (Option-cases (find? (is_key m' req.key) t.store.keys))
    where
      hash : Bytes
      hash = hash_of digest req body

      go :
          (b : Bool)
          → env.fails t.store.session.sent ≡ b
          → (find? (is_key m' req.key) t.store.keys ≡ none)
            ⊎ ((r : IdempotencyKey) × (find? (is_key m' req.key) t.store.keys ≡ some r))
          → Inv m k (
              with_claim m' req body t
                (after_insert m' req.key hash env (key_stmt (add_key m' req.key hash) env t.store)))
      go true e found =
          subst (λ x. Inv m k (with_claim m' req body t (after_insert m' req.key hash env x)))
            (sym (key_stmt-fails (add_key m' req.key hash) env t.store e))
            (Inv-keys m k t (sent_one t.store) refl h)
      go false e (inl none_found) =
          let row = new_key m' req.key hash env t.store.keys in
          subst (λ x. Inv m k (with_claim m' req body t (after_insert m' req.key hash env x)))
            (sym (
              key_stmt-ok (add_key m' req.key hash) env t.store row (t.store.keys ++ row ∷ []) e
                (rw (add_key, none_found) refl)))
            (Inv-claim m k req m' body hash env t (sent_one t.store).session none_found h)
      go false e (inr (r, found)) =
          subst (λ x. Inv m k (with_claim m' req body t (after_insert m' req.key hash env x)))
            (sym (
              key_stmt-err (add_key m' req.key hash) env t.store unique_violation e
                (rw (add_key, found) refl)))
            (Inv-keys m k t (replay_or_conflict m' req.key hash env (sent_one t.store)).1
              (replay_or_conflict-keys m' req.key hash env (sent_one t.store)) h)

  happen-Inv :
      (digest : Bytes → Bytes) (handler : Handler) (e : Event) (env : Env) (t : Traffic)
      → Inv m k t
      → Inv m k (happen digest handler e env t)
  unfolding happen
  happen-Inv digest handler (arriving req) env t h = arrive-Inv digest req env t (admit req) h
  happen-Inv digest handler (finishing id) env t h = go (find? (λ j. j.id == id) t.running) refl
    where
      go :
          (o : Option Job)
          → find? (λ j. j.id == id) t.running ≡ o
          → Inv m k (finish handler env t o)
      go none e = h
      go (some job) e =
          let same : job.id ≡ id =
            ==_eq job.id id (find?-passes (λ j. j.id == id) t.running job e) in
          Inv-finished m k t job (ap (λ i. find? (λ j. j.id == i) t.running) same ∙ e) h
            (run_first handler job.request job.id env t.store).0
            (run_first handler job.request job.id env t.store).1
            (run_first-WriteBack m k handler job.request job.id env t.store)
  happen-Inv digest handler (elsewhere session) env t h =
      Inv-keys m k t (record t.store { session = session }) refl h

  happen_all-Inv :
      (digest : Bytes → Bytes) (handler : Handler) (events : List (Env × Event)) (t : Traffic)
      → Inv m k t
      → Inv m k (happen_all digest handler events t)
  unfolding happen_all
  happen_all-Inv digest handler [] t h = h
  happen_all-Inv digest handler ((env, e) ∷ rest) t h =
      happen_all-Inv digest handler rest (happen digest handler e env t)
        (happen-Inv digest handler e env t h)

-- No key yet, and nothing running.
abbrev pub quiet : Session → Traffic
quiet session = record {
  store = record { session = session; keys = [] };
  running = [];
  finals = [];
}

-- From no keys on, in every sequence of arrivals, ends of requests and changes of other tables, however
-- they overlap and whatever statements fail, a merchant and key has at most one row, and the requests
-- that run for it and those that have been answered finally (below 500) are together at most as many:
-- no handler runs for the key at the same time as another, nor after a final answer.
pub happen_all-once :
    (digest : Bytes → Bytes) (handler : Handler) (events : List (Env × Event)) (session : Session)
    (m : Uuid) (k : Bytes)
    → let t = happen_all digest handler events (quiet session) in
      (count_keys m k t.store.keys ≤ 1)
      × (count_jobs m k t.finals + count_jobs m k t.running ≤ count_keys m k t.store.keys)
happen_all-once digest handler events session m k =
    let h = happen_all-Inv m k digest handler events (quiet session) record {
      distinct_keys = tt;
      distinct_jobs = tt;
      owned = tt;
      held = omega arith;
      one_key = omega arith;
    } in
    (h.one_key, h.held)
