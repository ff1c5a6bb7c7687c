-- ===== src/Http/Idempotency/Finish.antt =====
-- The end of a request (nem_pay/api/internal/httpapi/idempotency.go): its row is completed or
-- released, or the statement fails.
use monorepo_payment.Http.Idempotency.Inv.{is_job, count_jobs, count_keys, Owns, Inv, Inv-keys}
use monorepo_payment.Base.{
  ◌⊎◌, ℕ, ◌+◌, ◌≤◌, ◌≡◌, refl, sym, ◌∙◌, ap, subst, Bool, true, false, not, some, List, ◌∷◌, Bytes,
  leb, ◌==◌, if◌then◌else◌, find?, update_where, arith, All, All-select, All-map, All-find?,
  Distinct, Distinct-select, delete_id, find?-delete_id, sum_by-delete_id, find?-update_some,
  sum_by-update_same, map-update_where, Bool-cases, inl, inr,
}
use monorepo_payment.Db.{Uuid}
use monorepo_payment.Db.Exec.{Env, Session}
use monorepo_payment.Http.Keys.{
  IdempotencyKey, Store, is_key, completed_row, key_stmt, mark_completed, delete_key, rewrite_keys,
  key_stmt-fails, key_stmt-ok,
}
use monorepo_payment.Http.Idempotency.{
  Request, Handler, Outcome, written, panicked, Reply, handled, write_back, run_first,
}
use monorepo_payment.Http.Idempotency.Traffic.{Job, Traffic, is_final, finished}

-- A statement that rewrites the keys has done so, or has failed.
rewrite_keys-keys :
    (f : List IdempotencyKey → List IdempotencyKey) (env : Env) (s : Store)
    → ((key_stmt (rewrite_keys f) env s).1.keys ≡ s.keys)
      ⊎ ((key_stmt (rewrite_keys f) env s).1.keys ≡ f s.keys)
rewrite_keys-keys f env s = elim (Bool-cases (env.fails s.session.sent)) [
  | inl e ↦ inl (ap (λ x. x.1.keys) (key_stmt-fails (rewrite_keys f) env s e))
  | inr e ↦ inr (ap (λ x. x.1.keys) (key_stmt-ok (rewrite_keys f) env s tt (f s.keys) e refl))
]

module _ (m : Uuid) (k : Bytes) where
  -- What the write-back makes of the keys.
  pub data WriteBack (id : Uuid) (keys : List IdempotencyKey) (reply : Reply)
      (now : List IdempotencyKey) : Type 0 where
    failed : now ≡ keys → WriteBack id keys reply now
    released :
        is_final reply ≡ false → now ≡ delete_id (λ r. r.id) id keys → WriteBack id keys reply now
    stored :
        (code : ℕ) (body : Bytes)
        → now ≡ update_where (λ r. r.id == id) (completed_row code body) keys
        → WriteBack id keys reply now

  module _ (t : Traffic) (job : Job) (found : find? (λ j. j.id == job.id) t.running ≡ some job)
      (h : Inv m k t) where
    abbrev others : List Job
    others = delete_id (λ j. j.id) job.id t.running

    abbrev weight : ℕ
    weight = if is_job m k job then 1 else 0

    fewer_jobs : count_jobs m k others + weight ≡ count_jobs m k t.running
    fewer_jobs =
        sum_by-delete_id (λ j. j.id) (λ j. if is_job m k j then 1 else 0) job.id t.running job
          h.distinct_jobs found

    final_jobs :
        (b : Bool)
        → count_jobs m k (if b then job ∷ t.finals else t.finals) ≤ count_jobs m k t.finals + weight
    final_jobs true = omega arith
    final_jobs false = omega arith

    others_owned :
        (now : List IdempotencyKey)
        → ((j : Job) (r : IdempotencyKey)
            → find? (λ y. y.id == j.id) t.store.keys ≡ some r
            → (j.id == job.id) ≡ false
            → (r' : IdempotencyKey) × (find? (λ y. y.id == j.id) now ≡ some r')
              × (is_key m k r' ≡ is_key m k r))
        → All (Owns m k now) others
    others_owned now keep =
        All-map (λ j. Owns m k t.store.keys j × (not (j.id == job.id) ≡ true)) (Owns m k now)
          (λ j ((r, f, e), ne).
            let (r', f', same) = keep j r f (un_not (j.id == job.id) ne) in (r', f', same ∙ e))
          others (All-select (Owns m k t.store.keys) (λ j. not (j.id == job.id)) t.running h.owned)
      where
        un_not : (b : Bool) → not b ≡ true → b ≡ false
        un_not b e = ground arith

    pub Inv-finished :
        (reply : Reply) (s : Store)
        → WriteBack job.id t.store.keys reply s.keys
        → Inv m k (finished job t (reply, s))
    Inv-finished reply s (failed e) =
        let less = final_jobs (is_final reply) in
        Inv-keys m k (record (finished job t (reply, s)) { store = t.store }) s e
          record {
            distinct_keys = h.distinct_keys;
            distinct_jobs =
                Distinct-select (λ j. j.id) (λ j. not (j.id == job.id)) t.running h.distinct_jobs;
            owned = others_owned t.store.keys (λ j r f ne. (r, f, refl));
            held = omega (arith, less, fewer_jobs, h.held);
            one_key = h.one_key;
          }
    Inv-finished reply s (released dropped e) =
        let keys = t.store.keys in
        let now = delete_id (λ r. r.id) job.id keys in
        let (r, f, same) =
          All-find? (Owns m k keys) (λ j. j.id == job.id) t.running job h.owned found in
        let fewer_keys : count_keys m k now + (if is_key m k r then 1 else 0)
            ≡ count_keys m k keys =
          sum_by-delete_id (λ r. r.id) (λ r. if is_key m k r then 1 else 0) job.id keys r
            h.distinct_keys f in
        let one : (if is_key m k r then 1 else 0) ≡ weight = ap (λ b. if b then 1 else 0) same in
        Inv-keys m k (record (finished job t (reply, s)) { store = record t.store { keys = now } })
          s e
          record {
            distinct_keys =
                Distinct-select (λ r. r.id) (λ r. not (r.id == job.id)) keys h.distinct_keys;
            distinct_jobs =
                Distinct-select (λ j. j.id) (λ j. not (j.id == job.id)) t.running h.distinct_jobs;
            owned =
                others_owned now
                  (λ j r f ne. (r, find?-delete_id (λ y. y.id) job.id j.id keys r f ne, refl));
            held =
                subst
                  (λ b.
                    count_jobs m k (if b then job ∷ t.finals else t.finals) + count_jobs m k others
                    ≤ count_keys m k now)
                  (sym dropped) (omega (arith, fewer_jobs, fewer_keys, one, h.held));
            one_key = omega (arith, fewer_keys, h.one_key);
          }
    Inv-finished reply s (stored code body e) =
        let keys = t.store.keys in
        let now = update_where (λ r. r.id == job.id) (completed_row code body) keys in
        let less = final_jobs (is_final reply) in
        let same_count : count_keys m k now ≡ count_keys m k keys =
          sum_by-update_same (λ r. if is_key m k r then 1 else 0) (completed_row code body)
            (λ _. refl) (λ r. r.id == job.id) keys in
        Inv-keys m k (record (finished job t (reply, s)) { store = record t.store { keys = now } })
          s e
          record {
            distinct_keys =
                subst Distinct
                  (sym (
                    map-update_where (λ r. r.id) (completed_row code body) (λ _. refl)
                      (λ r. r.id == job.id) keys))
                  h.distinct_keys;
            distinct_jobs =
                Distinct-select (λ j. j.id) (λ j. not (j.id == job.id)) t.running h.distinct_jobs;
            owned = others_owned now (λ j r f ne. (
              (if r.id == job.id then completed_row code body r else r),
              find?-update_some (λ y. y.id) (completed_row code body) (λ _. refl)
                  (λ r. r.id == job.id) j.id keys r f,
              same_key code body r (r.id == job.id),
            ));
            held = omega (arith, less, fewer_jobs, same_count, h.held);
            one_key = omega (arith, same_count, h.one_key);
          }
      where
        same_key :
            (code : ℕ) (body : Bytes) (r : IdempotencyKey) (b : Bool)
            → is_key m k (if b then completed_row code body r else r) ≡ is_key m k r
        same_key code body r true = refl
        same_key code body r false = refl

  pub run_first-WriteBack :
      (handler : Handler) (req : Request) (id : Uuid) (env : Env) (s : Store)
      → let (reply, s') = run_first handler req id env s in WriteBack id s.keys reply s'.keys
  unfolding run_first delete_key mark_completed
  run_first-WriteBack handler req id env s = go (handler req env s.session)
    where
      wrote :
          (status : ℕ) (body : Bytes) (session : Session) (b : Bool)
          → leb 500 status ≡ b
          → WriteBack id s.keys
              (handled (written status body))
              ((if b then delete_key id else mark_completed id status body) env
                (record s { session = session })).1.keys
      wrote status body session true e =
          elim (rewrite_keys-keys (delete_id (λ r. r.id) id) env (record s { session = session })) [
            | inl same ↦ failed same
            | inr new ↦ released (ap not e) new
          ]
      wrote status body session false e =
          elim (rewrite_keys-keys (update_where (λ r. r.id == id) (completed_row status body)) env
            (record s { session = session })) [
              | inl same ↦ failed same
              | inr new ↦ stored status body new
            ]

      go :
          (x : Outcome × Session)
          → WriteBack id s.keys
              (handled x.0)
              (write_back id x.0 env (record s { session = x.1 })).1.keys
      go (panicked, session) =
          elim (rewrite_keys-keys (delete_id (λ r. r.id) id) env (record s { session = session })) [
            | inl same ↦ failed same
            | inr new ↦ released refl new
          ]
      go (written status body, session) = wrote status body session (leb 500 status) refl
