-- ===== src/Http/Idempotency/Inv.antt =====
-- What holds of the keys and of the requests that run
-- (nem_pay/api/internal/httpapi/idempotency.go), and that a claim keeps it.
use monorepo_payment.Base.{
  ℕ, ◌+◌, ◌≤◌, ◌≡◌, ◌≢◌, refl, sym, ◌∙◌, subst, Bool, true, false, ◌&&◌, none, some, List, [], ◌∷◌,
  ◌++◌, Bytes, bytes_eq, bytes_eq_sound, ◌==◌, ==_refl, ==_eq, if◌then◌else◌, find?, map, arith,
  All, All-map, IsNew, Distinct, Distinct-add, sum_by-none_found, find?-append, find?-append_none,
  find?-IsNew, find?-ne_of_IsNew, find?-passes, sum_by, sum_by-append,
}
use monorepo_payment.Db.{Uuid}
use monorepo_payment.Db.Exec.{Env, Session}
use monorepo_payment.Http.Keys.{IdempotencyKey, Store, is_key, new_key}
use monorepo_payment.Http.Idempotency.{Request, first}
use monorepo_payment.Http.Idempotency.Traffic.{Job, Traffic, job_of, with_claim}

All-snoc :
    {A : Type 0} (P : A → Type 0) (xs : List A) (a : A) → All P xs → P a → All P (xs ++ a ∷ [])
All-snoc P [] a h k = (k, tt)
All-snoc P (x ∷ xs) a h k = (h.0, All-snoc P xs a h.1 k)

abbrev pub ids_of : List IdempotencyKey → List ℕ
ids_of keys = map (λ r. r.id) keys

-- Counts for one merchant and key.
module _ (m : Uuid) (k : Bytes) where
  abbrev pub is_job : Job → Bool
  is_job j = j.merchant == m && bytes_eq j.key k

  abbrev pub count_jobs : List Job → ℕ
  count_jobs js = sum_by (λ j. if is_job j then 1 else 0) js

  abbrev pub count_keys : List IdempotencyKey → ℕ
  count_keys keys = sum_by (λ r. if is_key m k r then 1 else 0) keys

  -- A running caller has its row.
  abbrev pub Owns : List IdempotencyKey → Job → Type 0
  Owns keys j =
      (r : IdempotencyKey) × (find? (λ y. y.id == j.id) keys ≡ some r) × (is_key m k r ≡ is_job j)

  pub record Inv (t : Traffic) : Type 0 where
    pub distinct_keys : Distinct (ids_of t.store.keys)
    pub distinct_jobs : Distinct (map (λ j. j.id) t.running)
    pub owned : All (Owns t.store.keys) t.running
    pub held : count_jobs t.finals + count_jobs t.running ≤ count_keys t.store.keys
    pub one_key : count_keys t.store.keys ≤ 1

  -- Only the keys matter, not the session.
  pub Inv-keys :
      (t : Traffic) (s : Store) → s.keys ≡ t.store.keys → Inv t → Inv (record t { store = s })
  Inv-keys t s e h = record {
    distinct_keys = subst (λ ks. Distinct (ids_of ks)) (sym e) h.distinct_keys;
    distinct_jobs = h.distinct_jobs;
    owned = subst (λ ks. All (Owns ks) t.running) (sym e) h.owned;
    held = subst (λ ks. count_jobs t.finals + count_jobs t.running ≤ count_keys ks) (sym e) h.held;
    one_key = subst (λ ks. count_keys ks ≤ 1) (sym e) h.one_key;
  }

  -- The new id of a key is no running caller's.
  jobs-IsNew :
      (keys : List IdempotencyKey) (n : ℕ) (js : List Job)
      → IsNew n (ids_of keys)
      → All (Owns keys) js
      → IsNew n (map (λ j. j.id) js)
  jobs-IsNew keys n [] new h = tt
  jobs-IsNew keys n (j ∷ js) new ((r, found, same), rest) =
      let ne : r.id ≢ n = find?-ne_of_IsNew (λ y. y.id) (λ y. y.id == j.id) n keys r new found in
      let e : r.id ≡ j.id = ==_eq r.id j.id (find?-passes (λ y. y.id == j.id) keys r found) in
      ((λ h. ne (e ∙ h)), jobs-IsNew keys n js new rest)

  -- A row for another merchant or key does not count, and one for this one is the first.
  add-count :
      (m' : Uuid) (k' : Bytes) (keys : List IdempotencyKey)
      → find? (is_key m' k') keys ≡ none
      → count_keys keys ≤ 1
      → count_keys keys + (if m' == m && bytes_eq k' k then 1 else 0) ≤ 1
  add-count m' k' keys none_found one = go (m' == m && bytes_eq k' k) refl
    where
      both : (a b : Bool) → (a && b) ≡ true → (a ≡ true) × (b ≡ true)
      both a b e = (ground arith, ground arith)

      go : (b : Bool) → (m' == m && bytes_eq k' k) ≡ b → count_keys keys + (if b then 1 else 0) ≤ 1
      go true e =
          let (em, ek) = both (m' == m) (bytes_eq k' k) e in
          let none_here : find? (is_key m k) keys ≡ none =
            subst (λ x. find? (is_key x k) keys ≡ none) (==_eq m' m em)
              (subst (λ x. find? (is_key m' x) keys ≡ none) (bytes_eq_sound k' k ek) none_found) in
          let zero_here : count_keys keys ≡ 0 = sum_by-none_found (is_key m k) keys none_here in
          omega (arith, zero_here)
      go false e = omega (arith, one)

  pub Inv-claim :
      (req : Request) (m' : Uuid) (body hash : Bytes) (env : Env) (t : Traffic) (session : Session)
      → find? (is_key m' req.key) t.store.keys ≡ none
      → Inv t
      → let row = new_key m' req.key hash env t.store.keys in
        Inv (
          with_claim m' req body t
            (first row.id, record { session = session; keys = t.store.keys ++ row ∷ [] }))
  Inv-claim req m' body hash env t session none_found h =
      let keys = t.store.keys in
      let row = new_key m' req.key hash env keys in
      let job = job_of row.id m' req body in
      let new : IsNew row.id (ids_of keys) = env.gen_new (ids_of keys) in
      let weight : ℕ = if m' == m && bytes_eq req.key k then 1 else 0 in
      let keys_now : count_keys (keys ++ row ∷ []) ≡ count_keys keys + weight =
        sum_by-append (λ r. if is_key m k r then 1 else 0) keys (row ∷ []) ∙ omega arith in
      let jobs_now : count_jobs (t.running ++ job ∷ []) ≡ count_jobs t.running + weight =
        sum_by-append (λ j. if is_job j then 1 else 0) t.running (job ∷ []) ∙ omega arith in
      record {
        distinct_keys = Distinct-add (λ r. r.id) keys row h.distinct_keys new;
        distinct_jobs =
            Distinct-add (λ j. j.id) t.running job h.distinct_jobs
              (jobs-IsNew keys row.id t.running new h.owned);
        owned =
            All-snoc (Owns (keys ++ row ∷ [])) t.running job
              (All-map (Owns keys) (Owns (keys ++ row ∷ []))
                (λ j (r, f, e). (r, find?-append (λ y. y.id == j.id) keys (row ∷ []) r f, e))
                t.running h.owned)
              (
                row,
                find?-append_none (λ y. y.id == row.id) keys (row ∷ [])
                      (find?-IsNew (λ y. y.id) row.id keys new)
                    ∙ rw (==_refl row.id) refl,
                refl,
              );
        held = omega (arith, keys_now, jobs_now, h.held);
        one_key = omega (arith, keys_now, add-count m' req.key keys none_found h.one_key);
      }
