-- ===== src/Http/Idempotency/Tests.antt =====
-- Requests with an Idempotency-Key (nem_pay/api/internal/httpapi/idempotency.go).
use monorepo_payment.Base.{
  ◌⊎◌, take, ℕ, suc, ◌+◌, ◌≤◌, ◌≡◌, ◌≢◌, refl, some, none, List, [], ◌∷◌, Bytes, bytes_eq, arith,
}
use monorepo_payment.Http.Fingerprint.{fingerprint, NulFree, Collision, framed, fingerprint-same}
use monorepo_payment.Db.{empty_db}
use monorepo_payment.Db.Exec.{Env, Session}
use monorepo_payment.Http.Keys.{
  IdempotencyKey, Store, is_key, new_key, completed_row, key_stmt, insert_in_flight, get_by_key,
  mark_completed, delete_key,
}
use monorepo_payment.Http.Idempotency.{
  Request, Handler, written, handled, replayed, admit, admitted, reply_of, replay_or_conflict,
  claim_key, run_first, hash_of, with_idempotency,
}
use monorepo_payment.Http.Idempotency.Replay.{Untouched}
use monorepo_payment.Http.Idempotency.First.{
  FirstCall, kept, with_idempotency-First, with_idempotency-retry,
}
use monorepo_payment.Http.Idempotency.Traffic.{Event, arriving, finishing, happen, happen_all}
use monorepo_payment.Http.Idempotency.Inv.{count_jobs, count_keys}
use monorepo_payment.Http.Idempotency.Once.{quiet, happen_all-once}
use monorepo_payment.Service.Tests.{calm}

-- POST /v1 with the key "k".
abbrev request : Request
request = record {
  merchant = some 5;
  key = b'k' ∷ [];
  method = 80 ∷ [];
  uri = 47 ∷ [];
  body = some (1 ∷ 2 ∷ []);
}

-- 201 with the body that was sent.
abbrev echo : Handler
echo req env s = elim req.body [ none ↦ (written 201 [], s) | some b ↦ (written 201 b, s) ]

-- A toy digest.
abbrev plain : Bytes → Bytes
plain b = b

abbrev at_rest : Session
at_rest = record { db = empty_db; sent = 0 }

abbrev no_keys : Store
no_keys = record { session = at_rest; keys = [] }

abbrev used : Store
used = (with_idempotency plain echo request calm no_keys).1

admitted_request : admit request ≡ admitted 5 (1 ∷ 2 ∷ [])
unfolding admit
admitted_request = refl

abbrev earlier : IdempotencyKey
earlier =
    completed_row 201 (9 ∷ []) (new_key 5 (b'k' ∷ []) (hash_of plain request (1 ∷ 2 ∷ [])) calm [])

abbrev with_earlier : Store
with_earlier = record no_keys { keys = earlier ∷ [] }

with_idempotency-First_example :
    FirstCall
      (is_key 5 (b'k' ∷ []))
      (kept 5
        (b'k' ∷ [])
        (hash_of plain request (1 ∷ 2 ∷ []))
        calm
        no_keys
        (written 201 (1 ∷ 2 ∷ [])))
      (written 201 (1 ∷ 2 ∷ []))
      empty_db
      (with_idempotency plain echo request calm no_keys)
with_idempotency-First_example =
    with_idempotency-First plain echo request calm no_keys 5 (1 ∷ 2 ∷ []) (λ _. refl)
      admitted_request refl

with_idempotency-retry_example :
    ((with_idempotency plain echo request calm no_keys).0 ≡ handled (written 201 (1 ∷ 2 ∷ [])))
    × ((with_idempotency plain echo request calm used).0 ≡ replayed 201 (1 ∷ 2 ∷ []))
    × Untouched used (with_idempotency plain echo request calm used).1
with_idempotency-retry_example =
    with_idempotency-retry plain echo request calm calm no_keys used 5 (1 ∷ 2 ∷ []) 201 (1 ∷ 2 ∷ [])
      (λ _. refl) (λ _. refl) admitted_request refl refl (omega arith) refl

-- The request twice, before and after the first of them ends.
abbrev rush : List (Env × Event)
rush =
    (calm, arriving request)
    ∷ (calm, arriving request)
    ∷ (calm, finishing 1)
    ∷ (calm, arriving request)
    ∷ []

rush_ends : count_jobs 5 (b'k' ∷ []) (happen_all plain echo rush (quiet at_rest)).finals ≡ 1
unfolding happen_all happen admit claim_key insert_in_flight key_stmt replay_or_conflict get_by_key
    reply_of run_first mark_completed delete_key bytes_eq
rush_ends = refl

happen_all-once_example :
    let t = happen_all plain echo rush (quiet at_rest) in
    (count_keys 5 (b'k' ∷ []) t.store.keys ≤ 1)
    × (count_jobs 5 (b'k' ∷ []) t.finals + count_jobs 5 (b'k' ∷ []) t.running
        ≤ count_keys 5 (b'k' ∷ []) t.store.keys)
happen_all-once_example = happen_all-once plain echo rush at_rest 5 (b'k' ∷ [])

abbrev no_body : Bytes
no_body = []

abbrev get : Bytes
get = 71 ∷ 69 ∷ 84 ∷ []

abbrev root : Bytes
root = 47 ∷ []

-- A digest of one byte, which is not injective.
abbrev first_byte : Bytes → Bytes
first_byte b = take 1 b

-- GET / without a body and GET / with a body of one byte.
fingerprint-same_example :
    ((get ≡ get) × (root ≡ root) × (no_body ≡ root))
    ⊎ Collision first_byte (framed get root []) (framed get root root)
unfolding fingerprint framed
fingerprint-same_example =
    fingerprint-same first_byte get root [] get root root get_NulFree root_NulFree get_NulFree
      root_NulFree refl
  where
    no_nul : (n : ℕ) → suc n ≢ 0
    no_nul n e = absurd (omega (arith, e))

    get_NulFree : NulFree get
    get_NulFree = (no_nul 70, (no_nul 68, (no_nul 83, tt)))

    root_NulFree : NulFree root
    root_NulFree = (no_nul 46, tt)
