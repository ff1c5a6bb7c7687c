-- ===== src/Http/Idempotency.antt =====
-- The idempotency of money requests: `WithIdempotency` and `replayOrConflict` of
-- nem_pay/api/internal/httpapi/idempotency.go, and the sweeps of
-- nem_pay/api/internal/service/idempotency.go.
pub mod Replay
pub mod First
pub mod Traffic
pub mod Inv
pub mod Finish
pub mod Once
pub mod Tests
use monorepo_payment.Base.{
  ℕ, suc, ◌-◌, ◌^◌, Bool, true, false, Option, none, some, List, [], ◌∷◌, Bytes, bytes_eq, length,
  take, ltb, leb, if◌then◌else◌,
}
use monorepo_payment.Errors.{Error, Result, ok, err, unique_violation}
use monorepo_payment.Db.{Uuid}
use monorepo_payment.Db.Exec.{Env, Session}
use monorepo_payment.Http.{
  ErrorType, invalid_request_error, authentication_error, idempotency_error, api_error, ApiError,
  respond_error,
}
use monorepo_payment.Http.Keys.{
  KeyStatus, in_flight, completed, IdempotencyKey, Store, KeyExec, insert_in_flight, get_by_key,
  mark_completed, delete_key, reset_orphans, expire_completed,
}
use monorepo_payment.Http.Fingerprint.{fingerprint}

-- A request as the wrapper sees it: the merchant of the context, the header Idempotency-Key (empty
-- without one), and what reading the body gives, `none` for a read error.
pub record Request : Type 0 where
  pub merchant : Option Uuid
  pub key : Bytes
  pub method : Bytes
  pub uri : Bytes
  pub body : Option Bytes

-- What a handler does: it writes a status and a body, or it panics.
pub data Outcome : Type 0 where
  written : ℕ → Bytes → Outcome
  panicked : Outcome

abbrev pub Handler : Type 0
Handler = Request → Env → Session → Outcome × Session

-- What the client gets.
pub data Reply : Type 0 where
  refused : ApiError → Reply
  handled : Outcome → Reply
  -- with the header Idempotent-Replayed
  replayed : ℕ → Bytes → Reply

-- 1 << 20
abbrev pub max_body : ℕ
max_body = 1048576

-- io.ReadAll over io.LimitReader(…, maxBody+1)
abbrev pub limited : Bytes → Bytes
limited raw = take (suc max_body) raw

-- What a request is answered before the claim, or what it claims.
pub data Admission : Type 0 where
  turned_away : ApiError → Admission
  admitted : Uuid → Bytes → Admission

abbrev pub bounded : Uuid → Bytes → Admission
bounded m body =
    if ltb max_body (length body)
    then turned_away (respond_error 413 invalid_request_error "body_too_large" "")
    else admitted m body

abbrev pub with_body : Uuid → Option Bytes → Admission
with_body m none = turned_away (respond_error 400 invalid_request_error "invalid_body" "")
with_body m (some raw) = bounded m (limited raw)

abbrev pub with_key : Uuid → Bytes → Option Bytes → Admission
with_key m [] raw =
    turned_away
      (respond_error 400 invalid_request_error "missing_idempotency_key" "Idempotency-Key")
with_key m (b ∷ key) raw = with_body m raw

abbrev pub with_merchant : Option Uuid → Bytes → Option Bytes → Admission
with_merchant none key raw =
    turned_away (respond_error 401 authentication_error "authentication_required" "")
with_merchant (some m) key raw = with_key m key raw

unfoldable pub admit : Request → Admission
admit req = with_merchant req.merchant req.key req.body

-- The stored response of a completed key; 200 without a code.
abbrev pub stored_code : Option ℕ → ℕ
stored_code none = 200
stored_code (some code) = code

-- What a duplicate is answered, by the row of its key.
unfoldable pub reply_of : Bytes → IdempotencyKey → Reply
reply_of hash r =
    if bytes_eq r.request_hash hash
    then elim r.status [
      | in_flight ↦ refused (respond_error 409 idempotency_error "request_in_flight" "")
      | completed ↦ replayed (stored_code r.response_code) r.response_body
    ]
    else refused (respond_error 422 idempotency_error "idempotency_key_reused" "Idempotency-Key")

abbrev pub after_lookup : Bytes → Result IdempotencyKey × Store → Reply × Store
after_lookup hash (ok row, s) = (reply_of hash row, s)
after_lookup hash (err e, s) =
    (refused (respond_error 500 api_error "idempotency_lookup_failed" ""), s)

unfoldable pub replay_or_conflict : Uuid → Bytes → Bytes → Env → Store → Reply × Store
replay_or_conflict m key hash env s = after_lookup hash (get_by_key m key env s)

-- What the claim gives: the row of the first caller, or the answer.
pub data Claim : Type 0 where
  first : Uuid → Claim
  answered : Reply → Claim

-- errors.As(err, &pgErr) && pgErr.Code == "23505"
abbrev pub is_unique_violation : Error → Bool
is_unique_violation unique_violation = true
is_unique_violation _ = false

abbrev pub on_conflict : Uuid → Bytes → Bytes → Error → Env → Store → Claim × Store
on_conflict m key hash e env s =
    if is_unique_violation e
    then (let (reply, s') = replay_or_conflict m key hash env s in (answered reply, s'))
    else (answered (refused (respond_error 500 api_error "idempotency_claim_failed" "")), s)

abbrev pub after_insert : Uuid → Bytes → Bytes → Env → Result IdempotencyKey × Store → Claim × Store
after_insert m key hash env (ok row, s) = (first row.id, s)
after_insert m key hash env (err e, s) = on_conflict m key hash e env s

unfoldable pub claim_key : Uuid → Bytes → Bytes → Env → Store → Claim × Store
claim_key m key hash env s = after_insert m key hash env (insert_in_flight m key hash env s)

-- What is written back; its errors are dropped. A panic and a 5xx release the claim.
abbrev pub write_back : Uuid → Outcome → KeyExec (Unit {0})
write_back id panicked = delete_key id
write_back id (written status body) =
    if leb 500 status then delete_key id else mark_completed id status body

-- The first caller: the handler, and the write-back.
unfoldable pub run_first : Handler → Request → Uuid → Env → Store → Reply × Store
run_first handler req id env s =
    let (outcome, session) = handler req env s.session in
    let (r, s') = write_back id outcome env (record s { session = session }) in
    (handled outcome, s')

-- The request with its body restored.
abbrev pub restored : Request → Bytes → Request
restored req body = record req { body = some body }

abbrev pub after_claim : Handler → Request → Claim × Store → Env → Reply × Store
after_claim handler req (first id, s) env = run_first handler req id env s
after_claim handler req (answered reply, s) env = (reply, s)

abbrev pub hash_of : (Bytes → Bytes) → Request → Bytes → Bytes
hash_of digest req body = fingerprint digest req.method req.uri body

unfoldable pub with_idempotency : (Bytes → Bytes) → Handler → Request → Env → Store → Reply × Store
with_idempotency digest handler req env s = elim (admit req) [
  | turned_away e ↦ (refused e, s)
  | admitted m body ↦
      after_claim handler (restored req body) (claim_key m req.key (hash_of digest req body) env s)
        env
]

-- `SweepOrphanedKeys` and `ExpireCompletedKeys`, at the time `now` of the worker.
unfoldable pub sweep_orphaned_keys : ℕ → ℕ → KeyExec (Unit {0})
sweep_orphaned_keys now older_than = reset_orphans (now - older_than)

unfoldable pub expire_completed_keys : ℕ → ℕ → KeyExec (Unit {0})
expire_completed_keys now older_than = expire_completed (now - older_than)
