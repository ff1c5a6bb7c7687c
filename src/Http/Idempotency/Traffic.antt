-- ===== src/Http/Idempotency/Traffic.antt =====
-- Requests that overlap (nem_pay/api/internal/httpapi/idempotency.go): between its claim and its
-- write-back a first caller is running, other requests arrive, and others finish. A process that
-- crashes leaves its request running for ever.
use monorepo_payment.Base.{
  Bool, false, not, Option, none, some, List, [], ◌∷◌, ◌++◌, Bytes, leb, ◌==◌, if◌then◌else◌, find?,
  delete_id,
}
use monorepo_payment.Db.{Uuid}
use monorepo_payment.Db.Exec.{Env, Session}
use monorepo_payment.Http.Keys.{Store}
use monorepo_payment.Http.Idempotency.{
  Request, Handler, written, Reply, handled, Admission, turned_away, admitted, admit, Claim, first,
  answered, claim_key, run_first, restored, hash_of,
}

-- A first caller that has claimed its key.
pub record Job : Type 0 where
  pub id : Uuid
  pub merchant : Uuid
  pub key : Bytes
  pub request : Request

-- The keys and tables, the first callers that run, and those that have given a final answer.
pub record Traffic : Type 0 where
  pub store : Store
  pub running : List Job
  pub finals : List Job

pub data Event : Type 0 where
  arriving : Request → Event
  finishing : Uuid → Event
  -- other parts of the program change the tables of the services
  elsewhere : Session → Event

abbrev pub job_of : Uuid → Uuid → Request → Bytes → Job
job_of id m req body = record { id = id; merchant = m; key = req.key; request = restored req body }

abbrev pub with_claim : Uuid → Request → Bytes → Traffic → Claim × Store → Traffic
with_claim m req body t (first id, s) = record t {
  store = s;
  running = t.running ++ job_of id m req body ∷ [];
}
with_claim m req body t (answered reply, s) = record t { store = s }

abbrev pub arrive : (Bytes → Bytes) → Request → Env → Traffic → Admission → Traffic
arrive digest req env t (turned_away e) = t
arrive digest req env t (admitted m body) =
    with_claim m req body t (claim_key m req.key (hash_of digest req body) env t.store)

abbrev pub is_final : Reply → Bool
is_final (handled (written status body)) = not (leb 500 status)
is_final _ = false

abbrev pub finished : Job → Traffic → Reply × Store → Traffic
finished job t (reply, s) = record {
  store = s;
  running = delete_id (λ j. j.id) job.id t.running;
  finals = if is_final reply then job ∷ t.finals else t.finals;
}

abbrev pub finish : Handler → Env → Traffic → Option Job → Traffic
finish handler env t none = t
finish handler env t (some job) = finished job t (run_first handler job.request job.id env t.store)

unfoldable pub happen : (Bytes → Bytes) → Handler → Event → Env → Traffic → Traffic
happen digest handler (arriving req) env t = arrive digest req env t (admit req)
happen digest handler (finishing id) env t =
    finish handler env t (find? (λ j. j.id == id) t.running)
happen digest handler (elsewhere session) env t = record t {
  store = record t.store { session = session };
}

unfoldable pub happen_all : (Bytes → Bytes) → Handler → List (Env × Event) → Traffic → Traffic
unfolding happen
happen_all digest handler [] t = t
happen_all digest handler ((env, e) ∷ rest) t =
    happen_all digest handler rest (happen digest handler e env t)
