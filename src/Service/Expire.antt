-- ===== src/Service/Expire.antt =====
-- `expireOne` of nem_pay/api/internal/service/money.go.
pub mod Effect
use monorepo_payment.Base.{ℕ, ◌≡◌, Bool, true, false, [], List, Option, none, find?, if◌then◌else◌}
use monorepo_payment.StateMachine.{
  Status, created, requires_confirmation, authorized, failed, can_transition,
}
use monorepo_payment.Errors.{Error, db_failure, intent_not_found}
use monorepo_payment.Db.{Uuid, PaymentIntent, Database}
use monorepo_payment.Db.Exec.{Env, Exec, Ending, abandon, HasFault, in_tx, pure, ◌>>=◌}
use monorepo_payment.Db.Intents.{is_of}
use monorepo_payment.Service.{lock, advance}
use monorepo_payment.Service.Rules.{Advances}
use monorepo_payment.Service.Settle.{drop_result}
use monorepo_payment.Service.Steps.{Found}

-- The re-check under the lock: an intent that may not fail any more is left as it is.
unfoldable pub expire_locked : PaymentIntent → Bool → Exec (Ending (Unit {0}))
expire_locked pi false = pure (abandon tt)
expire_locked pi true = do ending ← advance pi.id failed; pure (drop_result ending)

unfoldable pub expire_body : Uuid → Uuid → Exec (Ending (Unit {0}))
expire_body id merchant_id = do
  pi ← lock id merchant_id
  expire_locked pi (can_transition pi.settlement_mode pi.status failed)

unfoldable pub expire_one : Uuid → Uuid → Exec (Unit {0})
expire_one id merchant_id = in_tx (expire_body id merchant_id)

-- The statuses from which an intent may fail.
abbrev pub may_fail : Status → Bool
may_fail created = true
may_fail requires_confirmation = true
may_fail authorized = true
may_fail _ = false

-- Why the expiry of one intent fails.
pub data ExpireRefused (env : Env) (db : Database) (id m : Uuid) : Error → Type 0 where
  fault : HasFault env → ExpireRefused env db id m db_failure
  missing : find? (is_of id m) db.intents ≡ none → ExpireRefused env db id m intent_not_found

-- What it has done: one step to failed without an entry if the intent may fail, and nothing otherwise.
pub data Expired (now : ℕ) (id m : Uuid) (old db : Database) : Type 0 where
  skipped :
      (pi : PaymentIntent)
      → Found old id m pi
      → may_fail pi.status ≡ false
      → db ≡ old
      → Expired now id m old db
  moved :
      (pi updated : PaymentIntent)
      → Found old id m pi
      → may_fail pi.status ≡ true
      → Advances old now pi failed [] updated db
      → Expired now id m old db
