-- ===== src/Service/Confirm.antt =====
-- `Intents.Confirm` of nem_pay/api/internal/service/money.go.
pub mod Effect
use Prim.Native.String.{String}
use monorepo_payment.Base.{ℕ, ◌≡◌, Bool, true, false, [], Option, none, some, find?, if◌then◌else◌}
use monorepo_payment.StateMachine.{
  Mode, Status, created, requires_confirmation, authorized, failed, status_eq, can_transition,
}
use monorepo_payment.Errors.{Error, db_failure, intent_not_found, invalid_state, bank_unavailable}
use monorepo_payment.Db.{Uuid, PaymentIntent, Database}
use monorepo_payment.Db.Exec.{Env, Exec, Ending, HasFault, in_tx, require, pure, ◌>>=◌, ◌>>◌}
use monorepo_payment.Db.Intents.{is_of}
use monorepo_payment.Bank.{Client, Outcome, approved, declined, AuthorizeRequest}
use monorepo_payment.Service.{lock, advance}
use monorepo_payment.Service.Rules.{Advances, confirmed_as}
use monorepo_payment.Service.Steps.{Found}
use monorepo_payment.Service.Capture.{answer}

-- The walk to requires_confirmation: a created intent passes its edge first.
unfoldable pub walk : Mode → Status → Exec Status
walk mode status =
    if status_eq status created
    then (require (can_transition mode status requires_confirmation) invalid_state
        >> pure requires_confirmation)
    else pure status

abbrev pub next_of : Outcome → Status
next_of approved = authorized
next_of declined = failed

abbrev pub request_of : PaymentIntent → String → AuthorizeRequest
request_of pi token = record {
  intent_id = pi.id;
  amount = pi.amount;
  currency = pi.currency;
  token = token;
}

-- The body of the transaction.
unfoldable pub confirm_body : Client → Uuid → Uuid → String → Exec (Ending PaymentIntent)
confirm_body bank id merchant_id token = do
  pi ← lock id merchant_id
  from ← walk pi.settlement_mode pi.status
  require (status_eq from requires_confirmation) invalid_state
  outcome ← answer (bank.authorize (request_of pi token))
  require (can_transition pi.settlement_mode requires_confirmation (next_of outcome)) invalid_state
  advance pi.id (next_of outcome)

unfoldable pub confirm : Client → Uuid → Uuid → String → Exec PaymentIntent
confirm bank id merchant_id token = in_tx (confirm_body bank id merchant_id token)

-- The statuses that may be confirmed.
abbrev pub confirmable : Status → Bool
confirmable created = true
confirmable requires_confirmation = true
confirmable _ = false

-- Why a confirmation is refused.
pub data ConfirmRefused (env : Env) (bank : Client) (db : Database) (id m : Uuid) (token : String)
    : Error → Type 0 where
  fault : HasFault env → ConfirmRefused env bank db id m token db_failure
  missing :
      find? (is_of id m) db.intents ≡ none → ConfirmRefused env bank db id m token intent_not_found
  state :
      (pi : PaymentIntent)
      → Found db id m pi
      → confirmable pi.status ≡ false
      → ConfirmRefused env bank db id m token invalid_state
  unavailable :
      (pi : PaymentIntent)
      → Found db id m pi
      → bank.authorize (request_of pi token) ≡ none
      → ConfirmRefused env bank db id m token bank_unavailable

-- What an accepted confirmation has done.
pub record Confirmed (now : ℕ) (bank : Client) (id m : Uuid) (token : String) (old : Database)
    (updated : PaymentIntent) (db : Database) : Type 0 where
  pub pi : PaymentIntent
  pub row : Found old id m pi
  pub legal : confirmable pi.status ≡ true
  pub outcome : Outcome
  pub answered : bank.authorize (request_of pi token) ≡ some outcome
  pub advances : Advances old now pi (confirmed_as outcome) [] updated db
