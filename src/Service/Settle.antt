-- ===== src/Service/Settle.antt =====
-- `settleOne` and `SettleDueIntents` of nem_pay/api/internal/service/money.go.
pub mod Effect
use monorepo_payment.Base.{
  ℕ, ◌≡◌, Bool, true, false, not, [], ◌∷◌, List, Option, none, some, find?, if◌then◌else◌,
}
use monorepo_payment.Base.Int.{pos}
use monorepo_payment.StateMachine.{
  Mode, escrow, mode_eq, Status, captured, settled, held_in_escrow, status_eq, can_transition,
}
use monorepo_payment.Chart.{
  AccountKind, asset, acquirer_receivable, platform_cash, segregated_cash, TransactionKind,
}
use monorepo_payment.Errors.{Error, db_failure, intent_not_found, invalid_state}
use monorepo_payment.Db.{Uuid, PaymentIntent, Database}
use monorepo_payment.Db.Exec.{
  Env, Exec, Ending, abandon, commit, HasFault, in_tx, require, pure, ◌>>=◌, ◌>>◌,
}
use monorepo_payment.Db.Intents.{is_of}
use monorepo_payment.Ledger.{post_transaction}
use monorepo_payment.Service.{lock, account, debit_leg, credit_leg, advance}
use monorepo_payment.Service.Rules.{Advances, settle_lines, settled_as}
use monorepo_payment.Service.Steps.{Found}

-- The destination by mode.
abbrev pub target_of : Mode → Status
target_of mode = if mode_eq mode escrow then held_in_escrow else settled

abbrev pub cash_of : Mode → AccountKind
cash_of mode = if mode_eq mode escrow then segregated_cash else platform_cash

unfoldable pub settle_captured : Uuid → PaymentIntent → Exec (Ending PaymentIntent)
settle_captured merchant_id pi = do
  require (can_transition pi.settlement_mode pi.status (target_of pi.settlement_mode)) invalid_state
  cash ← account merchant_id asset (cash_of pi.settlement_mode) pi.currency
  recv ← account merchant_id asset acquirer_receivable pi.currency
  post_transaction merchant_id TransactionKind.settle (some pi.id) (
      debit_leg cash (pos pi.amount) pi.currency ∷ credit_leg recv (pos pi.amount) pi.currency ∷ [])
  advance pi.id (target_of pi.settlement_mode)

-- The updated intent is not returned.
abbrev pub drop_result : Ending PaymentIntent → Ending (Unit {0})
drop_result (commit updated) = commit tt
drop_result (abandon updated) = abandon tt

-- Re-check under the lock: another worker may have settled it already.
unfoldable pub settle_locked : Uuid → PaymentIntent → Bool → Exec (Ending (Unit {0}))
settle_locked merchant_id pi false = pure (abandon tt)
settle_locked merchant_id pi true = do
  ending ← settle_captured merchant_id pi
  pure (drop_result ending)

unfoldable pub settle_body : Uuid → Uuid → Exec (Ending (Unit {0}))
settle_body id merchant_id = do
  pi ← lock id merchant_id
  settle_locked merchant_id pi (status_eq pi.status captured)

unfoldable pub settle_one : Uuid → Uuid → Exec (Unit {0})
settle_one id merchant_id = in_tx (settle_body id merchant_id)

-- Why the settlement of one intent fails.
pub data SettleRefused (env : Env) (db : Database) (id m : Uuid) : Error → Type 0 where
  fault : HasFault env → SettleRefused env db id m db_failure
  missing : find? (is_of id m) db.intents ≡ none → SettleRefused env db id m intent_not_found

-- What it has done: nothing to an intent that is not captured, and otherwise one step.
pub data Settled (now : ℕ) (id m : Uuid) (old db : Database) : Type 0 where
  skipped :
      (pi : PaymentIntent)
      → Found old id m pi
      → status_eq pi.status captured ≡ false
      → db ≡ old
      → Settled now id m old db
  moved :
      (pi updated : PaymentIntent)
      → Found old id m pi
      → pi.status ≡ captured
      → Advances old now pi
          (settled_as pi.settlement_mode)
          (settle_lines pi.settlement_mode pi.amount)
          updated
          db
      → Settled now id m old db
