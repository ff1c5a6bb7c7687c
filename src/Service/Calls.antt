-- ===== src/Service/Calls.antt =====
-- All the calls of the service, in any order: nem_pay/api/internal/service/money.go and `Create` of
-- nem_pay/api/internal/service/payment_intent.go.
pub mod Each
pub mod Keeps
pub mod Deltas
pub mod Held
pub mod Books
pub mod Segregation
use Prim.Native.String.{String}
use monorepo_payment.Base.{ℕ, ◌≤◌, ◌<◌, ◌≡◌, true, List, [], ◌∷◌, ◌++◌}
use monorepo_payment.Base.Int.{ℤ, pos, pos_part, two63}
use monorepo_payment.StateMachine.{
  escrow, Status, created, authorized, captured, released, failed, can_transition,
}
use monorepo_payment.Errors.{Result}
use monorepo_payment.Db.{Uuid, PaymentIntent, Database}
use monorepo_payment.Db.Exec.{Env, Session, Exec}
use monorepo_payment.Bank.{Client}
use monorepo_payment.Ledger.Books.{Line}
use monorepo_payment.Service.Rules.{
  Advances, capture_lines, settle_lines, settled_as, refund_lines, release_lines,
}
use monorepo_payment.Service.Valid.{IsValid}
use monorepo_payment.Service.Create.{CreateInput, create}
use monorepo_payment.Service.Confirm.{confirm}
use monorepo_payment.Service.Capture.{capture}
use monorepo_payment.Service.Refund.{refund, next_of, full_only}
use monorepo_payment.Service.Release.{release}
use monorepo_payment.Service.Settle.{settle_one}
use monorepo_payment.Service.Expire.{expire_one, may_fail}

-- One call of the service.
pub data Call : Type 0 where
  confirming : Uuid → Uuid → String → Call
  capturing : Uuid → Uuid → Call
  refunding : Uuid → Uuid → ℤ → Call
  releasing : Uuid → Uuid → Call
  settling : Uuid → Uuid → Call
  expiring : Uuid → Uuid → Call
  -- an amount of type int64
  creating : Uuid → (i : CreateInput) → pos_part i.amount < two63 → Call

-- What is left after it, whatever it returned.
abbrev pub left : {A : Type 0} → Result A × Session → Session
left (r, s) = s

unfoldable pub perform : Client → Call → Env → Session → Session
perform bank (confirming id m token) env s = left (confirm bank id m token env s)
perform bank (capturing id m) env s = left (capture bank id m env s)
perform bank (refunding id m amount) env s = left (refund id m amount env s)
perform bank (releasing id m) env s = left (release id m env s)
perform bank (settling id m) env s = left (settle_one id m env s)
perform bank (expiring id m) env s = left (expire_one id m env s)
perform bank (creating m i h) env s = left (create m i env s)

-- One after the other, each in its own environment.
unfoldable pub perform_all : Client → List (Env × Call) → Session → Session
perform_all bank [] s = s
perform_all bank ((env, call) ∷ rest) s = perform_all bank rest (perform bank call env s)

-- The movements of an intent: to which status, and with which lines.
pub data Rule (pi : PaymentIntent) : Status → List Line → Type 0 where
  authorizes : may_fail pi.status ≡ true → Rule pi authorized []
  fails : may_fail pi.status ≡ true → Rule pi failed []
  captures :
      can_transition pi.settlement_mode pi.status captured ≡ true
      → Rule pi captured (capture_lines pi.settlement_mode pi.amount)
  settles :
      pi.status ≡ captured
      → Rule pi (settled_as pi.settlement_mode) (settle_lines pi.settlement_mode pi.amount)
  refunds :
      (n : ℕ)
      → n ≤ pi.amount
      → (full_only pi.settlement_mode pi.status ≡ true → n ≡ pi.amount)
      → can_transition pi.settlement_mode pi.status (next_of pi (pos n)) ≡ true
      → Rule pi (next_of pi (pos n)) (refund_lines pi.settlement_mode pi.status n)
  releases :
      (fee : ℕ) (payee : Uuid)
      → fee ≤ pi.amount
      → pi.settlement_mode ≡ escrow
      → can_transition pi.settlement_mode pi.status released ≡ true
      → Rule pi released (release_lines pi.amount fee payee)

-- A call leaves the tables as they are, moves one intent by a rule, or adds a created one.
pub data Moves (now : ℕ) (old db : Database) : Type 0 where
  unchanged : db ≡ old → Moves now old db
  added :
      (new : PaymentIntent)
      → new.status ≡ created
      → db ≡ record old { intents = old.intents ++ new ∷ [] }
      → IsValid db
      → Moves now old db
  moved :
      (pi updated : PaymentIntent) (next : Status) (ls : List Line)
      → Rule pi next ls
      → Advances old now pi next ls updated db
      → Moves now old db
