-- ===== src/Service/Calls/Each.antt =====
-- Each call of nem_pay/api/internal/service/money.go leaves the tables as they are or moves one intent.
use monorepo_payment.Base.{ℕ, ◌≡◌, refl, true, [], arith}
use monorepo_payment.Base.Int.{ℤ, pos, negsuc}
use monorepo_payment.StateMachine.{Status, created, requires_confirmation}
use monorepo_payment.Errors.{Error, Result, ok, err}
use monorepo_payment.Db.{Uuid, PaymentIntent, Database}
use monorepo_payment.Db.Exec.{Env, Session, Atomic}
use monorepo_payment.Bank.{Client, Outcome, approved, declined}
use monorepo_payment.Service.Valid.{IsValid}
use monorepo_payment.Service.Rules.{confirmed_as}
use monorepo_payment.Service.Create.{CreateInput, create}
use monorepo_payment.Service.Create.Outcome.{Created, CreateRefused}
use monorepo_payment.Service.Create.Effect.{create-Atomic}
use monorepo_payment.Service.Confirm.{confirm, Confirmed, ConfirmRefused, confirmable}
use monorepo_payment.Service.Confirm.Effect.{confirm-Atomic}
use monorepo_payment.Service.Capture.{capture, Captured, CaptureRefused}
use monorepo_payment.Service.Capture.Effect.{capture-Atomic}
use monorepo_payment.Service.Refund.{refund, Refunded, RefundRefused}
use monorepo_payment.Service.Refund.Atomic.{refund-Atomic, Amounts}
use monorepo_payment.Service.Release.{release, Released, ReleaseRefused}
use monorepo_payment.Service.Release.Effect.{release-Atomic}
use monorepo_payment.Service.Settle.{settle_one, Settled, SettleRefused, skipped, moved}
use monorepo_payment.Service.Settle.Effect.{settle_one-Atomic}
use monorepo_payment.Service.Expire.{expire_one, may_fail, Expired, ExpireRefused}
use monorepo_payment.Service.Expire.Effect.{expire_one-Atomic}
use monorepo_payment.Service.Calls.{
  Call, confirming, capturing, refunding, releasing, settling, expiring, creating, left, perform,
  Rule, authorizes, fails, captures, settles, refunds, releases, Moves, unchanged, added,
}

Atomic-Moves :
    {A : Type 0} (Q : A → Database → Type 0) (E : Error → Type 0) (now : ℕ) (old : Database)
    (r : Result A × Session)
    → ((a : A) (db : Database) → Q a db → Moves now old db)
    → Atomic Q E old r
    → Moves now old (left r).db
Atomic-Moves Q E now old (ok a, s) h g = h a s.db g
Atomic-Moves Q E now old (err e, s) h g = unchanged g.1

confirmable-may_fail : (s : Status) → confirmable s ≡ true → may_fail s ≡ true
confirmable-may_fail created h = refl
confirmable-may_fail requires_confirmation h = refl
confirmable-may_fail _ h = absurd (ground arith)

confirm-Rule :
    (pi : PaymentIntent) (o : Outcome) → confirmable pi.status ≡ true → Rule pi (confirmed_as o) []
confirm-Rule pi approved h = authorizes (confirmable-may_fail pi.status h)
confirm-Rule pi declined h = fails (confirmable-may_fail pi.status h)

refund-Moves :
    (now : ℕ) (id m : Uuid) (amount : ℤ) (old : Database) (updated : PaymentIntent) (db : Database)
    → Amounts amount (λ n. Refunded now id m n old updated db)
    → Moves now old db
refund-Moves now id m (pos n) old updated db r =
    Moves.moved r.pi updated _ _ (refunds n r.within r.full r.legal) r.advances
refund-Moves now id m (negsuc n) old updated db r = absurd r

settle-Moves :
    (now : ℕ) (id m : Uuid) (old db : Database) → Settled now id m old db → Moves now old db
settle-Moves now id m old db (skipped pi row other same) = unchanged same
settle-Moves now id m old db (moved pi updated row is_captured done) =
    Moves.moved pi updated _ _ (settles is_captured) done

expire-Moves :
    (now : ℕ) (id m : Uuid) (old db : Database) → Expired now id m old db → Moves now old db
expire-Moves now id m old db (Expired.skipped pi row other same) = unchanged same
expire-Moves now id m old db (Expired.moved pi updated row may done) =
    Moves.moved pi updated _ _ (fails may) done

create-Moves :
    (now : ℕ) (m : Uuid) (i : CreateInput) (old : Database) (new : PaymentIntent) (db : Database)
    → Created now m i old new db
    → Moves now old db
create-Moves now m i old new db c = added new c.status c.added c.valid

pub perform-Moves :
    (bank : Client) (call : Call) (env : Env) (s : Session)
    → IsValid s.db
    → Moves env.now s.db (perform bank call env s).db
unfolding perform
perform-Moves bank (confirming id m token) env s v =
    Atomic-Moves (Confirmed env.now bank id m token s.db) (ConfirmRefused env bank s.db id m token)
      env.now s.db (confirm bank id m token env s)
      (λ updated db c.
        Moves.moved c.pi updated _ _ (confirm-Rule c.pi c.outcome c.legal) c.advances)
      (confirm-Atomic env bank id m token s v)
perform-Moves bank (capturing id m) env s v =
    Atomic-Moves (Captured env.now bank id m s.db) (CaptureRefused env bank s.db id m) env.now s.db
      (capture bank id m env s)
      (λ updated db c. Moves.moved c.pi updated _ _ (captures c.legal) c.advances)
      (capture-Atomic env bank id m s v)
perform-Moves bank (refunding id m amount) env s v =
    Atomic-Moves (λ updated db. Amounts amount (λ n. Refunded env.now id m n s.db updated db))
      (RefundRefused env s.db id m amount) env.now s.db (refund id m amount env s)
      (λ updated db. refund-Moves env.now id m amount s.db updated db)
      (refund-Atomic env id m amount s v)
perform-Moves bank (releasing id m) env s v =
    Atomic-Moves (Released env.now id m s.db) (ReleaseRefused env s.db id m) env.now s.db
      (release id m env s)
      (λ updated db c.
        Moves.moved c.pi updated _ _ (releases c.fee c.payee c.fee_within c.of_escrow c.legal)
          c.advances)
      (release-Atomic env id m s v)
perform-Moves bank (settling id m) env s v =
    Atomic-Moves (λ _ db. Settled env.now id m s.db db) (SettleRefused env s.db id m) env.now s.db
      (settle_one id m env s) (λ _ db. settle-Moves env.now id m s.db db)
      (settle_one-Atomic env id m s v)
perform-Moves bank (expiring id m) env s v =
    Atomic-Moves (λ _ db. Expired env.now id m s.db db) (ExpireRefused env s.db id m) env.now s.db
      (expire_one id m env s) (λ _ db. expire-Moves env.now id m s.db db)
      (expire_one-Atomic env id m s v)
perform-Moves bank (creating m i h) env s v =
    Atomic-Moves (Created env.now m i s.db) (CreateRefused env s.db m i) env.now s.db
      (create m i env s) (create-Moves env.now m i s.db) (create-Atomic env m i s h v)
