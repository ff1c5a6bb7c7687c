-- ===== src/Service/Sweep.antt =====
-- The sweeps `SettleDueIntents` and `ExpireStaleIntents` of
-- nem_pay/api/internal/service/money.go: up to `sweepBatch` intents, each in its own transaction, up
-- to the first error. A pass gives how many were done, and the error that ended it.
pub mod Loop
use monorepo_payment.Base.{ℕ, suc, ◌-◌, List, [], ◌∷◌, Option, none, some}
use monorepo_payment.Errors.{Error, Result, ok, err}
use monorepo_payment.Db.{Uuid, PaymentIntent}
use monorepo_payment.Db.Exec.{Env, Session, Exec}
use monorepo_payment.Db.Intents.{list_captured_before, list_stale_before}
use monorepo_payment.Service.Settle.{settle_one}
use monorepo_payment.Service.Expire.{expire_one}

-- The results `(n, err)` of a pass.
abbrev pub Pass : Type 0
Pass = (ℕ × Option Error) × Session

-- sweepBatch
abbrev pub sweep_batch : ℕ
sweep_batch = 100

-- The loop over the claimed intents, with `n` done before.
unfoldable pub sweep :
    (Uuid → Uuid → Exec (Unit {0})) → List PaymentIntent → ℕ → Env → Session → Pass
sweep one [] n env s = ((n, none), s)
sweep one (pi ∷ rest) n env s =
    let (r, s') = one pi.id pi.merchant_id env s in
    elim r [ ok _ ↦ sweep one rest (suc n) env s' | err e ↦ ((n, some e), s') ]

-- The sweep over what a query claims, or the error of the query.
unfoldable pub sweep_over :
    (Uuid → Uuid → Exec (Unit {0})) → Exec (List PaymentIntent) → Env → Session → Pass
sweep_over one query env s =
    let (r, s') = query env s in
    elim r [ ok due ↦ sweep one due 0 env s' | err e ↦ ((0, some e), s') ]

-- The cutoff is `older_than` before now.
unfoldable pub settle_due_intents : ℕ → Env → Session → Pass
settle_due_intents older_than env s =
    sweep_over settle_one (list_captured_before (env.now - older_than) sweep_batch) env s

unfoldable pub expire_stale_intents : ℕ → Env → Session → Pass
expire_stale_intents older_than env s =
    sweep_over expire_one (list_stale_before (env.now - older_than) sweep_batch) env s
