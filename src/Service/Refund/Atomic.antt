-- ===== src/Service/Refund/Atomic.antt =====
-- The whole refund: one transaction over the branch of the intent's mode.
use monorepo_payment.Base.{
  ℕ, zero, suc, ◌<◌, ◌≡◌, refl, sym, subst, true, false, if◌then◌else◌, arith,
}
use monorepo_payment.Base.Int.{ℤ, pos, negsuc, leb_ℤ}
use monorepo_payment.StateMachine.{Mode, direct, escrow}
use monorepo_payment.Errors.{invalid_amount}
use monorepo_payment.Db.{Uuid, PaymentIntent, Database}
use monorepo_payment.Db.Exec.{
  Env, Session, Gives, Atomic, Ends, Gives-bind, Atomic-in_tx, raise, in_tx,
}
use monorepo_payment.Service.Steps.{Found, begin-Gives}
use monorepo_payment.Service.Valid.{IsValid}
use monorepo_payment.Service.Refund.{
  refund_locked, refund_body, refund, RefundRefused, fault, not_positive, missing, Refunded,
}
use monorepo_payment.Service.Refund.Effect.{refund_escrow-Gives, refund_direct-Gives}

refund_locked-Gives :
    (env : Env) (id m : Uuid) (n : ℕ) (old : Database)
    → IsValid old
    → 0 < n
    → (pi : PaymentIntent) (mode : Mode) (s : Session) → Found old id m pi
    → pi.settlement_mode ≡ mode
    → s.db ≡ old
    → Gives
        (Ends (Refunded env.now id m n old) old)
        (RefundRefused env old id m (pos n))
        (refund_locked mode m pi (pos n) env s)
unfolding refund_locked
refund_locked-Gives env id m n old v p pi direct s row e same =
    refund_direct-Gives env id m n old v p pi row s e same
refund_locked-Gives env id m n old v p pi escrow s row e same =
    refund_escrow-Gives env id m n old v p pi row s e same

refund_body-Gives :
    (env : Env) (id m : Uuid) (n : ℕ) (old : Database) (s : Session)
    → IsValid old
    → 0 < n
    → s.db ≡ old
    → Gives
        (Ends (Refunded env.now id m n old) old)
        (RefundRefused env old id m (pos n))
        (refund_body id m (pos n) env s)
unfolding refund_body
refund_body-Gives env id m n old s v p same =
    let E = RefundRefused env old id m (pos n) in
    Gives-bind env E _ (Ends (Refunded env.now id m n old) old) _ _ s
      (begin-Gives env E fault id m s old same missing)
      λ pi s₁ (row, same₁).
        refund_locked-Gives env id m n old v p pi pi.settlement_mode s₁ row refl same₁

positive_test : (k : ℕ) → leb_ℤ (pos (suc k)) (pos 0) ≡ false
positive_test k = ground arith

negative_test : (n : ℕ) → leb_ℤ (negsuc n) (pos 0) ≡ true
negative_test n = ground arith

-- The amount that a positive int64 stands for.
abbrev pub Amounts : ℤ → (ℕ → Type 0) → Type 0
Amounts (pos n) P = P n
Amounts (negsuc n) P = ⊥

pub refund-Atomic :
    (env : Env) (id m : Uuid) (amount : ℤ) (s : Session)
    → IsValid s.db
    → Atomic
        (λ updated db. Amounts amount (λ n. Refunded env.now id m n s.db updated db))
        (RefundRefused env s.db id m amount)
        s.db
        (refund id m amount env s)
unfolding refund
refund-Atomic env id m (negsuc n) s v =
    subst
      (λ b.
        Atomic (λ updated db. ⊥) (RefundRefused env s.db id m (negsuc n)) s.db
          ((if b then raise invalid_amount else in_tx (refund_body id m (negsuc n))) env s))
      (sym (negative_test n)) (not_positive (negative_test n), refl)
refund-Atomic env id m (pos zero) s v = (not_positive refl, refl)
refund-Atomic env id m (pos (suc k)) s v =
    subst
      (λ b.
        Atomic (λ updated db. Refunded env.now id m (suc k) s.db updated db)
          (RefundRefused env s.db id m (pos (suc k))) s.db
          ((if b then raise invalid_amount else in_tx (refund_body id m (pos (suc k)))) env s))
      (sym (positive_test k))
      (Atomic-in_tx env (RefundRefused env s.db id m (pos (suc k))) fault
        (Refunded env.now id m (suc k) s.db) (refund_body id m (pos (suc k))) s
        (refund_body-Gives env id m (suc k) s.db (record s { sent = suc s.sent }) v (omega arith)
          refl))
