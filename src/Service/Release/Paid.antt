-- ===== src/Service/Release/Paid.antt =====
-- What `Intents.Release` (nem_pay/api/internal/service/money.go) posts.
use monorepo_payment.Base.{
  ℕ, ◌-◌, ◌≤◌, ◌<◌, ◌≡◌, refl, sym, subst, true, List, [], ◌∷◌, ◌++◌, none, some, arith, find?,
}
use monorepo_payment.Base.Int.{pos}
use monorepo_payment.StateMachine.{released, can_transition}
use monorepo_payment.StateMachine.Graph.{here, step}
use monorepo_payment.Chart.{
  asset, liability, revenue, platform_cash, segregated_cash, escrow_liability, payable_to_payee,
  platform_revenue, TransactionKind,
}
use monorepo_payment.Errors.{Error, db_failure}
use monorepo_payment.Db.{Uuid, PaymentIntent, Database}
use monorepo_payment.Db.Exec.{Env, Session, HasFault, Gives, Ends, Gives-bind}
use monorepo_payment.Db.Intents.{has_id}
use monorepo_payment.Db.Accounts.{Owned}
use monorepo_payment.Ledger.{Leg}
use monorepo_payment.Ledger.Books.{Line}
use monorepo_payment.Ledger.Post.{Prepared}
use monorepo_payment.Service.{account, per_ref_account, debit_leg, credit_leg}
use monorepo_payment.Service.Rules.{Advances, release_lines, Posted, dr, cr, unless_zero}
use monorepo_payment.Service.Steps.{
  account-Gives, per_ref_account-Gives, per_ref_account-Refers, advance-Gives,
}
use monorepo_payment.Service.Posting.{
  Ready, Ready-open, Owned-Grows, debit_good, credit_good, post-Gives, debit_total, credit_total,
}
use monorepo_payment.Service.Pairs.{OpensFor-OpensRef}
use monorepo_payment.Service.Release.Legs.{
  Prepared-Grows, Prepared-append, release_balanced, credit_if-Gives,
}
use monorepo_payment.Service.Release.{
  fee_of, payee_amount, release_paid, release_legs, release_post,
}

pub release_total :
    (a fee : ℕ) (payee : Uuid)
    → fee ≤ a
    → debit_total (release_lines a fee payee) ≡ credit_total (release_lines a fee payee)
release_total a fee payee h =
    omega (arith, release_balanced a fee payable_to_payee platform_revenue (some payee) none h)

module _ (env : Env) (E : Error → Type 0) (failed : HasFault env → E db_failure) (old : Database)
    (m : Uuid) (pi : PaymentIntent) where
  -- The legs that are always there.
  abbrev first_lines : ℕ → List Line
  first_lines n = dr escrow_liability n ∷ dr platform_cash n ∷ cr segregated_cash n ∷ []

  abbrev first_legs : ℕ → Uuid → Uuid → Uuid → List Leg
  first_legs n liab cash seg =
      debit_leg liab (pos n) pi.currency
      ∷ debit_leg cash (pos n) pi.currency
      ∷ credit_leg seg (pos n) pi.currency
      ∷ []

  release_first :
      (n : ℕ) (s : Session) (liab cash seg : Uuid)
      → 0 < n
      → Owned s.db.accounts m pi.currency escrow_liability liab
      → Owned s.db.accounts m pi.currency platform_cash cash
      → Owned s.db.accounts m pi.currency segregated_cash seg
      → Prepared s.db.accounts m pi.currency (first_lines n) (first_legs n liab cash seg)
  release_first n s liab cash seg positive a b c = (
    a,
    tt,
    refl,
    refl,
    debit_good liab n pi.currency positive,
    refl,
    (
      b,
      tt,
      refl,
      refl,
      debit_good cash n pi.currency positive,
      refl,
      (c, tt, refl, refl, credit_good seg n pi.currency positive, refl, tt),
    ),
  )

  -- From the optional legs on.
  release_tail-Gives :
      (payee : Uuid) (fee : ℕ) (s : Session) (liab cash seg : Uuid)
      → find? (has_id pi.id) old.intents ≡ some pi
      → can_transition pi.settlement_mode pi.status released ≡ true
      → pi.merchant_id ≡ m
      → fee ≤ pi.amount
      → Prepared s.db.accounts m pi.currency
          (first_lines pi.amount)
          (first_legs pi.amount liab cash seg)
      → Ready old s.db
      → Gives
          (Ends (Advances old env.now pi released (release_lines pi.amount fee payee)) old)
          E
          (release_paid m pi payee (pos (pi.amount - fee)) (pos fee) liab cash seg env s)
  unfolding release_paid
  release_tail-Gives payee fee s liab cash seg found legal owner within first r =
      let c = pi.currency in
      let Q = Ends (Advances old env.now pi released (release_lines pi.amount fee payee)) old in
      Gives-bind env E _ Q _ _ s
        (credit_if-Gives env E old m c payable_to_payee (some payee)
          (per_ref_account m liability payable_to_payee c payee) (pi.amount - fee) s
          (λ w x.
            per_ref_account-Refers env E failed m liability payable_to_payee c payee w x.distinct)
          r)
        λ xs s₁ (r₁, g₁, p₁).
          Gives-bind env E _ Q _ _ s₁
            (credit_if-Gives env E old m c platform_revenue none
              (account m revenue platform_revenue c) fee s₁
              (OpensFor-OpensRef env E old m c platform_revenue
                (account m revenue platform_revenue c)
                λ w x. account-Gives env E failed m revenue platform_revenue c w x.distinct)
              r₁)
            λ ys s₂ (r₂, g₂, p₂).
              Gives-bind env E _ Q _ _ s₂
                (post-Gives env E failed old m c TransactionKind.release (some pi.id) _ _
                  (release_legs pi liab cash seg xs ys) s₂ r₂
                  (Prepared-append s₂.db.accounts m c (first_lines pi.amount)
                    (unless_zero payable_to_payee (some payee) (pi.amount - fee)
                      ++ unless_zero platform_revenue none fee)
                    (first_legs pi.amount liab cash seg) (xs ++ ys)
                    (Prepared-Grows s₁.db.accounts s₂.db.accounts m c (first_lines pi.amount)
                      (first_legs pi.amount liab cash seg) g₂
                      (Prepared-Grows s.db.accounts s₁.db.accounts m c (first_lines pi.amount)
                        (first_legs pi.amount liab cash seg) g₁ first))
                    (Prepared-append s₂.db.accounts m c
                      (unless_zero payable_to_payee (some payee) (pi.amount - fee))
                      (unless_zero platform_revenue none fee) xs ys
                      (Prepared-Grows s₁.db.accounts s₂.db.accounts m c
                        (unless_zero payable_to_payee (some payee) (pi.amount - fee)) xs g₂ p₁)
                      p₂))
                  (release_total pi.amount fee payee within))
                λ t s₃ posted.
                  advance-Gives env E failed old pi released (release_lines pi.amount fee payee) s₃
                    found (step pi.status here legal)
                    (subst (λ x. Posted old x pi.currency (release_lines pi.amount fee payee) s₃.db)
                      (sym owner) posted)

  pub release_post-Gives :
      (payee : Uuid) (fee : ℕ) (s : Session)
      → find? (has_id pi.id) old.intents ≡ some pi
      → can_transition pi.settlement_mode pi.status released ≡ true
      → pi.merchant_id ≡ m
      → 0 < pi.amount
      → fee_of pi.application_fee ≡ pos fee
      → payee_amount pi ≡ pos (pi.amount - fee)
      → fee ≤ pi.amount
      → Ready old s.db
      → Gives
          (Ends (Advances old env.now pi released (release_lines pi.amount fee payee)) old)
          E
          (release_post m pi payee env s)
  unfolding release_post
  release_post-Gives payee fee s found legal owner positive fee_e payee_e within r =
      let c = pi.currency in
      let ls = release_lines pi.amount fee payee in
      let Q = Ends (Advances old env.now pi released ls) old in
      Gives-bind env E _ Q _ _ s
        (per_ref_account-Gives env E failed m liability escrow_liability c pi.id s r.distinct)
        λ liab s₁ o₁.
          let r₁ = Ready-open old s.db liab s₁.db r o₁ in
          Gives-bind env E _ Q _ _ s₁
            (account-Gives env E failed m asset segregated_cash c s₁ r₁.distinct)
            λ seg s₂ o₂.
              let r₂ = Ready-open old s₁.db seg s₂.db r₁ o₂ in
              Gives-bind env E _ Q _ _ s₂
                (account-Gives env E failed m asset platform_cash c s₂ r₂.distinct)
                λ cash s₃ o₃.
                  let r₃ = Ready-open old s₂.db cash s₃.db r₂ o₃ in
                  subst
                    (λ x.
                      Gives Q E (
                        release_paid m pi payee x (fee_of pi.application_fee) liab cash seg env s₃))
                    (sym payee_e)
                    (subst
                      (λ x.
                        Gives Q E
                          (release_paid m pi payee (pos (pi.amount - fee)) x liab cash seg env s₃))
                      (sym fee_e)
                      (release_tail-Gives payee fee s₃ liab cash seg found legal owner within
                        (release_first pi.amount s₃ liab cash seg positive
                          (Owned-Grows s₂.db.accounts s₃.db.accounts m c escrow_liability liab
                            o₃.grows
                            (Owned-Grows s₁.db.accounts s₂.db.accounts m c escrow_liability liab
                              o₂.grows o₁.there))
                          o₃.there
                          (Owned-Grows s₂.db.accounts s₃.db.accounts m c segregated_cash seg
                            o₃.grows o₂.there))
                        r₃))
