-- ===== src/Service/Refund/Effect.antt =====
-- What a refund does, and why it refuses (`Intents.Refund` of
-- nem_pay/api/internal/service/money.go).
use monorepo_payment.Base.{ℕ, ◌<◌, ◌≤◌, ◌≡◌, refl, sym, subst, true, false, ◌&&◌, not, arith}
use monorepo_payment.Base.Int.{pos, ltb_ℤ, eq_ℤ}
use monorepo_payment.StateMachine.{
  direct, escrow, Status, captured, settled, refunded, can_transition, status_eq,
}
use monorepo_payment.StateMachine.Graph.{here, step}
use monorepo_payment.Chart.{
  asset, liability, merchant_payable, escrow_liability, segregated_cash, TransactionKind,
}
use monorepo_payment.Errors.{
  Error, db_failure, invalid_state, partial_escrow_refund, refund_exceeds_capture,
  partial_refund_before_settle,
}
use monorepo_payment.Db.{Uuid, PaymentIntent, Database}
use monorepo_payment.Db.Exec.{Env, Session, HasFault, Gives, Ends, Gives-require, Ends-mono}
use monorepo_payment.Service.{account}
use monorepo_payment.Service.Rules.{Advances, refund_lines, refund_kind}
use monorepo_payment.Service.Steps.{
  Found, Found-ids, Found-has_id, account-Gives, per_ref_account-Gives,
}
use monorepo_payment.Service.Posting.{Ready-same}
use monorepo_payment.Service.Pairs.{OpensFor, pair-Gives}
use monorepo_payment.Service.Valid.{IsValid}
use monorepo_payment.Service.Refund.{
  next_of, credit_kind, refund_escrow, refund_direct, full_only, RefundRefused, fault, not_full,
  too_much, before_settle, state, Refunded,
}

credit_kind-eq : (s : Status) → credit_kind s ≡ refund_kind s
credit_kind-eq settled = refl
credit_kind-eq _ = refl

credit_account-OpensFor :
    (env : Env) (E : Error → Type 0) (failed : HasFault env → E db_failure) (old : Database)
    (m : Uuid) (pi : PaymentIntent)
    → OpensFor env E old m pi.currency
        (refund_kind pi.status)
        (account m asset (credit_kind pi.status) pi.currency)
credit_account-OpensFor env E failed old m pi =
    subst
      (λ x.
        OpensFor env E old m pi.currency x (account m asset (credit_kind pi.status) pi.currency))
      (credit_kind-eq pi.status)
      (λ s r. account-Gives env E failed m asset (credit_kind pi.status) pi.currency s r.distinct)

full_next :
    (pi : PaymentIntent) (n : ℕ)
    → eq_ℤ (pos n) (pos pi.amount) ≡ true
    → next_of pi (pos n) ≡ refunded
full_next pi n h = ground arith

full_amount : (pi : PaymentIntent) (n : ℕ) → eq_ℤ (pos n) (pos pi.amount) ≡ true → n ≡ pi.amount
full_amount pi n h = ground arith

not_more : (a n : ℕ) → not (ltb_ℤ (pos a) (pos n)) ≡ true → n ≤ a
not_more a n h = ground arith

partial_test :
    (pi : PaymentIntent) (n : ℕ)
    → not (status_eq pi.status captured && ltb_ℤ (pos n) (pos pi.amount)) ≡ false
    → (pi.status ≡ captured) × (ltb_ℤ (pos n) (pos pi.amount) ≡ true)
partial_test pi n h = ground arith

full_when_captured :
    (pi : PaymentIntent) (n : ℕ)
    → not (status_eq pi.status captured && ltb_ℤ (pos n) (pos pi.amount)) ≡ true
    → n ≤ pi.amount
    → full_only direct pi.status ≡ true
    → n ≡ pi.amount
full_when_captured pi n h le f = ground arith

module _ (env : Env) (id m : Uuid) (n : ℕ) (old : Database) (valid : IsValid old) (positive : 0 < n)
    (pi : PaymentIntent) (row : Found old id m pi) where
  pub refund_escrow-Gives :
      (s : Session)
      → pi.settlement_mode ≡ escrow
      → s.db ≡ old
      → Gives
          (Ends (Refunded env.now id m n old) old)
          (RefundRefused env old id m (pos n))
          (refund_escrow m pi (pos n) env s)
  unfolding refund_escrow
  refund_escrow-Gives s mode same =
      let E = RefundRefused env old id m (pos n) in
      let Q = Ends (Refunded env.now id m n old) old in
      Gives-require env E Q (eq_ℤ (pos n) (pos pi.amount)) partial_escrow_refund _ s
        (not_full pi row mode)
        λ is_full.
          let next = full_next pi n is_full in
          let exact = full_amount pi n is_full in
          Gives-require env E Q (can_transition pi.settlement_mode pi.status refunded) invalid_state
            _ s
            (λ e.
              state pi row
                (subst (λ x. can_transition pi.settlement_mode pi.status x ≡ false) (sym next) e))
            λ legal.
              Ends-mono E (Advances old env.now pi refunded (refund_lines escrow pi.status n))
                (Refunded env.now id m n old) old _
                (λ updated db done. record {
                  pi = pi;
                  row = row;
                  positive = positive;
                  within = omega (arith, exact);
                  full = λ _. exact;
                  legal =
                      subst (λ x. can_transition pi.settlement_mode pi.status x ≡ true) (sym next)
                        legal;
                  advances =
                      subst
                        (λ x.
                          Advances old env.now pi x (refund_lines pi.settlement_mode pi.status n)
                            updated db)
                        (sym next)
                        (subst
                          (λ x.
                            Advances old env.now pi refunded (refund_lines x pi.status n) updated
                              db)
                          (sym mode) done);
                })
                (pair-Gives env E fault old pi refunded m TransactionKind.refund escrow_liability
                  segregated_cash n _ _ s (Found-has_id old id m pi valid.distinct_intents row)
                  (step pi.status here legal) (Found-ids old id m pi row).1 positive
                  (λ s' r.
                    per_ref_account-Gives env E fault m liability escrow_liability pi.currency pi.id
                      s' r.distinct)
                  (λ s' r.
                    account-Gives env E fault m asset segregated_cash pi.currency s' r.distinct)
                  (Ready-same old s.db valid.distinct_accounts same))

  pub refund_direct-Gives :
      (s : Session)
      → pi.settlement_mode ≡ direct
      → s.db ≡ old
      → Gives
          (Ends (Refunded env.now id m n old) old)
          (RefundRefused env old id m (pos n))
          (refund_direct m pi (pos n) env s)
  unfolding refund_direct
  refund_direct-Gives s mode same =
      let E = RefundRefused env old id m (pos n) in
      let Q = Ends (Refunded env.now id m n old) old in
      let next = next_of pi (pos n) in
      Gives-require env E Q (not (ltb_ℤ (pos pi.amount) (pos n))) refund_exceeds_capture _ s
        (λ e. too_much pi row mode (ground arith))
        λ fits.
          let within = not_more pi.amount n fits in
          Gives-require env E Q
            (not (status_eq pi.status captured && ltb_ℤ (pos n) (pos pi.amount)))
            partial_refund_before_settle _ s
            (λ e.
              let (was_captured, less) = partial_test pi n e in
              before_settle pi row mode was_captured less)
            λ allowed.
              Gives-require env E Q (can_transition pi.settlement_mode pi.status next) invalid_state
                _ s (state pi row)
                λ legal.
                  Ends-mono E (Advances old env.now pi next (refund_lines direct pi.status n))
                    (Refunded env.now id m n old) old _
                    (λ updated db done. record {
                      pi = pi;
                      row = row;
                      positive = positive;
                      within = within;
                      full =
                          subst (λ x. full_only x pi.status ≡ true → n ≡ pi.amount) (sym mode)
                            (full_when_captured pi n allowed within);
                      legal = legal;
                      advances =
                          subst
                            (λ x.
                              Advances old env.now pi next (refund_lines x pi.status n) updated db)
                            (sym mode) done;
                    })
                    (pair-Gives env E fault old pi next m TransactionKind.refund merchant_payable
                      (refund_kind pi.status) n _ _ s
                      (Found-has_id old id m pi valid.distinct_intents row)
                      (step pi.status here legal) (Found-ids old id m pi row).1 positive
                      (λ s' r.
                        account-Gives env E fault m liability merchant_payable pi.currency s'
                          r.distinct)
                      (credit_account-OpensFor env E fault old m pi)
                      (Ready-same old s.db valid.distinct_accounts same))
