-- ===== src/Service/Confirm/Effect.antt =====
-- What a confirmation does, and why it refuses (`Intents.Confirm` of
-- nem_pay/api/internal/service/money.go).
use monorepo_payment.Base.{subst, ℕ, suc, ◌≡◌, refl, sym, ◌∙◌, true, [], arith, not_both}
use monorepo_payment.Db.{PaymentIntent, Uuid, Database}
use Prim.Native.String.{String}
use monorepo_payment.StateMachine.{
  Mode, direct, escrow, Status, created, requires_confirmation, status_eq, can_transition,
}
use monorepo_payment.StateMachine.Graph.{Walk, here, step}
use monorepo_payment.Errors.{Error, invalid_state}
use monorepo_payment.Db.Exec.{
  Env, Session, Gives, Atomic, Ends, Gives-bind, Gives-require, Atomic-in_tx, Ends-mono, ◌>>=◌,
}
use monorepo_payment.Bank.{Client, Outcome, approved, declined}
use monorepo_payment.Service.{advance}
use monorepo_payment.Service.Rules.{Advances, confirmed_as}
use monorepo_payment.Service.Steps.{Found-has_id, begin-Gives, advance-Gives}
use monorepo_payment.Service.Posting.{Ready-same, Ready-Posted}
use monorepo_payment.Service.Valid.{IsValid}
use monorepo_payment.Service.Capture.Effect.{answer-Gives}
use monorepo_payment.Service.Confirm.{
  walk, next_of, request_of, confirm_body, confirm, confirmable, ConfirmRefused, fault, missing,
  state, unavailable, Confirmed,
}

-- The walk ends at requires_confirmation exactly for the confirmable statuses.
walk-Gives :
    (env : Env) (E : Error → Type 0) (mode : Mode) (status : Status) (s : Session)
    → Gives
        (λ from db. (status_eq from requires_confirmation ≡ confirmable status) × (db ≡ s.db))
        E
        (walk mode status env s)
unfolding walk can_transition ◌>>=◌
walk-Gives env E direct created s = (refl, refl)
walk-Gives env E escrow created s = (refl, refl)
walk-Gives env E mode requires_confirmation s = (refl, refl)
walk-Gives env E mode _ s = (refl, refl)

next_of_lem : (o : Outcome) → next_of o ≡ confirmed_as o
next_of_lem approved = refl
next_of_lem declined = refl

confirmed_step :
    (old : Database) (now : ℕ) (pi : PaymentIntent) (o : Outcome) (updated : PaymentIntent)
    (db : Database)
    → Advances old now pi (next_of o) [] updated db
    → Advances old now pi (confirmed_as o) [] updated db
confirmed_step old now pi o updated db =
    subst (λ t. Advances old now pi t [] updated db) (next_of_lem o)

confirm_edges :
    (mode : Mode) (o : Outcome) → can_transition mode requires_confirmation (next_of o) ≡ true
unfolding can_transition
confirm_edges mode o = ground arith

confirm_walk :
    (mode : Mode) (s : Status) (o : Outcome) → confirmable s ≡ true → Walk mode s (next_of o)
unfolding can_transition
confirm_walk direct created o h =
    step requires_confirmation (step created here refl) (confirm_edges direct o)
confirm_walk escrow created o h =
    step requires_confirmation (step created here refl) (confirm_edges escrow o)
confirm_walk mode requires_confirmation o h = step requires_confirmation here (confirm_edges mode o)
confirm_walk mode _ o h = absurd (ground arith)

module _ (env : Env) (bank : Client) (id m : Uuid) (token : String) (old : Database)
    (valid : IsValid old) where
  confirm_body-Gives :
      (s : Session)
      → s.db ≡ old
      → Gives
          (Ends (Confirmed env.now bank id m token old) old)
          (ConfirmRefused env bank old id m token)
          (confirm_body bank id m token env s)
  unfolding confirm_body
  confirm_body-Gives s same =
      let E = ConfirmRefused env bank old id m token in
      let Q = Ends (Confirmed env.now bank id m token old) old in
      Gives-bind env E _ Q _ _ s (begin-Gives env E fault id m s old same missing)
        λ pi s₁ (row, same₁).
          Gives-bind env E _ Q _ _ s₁ (walk-Gives env E pi.settlement_mode pi.status s₁)
            λ from s₂ (reached, same₂).
              Gives-require env E Q (status_eq from requires_confirmation) invalid_state _ s₂
                (λ e. state pi row (sym reached ∙ e))
                λ e.
                  let legal : confirmable pi.status ≡ true = sym reached ∙ e in
                  Gives-bind env E _ Q _ _ s₂
                    (answer-Gives env E (bank.authorize (request_of pi token)) s₂
                      (λ none_e. unavailable pi row none_e))
                    λ outcome s₃ (answered, same₃).
                      Gives-require env E Q
                        (can_transition pi.settlement_mode requires_confirmation (next_of outcome))
                        invalid_state _ s₃
                        (λ no_edge.
                          absurd (not_both no_edge (confirm_edges pi.settlement_mode outcome)))
                        λ _.
                          Ends-mono E (Advances old env.now pi (next_of outcome) [])
                            (Confirmed env.now bank id m token old) old
                            (advance pi.id (next_of outcome) env s₃)
                            (λ updated db done. record {
                              pi = pi;
                              row = row;
                              legal = legal;
                              outcome = outcome;
                              answered = answered;
                              advances = confirmed_step old env.now pi outcome updated db done;
                            })
                            (advance-Gives env E fault old pi (next_of outcome) [] s₃
                              (Found-has_id old id m pi valid.distinct_intents row)
                              (confirm_walk pi.settlement_mode pi.status outcome legal)
                              (Ready-Posted old s₃.db pi.merchant_id pi.currency (
                                Ready-same old s₃.db valid.distinct_accounts
                                  (same₃ ∙ same₂ ∙ same₁))))

-- On valid tables a confirmation either reports why it is refused and leaves every table as it was, in
-- particular when the bank did not answer, or the bank has answered and one step without any ledger
-- entry is done: to authorized if it approved and to failed if it declined, with one event.
pub confirm-Atomic :
    (env : Env) (bank : Client) (id m : Uuid) (token : String) (s : Session)
    → IsValid s.db
    → Atomic
        (Confirmed env.now bank id m token s.db)
        (ConfirmRefused env bank s.db id m token)
        s.db
        (confirm bank id m token env s)
unfolding confirm
confirm-Atomic env bank id m token s valid =
    Atomic-in_tx env (ConfirmRefused env bank s.db id m token) fault
      (Confirmed env.now bank id m token s.db) (confirm_body bank id m token) s
      (confirm_body-Gives env bank id m token s.db valid (record s { sent = suc s.sent }) refl)
