-- ===== src/StateMachine/Tests.antt =====
-- Runs of the state machine (nem_pay/api/internal/statemachine/intent.go).
use monorepo_payment.Base.{◌≡◌, refl, true, false, ◌↔◌}
use monorepo_payment.StateMachine.{
  Status, escrow, created, requires_confirmation, authorized, captured, settled, released,
  can_transition,
}
use monorepo_payment.StateMachine.Graph.{
  Walk, here, step, no_return, is_terminal, is_foreign, modes_apart, terminal_iff,
}

escrow_never_settles : can_transition escrow captured settled ≡ false
unfolding can_transition
escrow_never_settles = refl

capture_edge : can_transition escrow authorized captured ≡ true
unfolding can_transition
capture_edge = refl

to_authorized : Walk escrow created authorized
unfolding can_transition
to_authorized = step requires_confirmation (step created here refl) refl

no_return_example : ¬ Walk escrow captured authorized
no_return_example = no_return escrow authorized captured capture_edge

modes_apart_example : is_foreign escrow authorized ≡ false
modes_apart_example = modes_apart escrow authorized to_authorized

terminal_iff_example :
    (is_terminal escrow released ≡ true) ↔ ((t : Status) → can_transition escrow released t ≡ false)
terminal_iff_example = terminal_iff escrow released
