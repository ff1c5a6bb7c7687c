-- ===== src/StateMachine.antt =====
-- The payment-intent state machine: nem_pay/api/internal/statemachine/intent.go.
-- The strings of settlement modes and statuses are constructors: the CHECK constraints of the
-- table payment_intents admit no others.
pub mod Tests
pub mod Graph
use monorepo_payment.Base.{
  ℕ, Bool, true, false, List, [], ◌∷◌, ◌==◌, ◌≡◌, refl, arith, if◌then◌else◌,
}

pub data Mode : Type 0 where
  direct escrow : Mode

pub data Status : Type 0 where
  created requires_confirmation authorized captured settled held_in_escrow released failed refunded
        partially_refunded :
      Status

abbrev pub mode_rank : Mode → ℕ
mode_rank direct = 0
mode_rank escrow = 1

abbrev pub status_rank : Status → ℕ
status_rank created = 0
status_rank requires_confirmation = 1
status_rank authorized = 2
status_rank captured = 3
status_rank settled = 4
status_rank held_in_escrow = 5
status_rank released = 6
status_rank failed = 7
status_rank refunded = 8
status_rank partially_refunded = 9

-- `==` on the strings.
abbrev pub mode_eq : Mode → Mode → Bool
mode_eq a b = mode_rank a == mode_rank b

abbrev pub status_eq : Status → Status → Bool
status_eq a b = status_rank a == status_rank b

-- The map `allowedEdges`; a status that is no key of the inner map has no successors.
unfoldable pub allowed_edges : Mode → Status → List Status
allowed_edges direct created = requires_confirmation ∷ failed ∷ []
allowed_edges direct requires_confirmation = authorized ∷ failed ∷ []
allowed_edges direct authorized = captured ∷ failed ∷ []
allowed_edges direct captured = settled ∷ refunded ∷ partially_refunded ∷ []
allowed_edges direct settled = refunded ∷ partially_refunded ∷ []
allowed_edges escrow created = requires_confirmation ∷ failed ∷ []
allowed_edges escrow requires_confirmation = authorized ∷ failed ∷ []
allowed_edges escrow authorized = captured ∷ failed ∷ []
allowed_edges escrow captured = held_in_escrow ∷ []
allowed_edges escrow held_in_escrow = released ∷ refunded ∷ []
allowed_edges _ _ = []

-- The loop of `CanTransition` over the successors.
abbrev pub is_next : List Status → Status → Bool
is_next [] to = false
is_next (next ∷ rest) to = if status_eq next to then true else is_next rest to

unfoldable pub can_transition : Mode → Status → Status → Bool
unfolding allowed_edges
can_transition mode from to = is_next (allowed_edges mode from) to
