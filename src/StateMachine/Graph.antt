-- ===== src/StateMachine/Graph.antt =====
-- What the transition graph of statemachine/intent.go guarantees over whole histories.
use monorepo_payment.Base.{ℕ, ◌<◌, ◌≤◌, ◌≡◌, refl, Bool, true, false, arith, ◌↔◌}
use monorepo_payment.StateMachine.{
  Mode, direct, escrow, Status, created, requires_confirmation, authorized, captured, settled,
  held_in_escrow, released, failed, refunded, partially_refunded, can_transition,
}

-- A history of legal edges of one mode, oldest first: the statuses entered one after the other.
-- `Walk mode from to` : `to` can be entered from `from` by legal edges of the mode.
pub data Walk (mode : Mode) : Status → Status → Type 0 where
  here : {s : Status} → Walk mode s s
  step :
      {s u : Status} (t : Status) → Walk mode s t → can_transition mode t u ≡ true → Walk mode s u

-- How far an intent has come: every edge leads further.
abbrev pub progress : Status → ℕ
progress created = 0
progress requires_confirmation = 1
progress authorized = 2
progress captured = 3
progress settled = 4
progress held_in_escrow = 4
progress _ = 5

pub progress-can_transition :
    (mode : Mode) (from to : Status)
    → can_transition mode from to ≡ true
    → progress from < progress to
unfolding can_transition
progress-can_transition mode from to h = ground arith

progress-Walk : {mode : Mode} {s u : Status} → Walk mode s u → progress s ≤ progress u
progress-Walk here = omega arith
progress-Walk {mode = m} {u = u} (step t w h) =
    omega (arith, progress-Walk w, progress-can_transition m t u h)

-- The graph has no cycle: after any legal edge the status left behind is never entered again.
pub no_return :
    (mode : Mode) (from to : Status) → can_transition mode from to ≡ true → ¬ Walk mode to from
no_return mode from to h w =
    absurd (omega (arith, progress-can_transition mode from to h, progress-Walk w))

-- The statuses with no way on, of each mode.
abbrev pub is_terminal : Mode → Status → Bool
is_terminal mode failed = true
is_terminal mode released = true
is_terminal mode refunded = true
is_terminal mode partially_refunded = true
is_terminal direct held_in_escrow = true
is_terminal escrow settled = true
is_terminal mode _ = false

-- What each mode can never be in, when it starts at `created`.
abbrev pub is_foreign : Mode → Status → Bool
is_foreign direct held_in_escrow = true
is_foreign direct released = true
is_foreign escrow settled = true
is_foreign escrow partially_refunded = true
is_foreign mode _ = false

not_foreign_edge :
    (mode : Mode) (from to : Status)
    → can_transition mode from to ≡ true
    → is_foreign mode to ≡ false
unfolding can_transition
not_foreign_edge direct created to h = ground arith
not_foreign_edge _ _ to h = ground arith

-- From `created`, no sequence of legal edges brings an intent into a status of the other mode: a
-- direct intent is never held_in_escrow or released, an escrow intent never settled or partially
-- refunded.
pub modes_apart : (mode : Mode) (s : Status) → Walk mode created s → is_foreign mode s ≡ false
modes_apart mode s here = ground arith
modes_apart mode s (step t w h) = not_foreign_edge mode t s h

terminal_stuck :
    (mode : Mode) (s t : Status) → is_terminal mode s ≡ true → can_transition mode s t ≡ false
unfolding can_transition
terminal_stuck direct created t h = ground arith
terminal_stuck _ _ t h = ground arith

-- A way on from each status that has one.
abbrev pub way_on : Mode → Status → Status
way_on mode created = failed
way_on mode requires_confirmation = failed
way_on mode authorized = captured
way_on direct captured = settled
way_on escrow captured = held_in_escrow
way_on mode s = refunded

way_on-can_transition :
    (mode : Mode) (s : Status)
    → is_terminal mode s ≡ false
    → can_transition mode s (way_on mode s) ≡ true
unfolding can_transition
way_on-can_transition direct created h = refl
way_on-can_transition _ _ h = ground arith

-- In either mode a status is terminal (failed, released, refunded, partially_refunded, or the
-- settled form of the other mode) exactly when the state machine refuses every edge out of it.
pub terminal_iff :
    (mode : Mode) (s : Status)
    → (is_terminal mode s ≡ true) ↔ ((t : Status) → can_transition mode s t ≡ false)
terminal_iff mode s = (
  λ h t. terminal_stuck mode s t h,
  λ h. ground (arith, h (way_on mode s), way_on-can_transition mode s),
)
