-- ===== src/Webhook/Outcome.antt =====
-- What becomes of a row of the outbox (nem_pay/api/internal/webhook/deliver.go): the bounds of its
-- attempts, and that a decision stands.
use monorepo_payment.Base.{
  ℕ, suc, ◌≤◌, ◌<◌, ◌≡◌, refl, sym, ◌∙◌, ap, subst, true, false, some, List, arith, All, not_both,
}
use monorepo_payment.Db.{Uuid, OutboxRow, OutboxStatus, pending, delivered, dead}
use monorepo_payment.Db.Exec.{Env, Session}
use monorepo_payment.Db.Outbox.{is_pending}
use monorepo_payment.Webhook.{Processor}
use monorepo_payment.Webhook.Deliver.{find_row}
use monorepo_payment.Webhook.Rows.{
  RowStep, RowWalk, here, more, still, leased, taken, given_up, retried, DistinctRows,
}
use monorepo_payment.Webhook.Life.{Event, happen_all, LeavesTables, happen_all-RowWalk}

-- The attempts that a row of each status may have had.
abbrev pub AttemptsOk : Processor → ℕ → OutboxStatus → Type 0
AttemptsOk p n dead = n ≡ p.max_attempts
AttemptsOk p n _ = n < p.max_attempts

abbrev pub RowOk : Processor → OutboxRow → Type 0
RowOk p r = AttemptsOk p r.attempts r.status

-- What stays the same of a row, and what only grows.
pub record SameEvent (r r' : OutboxRow) : Type 0 where
  pub merchant : r'.merchant_id ≡ r.merchant_id
  pub event : r'.event_id ≡ r.event_id
  pub type : r'.event_type ≡ r.event_type
  pub payload : r'.payload ≡ r.payload
  pub attempts : r.attempts ≤ r'.attempts
  pub decided : is_pending r.status ≡ false → r' ≡ r

pending_Ok :
    (p : Processor) (n : ℕ) (s : OutboxStatus)
    → is_pending s ≡ true
    → AttemptsOk p n s
    → n < p.max_attempts
pending_Ok p n pending e h = h
pending_Ok p n delivered e h = absurd (ground arith)
pending_Ok p n dead e h = absurd (ground arith)

pending_is : (s : OutboxStatus) → is_pending s ≡ true → s ≡ pending
pending_is pending e = refl
pending_is delivered e = absurd (ground arith)
pending_is dead e = absurd (ground arith)

pub RowStep-RowOk : (p : Processor) (r r' : OutboxRow) → RowStep p r r' → RowOk p r → RowOk p r'
RowStep-RowOk p r r' still h = h
RowStep-RowOk p r r' (leased until live) h = h
RowStep-RowOk p r r' (taken live) h = pending_Ok p r.attempts r.status live h
RowStep-RowOk p r r' (given_up live last) h =
    let below = pending_Ok p r.attempts r.status live h in omega (arith, last, below)
RowStep-RowOk p r r' (retried at live below) h =
    subst (AttemptsOk p (suc r.attempts)) (sym (pending_is r.status live)) below

pub RowStep-SameEvent : (p : Processor) (r r' : OutboxRow) → RowStep p r r' → SameEvent r r'
RowStep-SameEvent p r r' still = record {
  merchant = refl;
  event = refl;
  type = refl;
  payload = refl;
  attempts = omega arith;
  decided = λ _. refl;
}
RowStep-SameEvent p r r' (leased until live) = record {
  merchant = refl;
  event = refl;
  type = refl;
  payload = refl;
  attempts = omega arith;
  decided = λ e. absurd (not_both e live);
}
RowStep-SameEvent p r r' (taken live) = record {
  merchant = refl;
  event = refl;
  type = refl;
  payload = refl;
  attempts = omega arith;
  decided = λ e. absurd (not_both e live);
}
RowStep-SameEvent p r r' (given_up live last) = record {
  merchant = refl;
  event = refl;
  type = refl;
  payload = refl;
  attempts = omega arith;
  decided = λ e. absurd (not_both e live);
}
RowStep-SameEvent p r r' (retried at live below) = record {
  merchant = refl;
  event = refl;
  type = refl;
  payload = refl;
  attempts = omega arith;
  decided = λ e. absurd (not_both e live);
}

SameEvent-trans : (r r' r'' : OutboxRow) → SameEvent r r' → SameEvent r' r'' → SameEvent r r''
SameEvent-trans r r' r'' h k = record {
  merchant = k.merchant ∙ h.merchant;
  event = k.event ∙ h.event;
  type = k.type ∙ h.type;
  payload = k.payload ∙ h.payload;
  attempts = omega (arith, h.attempts, k.attempts);
  decided = λ e. k.decided (ap (λ x. is_pending x.status) (h.decided e) ∙ e) ∙ h.decided e;
}

pub RowWalk-Ok :
    (p : Processor) (r r' : OutboxRow) → RowWalk p r r' → RowOk p r → RowOk p r' × SameEvent r r'
RowWalk-Ok p r r' here h = (h, RowStep-SameEvent p r r still)
RowWalk-Ok p r r'' (more {r'} step walk) h =
    let (h', same) = RowWalk-Ok p _ r'' walk (RowStep-RowOk p r _ step h) in
    (h', SameEvent-trans r _ r'' (RowStep-SameEvent p r _ step) same)

-- Whatever happens to an outbox of distinct rows, and whatever fails, if a row's attempts are as its
-- status allows (below the maximum, and the maximum of a dead row), the row stays: its attempts only
-- grow and stay as the status allows, the event that it carries is the same, and once it is
-- delivered or dead it never changes again.
pub happen_all-SameEvent :
    (p : Processor) (events : List (Env × Event)) (s : Session) (id : Uuid) (r : OutboxRow)
    → DistinctRows s.db
    → All (λ x. LeavesTables x.1) events
    → find_row id s.db ≡ some r
    → RowOk p r
    → (r' : OutboxRow) × (find_row id (happen_all p events s).db ≡ some r')
      × RowOk p r'
      × SameEvent r r'
happen_all-SameEvent p events s id r d leaves found h =
    let (r', found', walk) = happen_all-RowWalk p events s id r d leaves found in
    let (ok_now, same) = RowWalk-Ok p r r' walk h in (r', found', ok_now, same)
