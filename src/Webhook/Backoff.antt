-- ===== src/Webhook/Backoff.antt =====
-- How long a failed delivery waits (`backoff` of nem_pay/api/internal/webhook/deliver.go).
use monorepo_payment.Base.{ℕ, zero, suc, ◌*◌, ◌≤◌, arith, Bool-cases, inl, inr, leb}
use monorepo_payment.Webhook.{Processor, max_backoff, doubled, backoff}

doubled-bounds : (n d : ℕ) → d ≤ max_backoff → (d ≤ doubled n d) × (doubled n d ≤ max_backoff)
unfolding doubled
doubled-bounds zero d h = (omega arith, omega (arith, h))
doubled-bounds (suc n) d h = elim (Bool-cases (leb max_backoff (d * 2))) [
  | inl e ↦ (ground arith, ground arith)
  | inr e ↦
      let (low, high) = doubled-bounds n (d * 2) (ground arith) in (ground arith, ground arith)
]

doubled-step : (n d : ℕ) → d ≤ max_backoff → doubled n d ≤ doubled (suc n) d
unfolding doubled
doubled-step zero d h = ground arith
doubled-step (suc n) d h = elim (Bool-cases (leb max_backoff (d * 2))) [
  | inl e ↦ ground arith
  | inr e ↦ let low = doubled-step n (d * 2) (ground arith) in ground (arith, low)
]

-- If the base is at most five minutes, the wait after an attempt is at least the base, at most five
-- minutes, and at most the wait after the next attempt.
pub backoff-bounds :
    (p : Processor) (attempt : ℕ)
    → p.base_backoff ≤ max_backoff
    → (p.base_backoff ≤ backoff p (suc attempt))
      × (backoff p (suc attempt) ≤ max_backoff)
      × (backoff p (suc attempt) ≤ backoff p (suc (suc attempt)))
unfolding backoff
backoff-bounds p attempt h =
    let (low, high) = doubled-bounds attempt p.base_backoff h in
    (low, high, doubled-step attempt p.base_backoff h)
