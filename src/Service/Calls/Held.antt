-- ===== src/Service/Calls/Held.antt =====
-- The escrow side of the movements of nem_pay/api/internal/service/money.go: segregated cash against
-- escrow liability.
use monorepo_payment.Base.{
  none, some, ℕ, ◌+◌, ◌-◌, ◌≡◌, refl, sym, subst, true, false, ◌&&◌, List, [], Bytes, bytes_eq,
  ◌==◌, if◌then◌else◌, arith,
}
use monorepo_payment.Service.Rules.{
  settled_as, capture_lines, settle_lines, refund_lines, release_lines,
}
use monorepo_payment.Base.Int.{pos, eq_ℤ}
use monorepo_payment.StateMachine.{
  Mode, direct, escrow, mode_eq, Status, created, captured, settled, held_in_escrow, status_eq,
  can_transition, released, refunded, partially_refunded,
}
use monorepo_payment.Chart.{segregated_cash, escrow_liability, payable_to_payee, platform_revenue}
use monorepo_payment.Db.{Uuid, PaymentIntent}
use monorepo_payment.Db.Intents.{with_status}
use monorepo_payment.Ledger.Books.{Line, line_debits, line_credits}
use monorepo_payment.Service.Expire.{may_fail}
use monorepo_payment.Service.Calls.{Rule, authorizes, fails, captures, settles, refunds, releases}
use monorepo_payment.Service.Calls.Deltas.{book, claim, is_mine, off_book_tail}

-- Captured for escrow, with the cash still to come.
abbrev pub held_of : Uuid → Bytes → PaymentIntent → ℕ
held_of merchant_id currency pi =
    claim (mode_eq pi.settlement_mode escrow && is_mine merchant_id currency pi) pi.status pi.amount

module _ (m : Uuid) (c : Bytes) (owner : Uuid) (currency : Bytes) where
  abbrev held_debits : List Line → ℕ
  held_debits ls =
      line_debits (book m c segregated_cash) owner currency ls
      + line_debits (book m c escrow_liability) owner currency ls

  abbrev held_credits : List Line → ℕ
  held_credits ls =
      line_credits (book m c segregated_cash) owner currency ls
      + line_credits (book m c escrow_liability) owner currency ls

  -- The lines `ls` and the step from `from` to `to` agree on what is held.
  abbrev Agrees : Mode → List Line → Status → Status → ℕ → Type 0
  Agrees mode ls from to a =
      held_debits ls + claim (mode_eq mode escrow && (owner == m && bytes_eq currency c)) to a
      ≡ held_credits ls + claim (mode_eq mode escrow && (owner == m && bytes_eq currency c)) from a

  capture-Agrees :
      (mode : Mode) (s : Status) (a : ℕ)
      → can_transition mode s captured ≡ true
      → Agrees mode (capture_lines mode a) s captured a
  unfolding can_transition
  capture-Agrees direct s a h = ground arith
  capture-Agrees escrow captured a h = absurd (ground arith)
  capture-Agrees escrow _ a h = ground arith

  settle-Agrees :
      (mode : Mode) (a : ℕ) → Agrees mode (settle_lines mode a) captured (settled_as mode) a
  settle-Agrees direct a = ground arith
  settle-Agrees escrow a = ground arith

  refund-Agrees :
      (mode : Mode) (s : Status) (a n : ℕ)
      → can_transition mode s (if eq_ℤ (pos n) (pos a) then refunded else partially_refunded) ≡ true
      → Agrees mode
          (refund_lines mode s n)
          s
          (if eq_ℤ (pos n) (pos a) then refunded else partially_refunded)
          a
  unfolding can_transition
  refund-Agrees direct settled a n h = ground arith
  refund-Agrees direct _ a n h = ground arith
  refund-Agrees escrow held_in_escrow a n h = ground arith
  refund-Agrees escrow _ a n h = absurd (ground arith)

  release-Agrees :
      (mode : Mode) (s : Status) (a fee : ℕ) (payee : Uuid)
      → can_transition mode s released ≡ true
      → Agrees mode (release_lines a fee payee) s released a
  unfolding can_transition
  release-Agrees escrow held_in_escrow a fee payee h = ground (
    arith,
    off_book_tail m c owner currency (book m c segregated_cash) payable_to_payee platform_revenue
        (some payee) none (a - fee) fee refl refl,
    off_book_tail m c owner currency (book m c escrow_liability) payable_to_payee platform_revenue
        (some payee) none (a - fee) fee refl refl,
  )
  release-Agrees direct created a fee payee h = absurd (ground arith)
  release-Agrees _ _ a fee payee h = absurd (ground arith)

  no_claim-Agrees :
      (mode : Mode) (s t : Status) (a : ℕ)
      → may_fail s ≡ true
      → status_eq t captured ≡ false
      → Agrees mode [] s t a
  no_claim-Agrees mode captured t a h i = absurd (ground arith)
  no_claim-Agrees mode _ t a h i = ground arith

-- Every movement changes what is held for escrow as it changes the cash and the liability.
pub Rule-held :
    (m : Uuid) (c : Bytes) (now : ℕ) (pi : PaymentIntent) (next : Status) (ls : List Line)
    → Rule pi next ls
    → line_debits (book m c segregated_cash) pi.merchant_id pi.currency ls
        + line_debits (book m c escrow_liability) pi.merchant_id pi.currency ls
        + held_of m c (with_status next now pi)
      ≡ line_credits (book m c segregated_cash) pi.merchant_id pi.currency ls
        + line_credits (book m c escrow_liability) pi.merchant_id pi.currency ls
        + held_of m c pi
Rule-held m c now pi next ls (authorizes h) =
    no_claim-Agrees m c pi.merchant_id pi.currency pi.settlement_mode pi.status next pi.amount h
      refl
Rule-held m c now pi next ls (fails h) =
    no_claim-Agrees m c pi.merchant_id pi.currency pi.settlement_mode pi.status next pi.amount h
      refl
Rule-held m c now pi next ls (captures h) =
    capture-Agrees m c pi.merchant_id pi.currency pi.settlement_mode pi.status pi.amount h
Rule-held m c now pi next ls (settles e) =
    subst
      (λ s.
        Agrees m c pi.merchant_id pi.currency pi.settlement_mode
          (settle_lines pi.settlement_mode pi.amount) s (settled_as pi.settlement_mode) pi.amount)
      (sym e) (settle-Agrees m c pi.merchant_id pi.currency pi.settlement_mode pi.amount)
Rule-held m c now pi next ls (refunds n within full h) =
    refund-Agrees m c pi.merchant_id pi.currency pi.settlement_mode pi.status pi.amount n h
Rule-held m c now pi next ls (releases fee payee within of_escrow h) =
    release-Agrees m c pi.merchant_id pi.currency pi.settlement_mode pi.status pi.amount fee payee h
