-- ===== src/Service/Calls/Deltas.antt =====
-- How each movement of nem_pay/api/internal/service/money.go changes the books: what its lines add to
-- a book and what the new status adds to the amounts in flight.
use monorepo_payment.Base.{
  none, Option, some, ℕ, ◌+◌, ◌-◌, ◌≡◌, refl, sym, subst, Bool, true, false, ◌&&◌, List, [], ◌++◌,
  Bytes, bytes_eq, ◌==◌, if◌then◌else◌, arith, ltb, sum_by-append, Bool-cases, inl, inr,
}
use monorepo_payment.Service.Rules.{
  settled_as, capture_lines, settle_lines, refund_lines, release_lines, unless_zero,
}
use monorepo_payment.Base.Int.{pos, eq_ℤ}
use monorepo_payment.StateMachine.{
  Mode, direct, escrow, Status, created, captured, settled, held_in_escrow, status_eq,
  can_transition, released, refunded, partially_refunded,
}
use monorepo_payment.Chart.{
  AccountKind, acquirer_receivable, payable_to_payee, platform_revenue, kind_eq,
}
use monorepo_payment.Db.{Uuid, PaymentIntent}
use monorepo_payment.Db.Accounts.{Book}
use monorepo_payment.Db.Intents.{with_status}
use monorepo_payment.Ledger.Books.{Line, line_debits, line_credits, line_in}
use monorepo_payment.Service.Posting.{debit_total, credit_total}
use monorepo_payment.Service.Refund.{full_only}
use monorepo_payment.Service.Expire.{may_fail}
use monorepo_payment.Service.Release.Paid.{release_total}
use monorepo_payment.Service.Calls.{Rule, authorizes, fails, captures, settles, refunds, releases}

refund_total :
    (mode : Mode) (s : Status) (n : ℕ)
    → debit_total (refund_lines mode s n) ≡ credit_total (refund_lines mode s n)
refund_total direct s n = omega arith
refund_total escrow s n = omega arith

-- The book of a kind, of a merchant and a currency.
abbrev pub book : Uuid → Bytes → AccountKind → Book
book merchant_id currency kind = record {
  merchant_id = merchant_id;
  kind = kind;
  currency = currency;
}

-- Captured, and not yet settled or refunded: a claim on the acquirer.
abbrev pub claim : Bool → Status → ℕ → ℕ
claim mine status amount = if mine && status_eq status captured then amount else 0

abbrev pub is_mine : Uuid → Bytes → PaymentIntent → Bool
is_mine merchant_id currency pi = pi.merchant_id == merchant_id && bytes_eq pi.currency currency

abbrev pub claim_of : Uuid → Bytes → PaymentIntent → ℕ
claim_of merchant_id currency pi = claim (is_mine merchant_id currency pi) pi.status pi.amount

module _ (m : Uuid) (c : Bytes) (owner : Uuid) (currency : Bytes) where
  abbrev mine : Bool
  mine = owner == m && bytes_eq currency c

  -- The lines `ls` and the step from `from` to `to` agree on the receivable.
  abbrev Agrees : List Line → Status → Status → ℕ → Type 0
  Agrees ls from to a =
      line_debits (book m c acquirer_receivable) owner currency ls + claim mine from a
      ≡ line_credits (book m c acquirer_receivable) owner currency ls + claim mine to a

  capture-Agrees :
      (mode : Mode) (s : Status) (a : ℕ)
      → can_transition mode s captured ≡ true
      → Agrees (capture_lines mode a) s captured a
  unfolding can_transition
  capture-Agrees direct captured a h = absurd (ground arith)
  capture-Agrees escrow captured a h = absurd (ground arith)
  capture-Agrees direct _ a h = ground arith
  capture-Agrees escrow _ a h = ground arith

  settle-Agrees : (mode : Mode) (a : ℕ) → Agrees (settle_lines mode a) captured (settled_as mode) a
  settle-Agrees direct a = ground arith
  settle-Agrees escrow a = ground arith

  refund-Agrees :
      (mode : Mode) (s : Status) (a n : ℕ)
      → (full_only mode s ≡ true → n ≡ a)
      → can_transition mode s (if eq_ℤ (pos n) (pos a) then refunded else partially_refunded) ≡ true
      → Agrees
          (refund_lines mode s n)
          s
          (if eq_ℤ (pos n) (pos a) then refunded else partially_refunded)
          a
  unfolding can_transition
  refund-Agrees direct captured a n full h = let e = full refl in ground arith
  refund-Agrees direct settled a n full h = ground arith
  refund-Agrees direct _ a n full h = absurd (ground arith)
  refund-Agrees escrow held_in_escrow a n full h = ground arith
  refund-Agrees escrow _ a n full h = absurd (ground arith)

  -- The lines of another kind are not in a book.
  off_book :
      (b : Book) (kind : AccountKind) (ref : Option Uuid) (n : ℕ)
      → kind_eq kind b.kind ≡ false
      → (line_debits b owner currency (unless_zero kind ref n) ≡ 0)
        × (line_credits b owner currency (unless_zero kind ref n) ≡ 0)
  off_book b kind ref n h = elim (Bool-cases (ltb 0 n)) [
    | inl e ↦ ground arith
    | inr e ↦ ground arith
  ]

  pub off_book_tail :
      (b : Book) (k l : AccountKind) (r q : Option Uuid) (n p : ℕ)
      → kind_eq k b.kind ≡ false
      → kind_eq l b.kind ≡ false
      → (line_debits b owner currency (unless_zero k r n ++ unless_zero l q p) ≡ 0)
        × (line_credits b owner currency (unless_zero k r n ++ unless_zero l q p) ≡ 0)
  off_book_tail b k l r q n p h i =
      let (dk, ck) = off_book b k r n h in
      let (dl, cl) = off_book b l q p i in
      (
        omega (
          arith,
          sum_by-append (λ x. if line_in b owner currency x.kind then x.debit else 0)
              (unless_zero k r n) (unless_zero l q p),
          dk,
          dl,
        ),
        omega (
          arith,
          sum_by-append (λ x. if line_in b owner currency x.kind then x.credit else 0)
              (unless_zero k r n) (unless_zero l q p),
          ck,
          cl,
        ),
      )

  release-Agrees :
      (mode : Mode) (s : Status) (a fee : ℕ) (payee : Uuid)
      → can_transition mode s released ≡ true
      → Agrees (release_lines a fee payee) s released a
  unfolding can_transition
  release-Agrees escrow held_in_escrow a fee payee h = ground (
    arith,
    off_book_tail (book m c acquirer_receivable) payable_to_payee platform_revenue (some payee) none
        (a - fee) fee refl refl,
  )
  release-Agrees direct created a fee payee h = absurd (ground arith)
  release-Agrees _ _ a fee payee h = absurd (ground arith)

  no_claim-Agrees :
      (s t : Status) (a : ℕ) → may_fail s ≡ true → status_eq t captured ≡ false → Agrees [] s t a
  no_claim-Agrees captured t a h i = absurd (ground arith)
  no_claim-Agrees _ t a h i = ground arith

-- Every movement changes the book of the receivable as it changes the claims.
pub Rule-receivable :
    (m : Uuid) (c : Bytes) (now : ℕ) (pi : PaymentIntent) (next : Status) (ls : List Line)
    → Rule pi next ls
    → line_debits (book m c acquirer_receivable) pi.merchant_id pi.currency ls + claim_of m c pi
      ≡ line_credits (book m c acquirer_receivable) pi.merchant_id pi.currency ls
        + claim_of m c (with_status next now pi)
Rule-receivable m c now pi next ls (authorizes h) =
    no_claim-Agrees m c pi.merchant_id pi.currency pi.status next pi.amount h refl
Rule-receivable m c now pi next ls (fails h) =
    no_claim-Agrees m c pi.merchant_id pi.currency pi.status next pi.amount h refl
Rule-receivable m c now pi next ls (captures h) =
    capture-Agrees m c pi.merchant_id pi.currency pi.settlement_mode pi.status pi.amount h
Rule-receivable m c now pi next ls (settles e) =
    subst
      (λ s.
        Agrees m c pi.merchant_id pi.currency (settle_lines pi.settlement_mode pi.amount) s
          (settled_as pi.settlement_mode) pi.amount)
      (sym e) (settle-Agrees m c pi.merchant_id pi.currency pi.settlement_mode pi.amount)
Rule-receivable m c now pi next ls (refunds n within full h) =
    refund-Agrees m c pi.merchant_id pi.currency pi.settlement_mode pi.status pi.amount n full h
Rule-receivable m c now pi next ls (releases fee payee within of_escrow h) =
    release-Agrees m c pi.merchant_id pi.currency pi.settlement_mode pi.status pi.amount fee payee h

-- The lines of every movement balance.
pub Rule-balanced :
    (pi : PaymentIntent) (next : Status) (ls : List Line)
    → Rule pi next ls
    → debit_total ls ≡ credit_total ls
Rule-balanced pi next ls (authorizes h) = refl
Rule-balanced pi next ls (fails h) = refl
Rule-balanced pi next ls (captures h) = omega arith
Rule-balanced pi next ls (settles e) = omega arith
Rule-balanced pi next ls (refunds n within full h) = refund_total pi.settlement_mode pi.status n
Rule-balanced pi next ls (releases fee payee within of_escrow h) =
    release_total pi.amount fee payee within
