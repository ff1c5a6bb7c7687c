-- ===== src/Ledger/Checks.antt =====
-- What the checks of `PostTransaction` (nem_pay/api/internal/ledger/post.go) let through.
use monorepo_payment.Base.{
  ℕ, ◌+◌, ◌%◌, ◌<◌, ◌≡◌, ◌≢◌, ◌↔◌, refl, Bool, true, false, Option, none, some, List, [], ◌∷◌,
  Bytes, bytes_eq, arith, All, sum_by, if◌then◌else◌,
}
use monorepo_payment.Base.Int.{pos_part, word, two64}
use monorepo_payment.Errors.{Error, bad_entry, mixed_currency}
use monorepo_payment.Ledger.{Leg, is_bad, check_from, check_legs}

-- Every leg has exactly one positive side, the other is 0, and its currency is the given one.
abbrev pub AllGood : Bytes → List Leg → Type 0
AllGood currency = All (λ e. (is_bad e ≡ false) × (bytes_eq e.currency currency ≡ true))

abbrev pub total_debit : List Leg → ℕ
total_debit = sum_by (λ e. pos_part e.debit)

abbrev pub total_credit : List Leg → ℕ
total_credit = sum_by (λ e. pos_part e.credit)

-- The currency of the first leg.
abbrev pub head_currency : List Leg → Bytes
head_currency [] = []
head_currency (e ∷ es) = e.currency

good_words :
    (e : Leg)
    → is_bad e ≡ false
    → (word e.debit ≡ pos_part e.debit % two64) × (word e.credit ≡ pos_part e.credit % two64)
good_words e h = ground arith

mod_shift : (s w d t : ℕ) → w ≡ d % two64 → ((s + w) % two64 + t) % two64 ≡ (s + (d + t)) % two64
mod_shift s w d t h = omega arith

-- A first leg is let through exactly if it is good and the rest is let through.
check_from_cons :
    (currency : Bytes) (sd sc : ℕ) (e : Leg) (es : List Leg)
    → let rest =
        check_from currency ((sd + word e.debit) % two64) ((sc + word e.credit) % two64) es in
      (check_from currency sd sc (e ∷ es) ≡ none)
      ↔ ((is_bad e ≡ false) × (bytes_eq e.currency currency ≡ true) × (rest ≡ none))
unfolding check_from
check_from_cons currency sd sc e es = go (is_bad e) (bytes_eq e.currency currency)
  where
    go :
        (b c : Bool) {r : Option Error}
        → ((if b then some bad_entry else if c then r else some mixed_currency) ≡ none)
          ↔ ((b ≡ false) × (c ≡ true) × (r ≡ none))
    go b c = ground arith

check_from_sound :
    (currency : Bytes) (sd sc : ℕ) (legs : List Leg)
    → check_from currency sd sc legs ≡ none
    → sd < two64
    → sc < two64
    → AllGood currency legs × ((sd + total_debit legs) % two64 ≡ (sc + total_credit legs) % two64)
check_from_sound currency sd sc [] h p q = (tt, unfold check_from in ground arith)
check_from_sound currency sd sc (e ∷ es) h p q =
    let (good, same, rest) = (check_from_cons currency sd sc e es).0 h in
    let (wd, wc) = good_words e good in
    let (all, sums) =
      check_from_sound currency ((sd + word e.debit) % two64) ((sc + word e.credit) % two64) es rest
        (omega arith) (omega arith) in
    (
      ((good, same), all),
      omega (
        arith,
        sums,
        mod_shift sd _ _ (total_debit es) wd,
        mod_shift sc _ _ (total_credit es) wc,
      ),
    )

check_from_complete :
    (currency : Bytes) (sd sc : ℕ) (legs : List Leg)
    → sd < two64
    → sc < two64
    → AllGood currency legs
    → (sd + total_debit legs) % two64 ≡ (sc + total_credit legs) % two64
    → check_from currency sd sc legs ≡ none
check_from_complete currency sd sc [] p q g h = unfold check_from in ground arith
check_from_complete currency sd sc (e ∷ es) p q g h =
    let (wd, wc) = good_words e g.0.0 in
    (check_from_cons currency sd sc e es).1 (
      g.0.0,
      g.0.1,
      check_from_complete currency ((sd + word e.debit) % two64) ((sc + word e.credit) % two64) es
          (omega arith) (omega arith) g.1
          (omega (
            arith,
            h,
            mod_shift sd _ _ (total_debit es) wd,
            mod_shift sc _ _ (total_credit es) wc,
          )),
    )

-- `PostTransaction` accepts a list of entries before it writes exactly if the list is not empty, every
-- entry has one positive side and the other 0, all have the first entry's currency, and the sums
-- of the debits and of the credits agree modulo 2^64.
pub check_legs_iff :
    (legs : List Leg)
    → (check_legs legs ≡ none) ↔ (
        (legs ≢ [])
        × AllGood (head_currency legs) legs
        × (total_debit legs % two64 ≡ total_credit legs % two64))
unfolding check_legs
check_legs_iff [] = (λ h. cc, λ h. absurd (h.0 refl))
check_legs_iff (e ∷ es) = (
  λ h.
      let (all, sums) = check_from_sound e.currency 0 0 (e ∷ es) h (omega arith) (omega arith) in
      (λ p. cc, all, omega (arith, sums)),
  λ (_, all, sums).
      check_from_complete e.currency 0 0 (e ∷ es) (omega arith) (omega arith) all
        (omega (arith, sums)),
)

-- The sums are added up in int64 without a test for overflow: a list of well-formed entries of one
-- currency whose debits exceed its credits by exactly 2^64 is accepted, though it is not balanced.
pub check_legs_wraps :
    (legs : List Leg)
    → AllGood (head_currency legs) legs
    → total_debit legs ≡ total_credit legs + two64
    → (check_legs legs ≡ none) × (total_debit legs ≢ total_credit legs)
check_legs_wraps [] all over = absurd (omega arith)
check_legs_wraps (e ∷ es) all over =
    ((check_legs_iff (e ∷ es)).1 (λ p. cc, all, omega (arith, over)), omega (arith, over))
