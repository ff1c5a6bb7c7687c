-- ===== src/Ledger/Tests.antt =====
-- Lists of entries that `PostTransaction` (nem_pay/api/internal/ledger/post.go) accepts.
use monorepo_payment.Base.{
  ◌%◌, ◌≡◌, ◌≢◌, ◌↔◌, refl, List, [], ◌∷◌, none, Bytes, bytes_eq_refl, arith,
}
use monorepo_payment.Base.Int.{ℤ, pos, two64}
use monorepo_payment.Ledger.{Leg, check_legs}
use monorepo_payment.Ledger.Checks.{
  AllGood, head_currency, total_debit, total_credit, check_legs_iff, check_legs_wraps,
}

abbrev usd : Bytes
usd = 85 ∷ 83 ∷ 68 ∷ []

abbrev leg : ℤ → ℤ → Leg
leg debit credit = record { account_id = 1; debit = debit; credit = credit; currency = usd }

abbrev sale : List Leg
sale = leg (pos 1000) (pos 0) ∷ leg (pos 0) (pos 1000) ∷ []

-- Two of the largest int64 values and a 2.
abbrev huge : List Leg
huge =
    leg (pos 9223372036854775807) (pos 0)
    ∷ leg (pos 9223372036854775807) (pos 0)
    ∷ leg (pos 2) (pos 0)
    ∷ []

huge-AllGood : AllGood (head_currency huge) huge
huge-AllGood =
    ((refl, bytes_eq_refl usd), ((refl, bytes_eq_refl usd), ((refl, bytes_eq_refl usd), tt)))

check_legs_iff_example : (check_legs sale ≡ none) ↔ (
    (sale ≢ [])
    × AllGood (head_currency sale) sale
    × (total_debit sale % two64 ≡ total_credit sale % two64))
check_legs_iff_example = check_legs_iff sale

check_legs_wraps_example : (check_legs huge ≡ none) × (total_debit huge ≢ total_credit huge)
check_legs_wraps_example = check_legs_wraps huge huge-AllGood (omega arith)
