-- ===== src/Chart.antt =====
-- The chart of accounts: nem_pay/api/internal/ledger/accounts.go, and the kinds of transactions
-- that nem_pay/api/internal/service/money.go posts.
use monorepo_payment.Base.{ℕ, Bool, ◌==◌}

pub data AccountType : Type 0 where
  asset liability revenue : AccountType

pub data AccountKind : Type 0 where
  platform_cash acquirer_receivable merchant_payable : AccountKind
  segregated_cash escrow_liability payable_to_payee platform_revenue : AccountKind

abbrev pub kind_rank : AccountKind → ℕ
kind_rank platform_cash = 0
kind_rank acquirer_receivable = 1
kind_rank merchant_payable = 2
kind_rank segregated_cash = 3
kind_rank escrow_liability = 4
kind_rank payable_to_payee = 5
kind_rank platform_revenue = 6

-- `==` on the strings.
abbrev pub kind_eq : AccountKind → AccountKind → Bool
kind_eq a b = kind_rank a == kind_rank b

pub data TransactionKind : Type 0 where
  capture settle refund release : TransactionKind
