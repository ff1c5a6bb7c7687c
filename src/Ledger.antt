-- ===== src/Ledger.antt =====
-- Posting to the ledger and reading it back: nem_pay/api/internal/ledger/post.go and reconcile.go.
-- Both loops of `PostTransaction` are recursions over the entries; the int64 accumulators are kept as
-- bit patterns, since they are only added to and compared.
pub mod Checks
pub mod Books
pub mod Post
pub mod Tests
use monorepo_payment.Base.{
  ℕ, ◌+◌, ◌%◌, Bool, true, false, ◌||◌, not, Option, none, some, List, [], ◌∷◌, Bytes, bytes_eq,
  ◌==◌, ltb, if◌then◌else◌,
}
use monorepo_payment.Base.Int.{
  ℤ, pos, ltb_ℤ, leb_ℤ, eq_ℤ, word, wrap64, two64, two63, pos_part, neg_part, ◌+ℤ◌,
}
use monorepo_payment.Chart.{TransactionKind, AccountKind, segregated_cash, escrow_liability}
use monorepo_payment.Errors.{Error, empty, bad_entry, mixed_currency, unbalanced, balance_overflow}
use monorepo_payment.Db.{Uuid, Transaction, Entry}
use monorepo_payment.Db.Exec.{Exec, pure, raise, ◌>>=◌, ◌>>◌}
use monorepo_payment.Db.Accounts.{Book, get_account_balance, sum_account_balance_by_kind}
use monorepo_payment.Db.Entries.{bool_eq, insert_transaction, insert_entry}

-- `Entry` of post.go: one leg of a transaction, before it is a row.
pub record Leg : Type 0 where
  pub account_id : Uuid
  pub debit : ℤ
  pub credit : ℤ
  pub currency : Bytes

-- e.Debit < 0 || e.Credit < 0 || (e.Debit == 0) == (e.Credit == 0)
abbrev pub is_bad : Leg → Bool
is_bad e =
    ltb_ℤ e.debit (pos 0)
    || ltb_ℤ e.credit (pos 0)
    || bool_eq (eq_ℤ e.debit (pos 0)) (eq_ℤ e.credit (pos 0))

-- The first loop, and the comparison of the sums behind it.
unfoldable pub check_from : Bytes → ℕ → ℕ → List Leg → Option Error
check_from currency sum_debit sum_credit [] =
    if sum_debit == sum_credit then none else some unbalanced
check_from currency sum_debit sum_credit (e ∷ es) =
    if is_bad e
    then some bad_entry
    else if bytes_eq e.currency currency
    then check_from currency ((sum_debit + word e.debit) % two64)
        ((sum_credit + word e.credit) % two64) es
    else some mixed_currency

-- All that `PostTransaction` does before its first write.
unfoldable pub check_legs : List Leg → Option Error
unfolding check_from
check_legs [] = some empty
check_legs (e ∷ es) = check_from e.currency 0 0 (e ∷ es)

-- The second loop.
unfoldable pub insert_entries : Uuid → List Leg → Exec (Unit {0})
unfolding insert_entry
insert_entries t [] = pure tt
insert_entries t (e ∷ es) =
    insert_entry (record {
      transaction_id = t;
      account_id = e.account_id;
      debit = e.debit;
      credit = e.credit;
      currency = e.currency;
    })
    >> insert_entries t es

-- The writes, unless the checks gave an error.
unfoldable pub post_checked :
    Option Error → Uuid → TransactionKind → Option Uuid → List Leg → Exec Uuid
unfolding insert_transaction insert_entries
post_checked (some e) merchant_id kind ref legs = raise e
post_checked none merchant_id kind ref legs = do
  tx ← insert_transaction merchant_id kind ref
  insert_entries tx.id legs
  pure tx.id

unfoldable pub post_transaction : Uuid → TransactionKind → Option Uuid → List Leg → Exec Uuid
unfolding check_legs post_checked
post_transaction merchant_id kind ref legs =
    post_checked (check_legs legs) merchant_id kind ref legs

-- The `IsInt64` test of `numericToInt64`: the sums are integers (Exp = 0), never NULL or NaN.
unfoldable pub numeric_to_int64 : ℤ → Exec ℤ
numeric_to_int64 x =
    if leb_ℤ (pos two63) x
    then raise balance_overflow
    else if ltb two63 (neg_part x)
    then raise balance_overflow
    else pure x

unfoldable pub balance : Uuid → Exec ℤ
unfolding get_account_balance numeric_to_int64
balance account_id = do numeric_to_int64 (← get_account_balance account_id)

unfoldable pub sum_by_kind : Uuid → AccountKind → Bytes → Exec ℤ
unfolding sum_account_balance_by_kind numeric_to_int64
sum_by_kind merchant_id kind currency = do
  n ←
      sum_account_balance_by_kind
        (record { merchant_id = merchant_id; kind = kind; currency = currency })
  numeric_to_int64 n

-- `segregated, liability, ok` of `EscrowSegregationHolds`.
unfoldable pub escrow_segregation_holds : Uuid → Bytes → Exec (ℤ × ℤ × Bool)
unfolding sum_by_kind ◌+ℤ◌
escrow_segregation_holds merchant_id currency = do
  segregated ← sum_by_kind merchant_id segregated_cash currency
  liability ← sum_by_kind merchant_id escrow_liability currency
  pure (segregated, liability, eq_ℤ (wrap64 (segregated +ℤ liability)) (pos 0))
