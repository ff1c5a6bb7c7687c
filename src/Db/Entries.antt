-- ===== src/Db/Entries.antt =====
-- The statements over transactions and entries: nem_pay/api/internal/repository/db/ledger.sql.go.
use monorepo_payment.Base.{Bool, ◌&&◌, not, Option, [], ◌∷◌, ◌++◌, Bytes, if◌then◌else◌, map}
use monorepo_payment.Base.Int.{ℤ, pos, pos_part, ltb_ℤ, eq_ℤ}
use monorepo_payment.Chart.{TransactionKind}
use monorepo_payment.Errors.{Result, ok, err, check_violation}
use monorepo_payment.Db.{Uuid, Transaction, Entry, Database}
use monorepo_payment.Db.Exec.{Env, Exec, stmt}

abbrev pub new_transaction : Uuid → TransactionKind → Option Uuid → Env → Database → Transaction
new_transaction merchant_id kind ref env db = record {
  id = env.gen (map (λ t. t.id) db.transactions);
  merchant_id = merchant_id;
  kind = kind;
  reference_id = ref;
}

abbrev pub add_transaction :
    Uuid → TransactionKind → Option Uuid → Env → Database → Result (Transaction × Database)
add_transaction merchant_id kind ref env db =
    let t = new_transaction merchant_id kind ref env db in
    ok (t, record db { transactions = db.transactions ++ t ∷ [] })

unfoldable pub insert_transaction : Uuid → TransactionKind → Option Uuid → Exec Transaction
unfolding stmt
insert_transaction merchant_id kind ref = stmt (add_transaction merchant_id kind ref)

pub record InsertEntryParams : Type 0 where
  pub transaction_id : Uuid
  pub account_id : Uuid
  pub debit : ℤ
  pub credit : ℤ
  pub currency : Bytes

-- `a = b` on Booleans.
abbrev pub bool_eq : Bool → Bool → Bool
bool_eq a b = if a then b else not b

-- CHECK (debit >= 0), CHECK (credit >= 0), CHECK ((debit = 0) <> (credit = 0))
abbrev pub entry_checks : ℤ → ℤ → Bool
entry_checks debit credit =
    not (ltb_ℤ debit (pos 0))
    && not (ltb_ℤ credit (pos 0))
    && not (bool_eq (eq_ℤ debit (pos 0)) (eq_ℤ credit (pos 0)))

abbrev pub new_entry : InsertEntryParams → Env → Database → Entry
new_entry arg env db = record {
  id = env.gen (map (λ e. e.id) db.entries);
  transaction_id = arg.transaction_id;
  account_id = arg.account_id;
  debit = pos_part arg.debit;
  credit = pos_part arg.credit;
  currency = arg.currency;
}

abbrev pub add_entry : InsertEntryParams → Env → Database → Result (Entry × Database)
add_entry arg env db =
    if entry_checks arg.debit arg.credit
    then ok (new_entry arg env db, record db { entries = db.entries ++ new_entry arg env db ∷ [] })
    else err check_violation

unfoldable pub insert_entry : InsertEntryParams → Exec Entry
unfolding stmt
insert_entry arg = stmt (add_entry arg)
