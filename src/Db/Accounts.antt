-- ===== src/Db/Accounts.antt =====
-- The statements over accounts: nem_pay/api/internal/repository/db/accounts.sql.go.
pub mod Open
use monorepo_payment.Base.{
  ℕ, ◌≡◌, refl, Bool, true, false, ◌&&◌, Option, none, some, List, [], ◌∷◌, ◌++◌, Bytes, ◌==◌,
  if◌then◌else◌, map, find?, select, sum_by, bytes_eq, arith,
}
use monorepo_payment.Base.Int.{ℤ, sub_ℕ}
use monorepo_payment.Chart.{AccountType, AccountKind, kind_eq}
use monorepo_payment.Errors.{Result, ok}
use monorepo_payment.Db.{Uuid, Account, Entry, Database}
use monorepo_payment.Db.Exec.{Env, Exec, stmt}

-- What the two partial unique indexes compare besides reference_id: the book that an account is in.
pub record Book : Type 0 where
  pub merchant_id : Uuid
  pub kind : AccountKind
  pub currency : Bytes

abbrev pub in_book : Book → Account → Bool
in_book b a =
    a.merchant_id == b.merchant_id && kind_eq a.kind b.kind && bytes_eq a.currency b.currency

-- `reference_id IS NOT DISTINCT FROM ref`
abbrev pub has_ref : Option Uuid → Option Uuid → Bool
has_ref none none = true
has_ref (some x) (some y) = x == y
has_ref _ _ = false

abbrev pub conflicts : Book → Option Uuid → Account → Bool
conflicts b ref a = in_book b a && has_ref a.reference_id ref

-- INSERT … ON CONFLICT … DO UPDATE SET kind = EXCLUDED.kind RETURNING *: the row that is there, or
-- a new one.
abbrev pub new_account : AccountType → Book → Option Uuid → Env → Database → Account
new_account type b ref env db = record {
  id = env.gen (map (λ x. x.id) db.accounts);
  merchant_id = b.merchant_id;
  type = type;
  kind = b.kind;
  currency = b.currency;
  reference_id = ref;
}

abbrev pub get_or_create :
    AccountType → Book → Option Uuid → Env → Database → Result (Account × Database)
get_or_create type b ref env db = elim (find? (conflicts b ref) db.accounts) [
  | some a ↦ ok (a, db)
  | none ↦
      let a = new_account type b ref env db in
      ok (a, record db { accounts = db.accounts ++ a ∷ [] })
]

unfoldable pub get_or_create_singleton_account : AccountType → Book → Exec Account
unfolding stmt
get_or_create_singleton_account type b = stmt (get_or_create type b none)

unfoldable pub get_or_create_per_ref_account : AccountType → Book → Uuid → Exec Account
unfolding stmt
get_or_create_per_ref_account type b ref = stmt (get_or_create type b (some ref))

-- WHERE account_id = $1
unfoldable pub get_account_balance : Uuid → Exec ℤ
unfolding stmt
get_account_balance id = stmt λ env db. ok (
  sub_ℕ (sum_by (λ e. if e.account_id == id then e.debit else 0) db.entries)
      (sum_by (λ e. if e.account_id == id then e.credit else 0) db.entries),
  db,
)

abbrev pub find_account : Uuid → List Account → Option Account
find_account id = find? (λ a. a.id == id)

-- The account of an id belongs to a merchant and currency and is of a kind.
abbrev pub Owned : List Account → Uuid → Bytes → AccountKind → Uuid → Type 0
Owned accounts merchant_id currency kind id =
    (a : Account) × (find_account id accounts ≡ some a)
    × (a.merchant_id ≡ merchant_id)
    × (a.currency ≡ currency)
    × (a.kind ≡ kind)

-- The account of an id has a reference, if one is asked for.
abbrev pub Refers : List Account → Option Uuid → Uuid → Type 0
Refers accounts none id = Unit {0}
Refers accounts (some ref) id =
    (a : Account) × (find_account id accounts ≡ some a) × (a.reference_id ≡ some ref)

-- Accounts are only ever added: what an id finds stays.
abbrev pub Grows : List Account → List Account → Type 0
Grows old new =
    (id : Uuid) (a : Account) → find_account id old ≡ some a → find_account id new ≡ some a

-- entries e JOIN accounts a ON e.account_id = a.id WHERE a is in the book (id is the primary key).
abbrev pub found_in : Book → Option Account → Bool
found_in b none = false
found_in b (some a) = in_book b a

abbrev pub posted_to : Book → List Account → Entry → Bool
posted_to b accounts e = found_in b (find_account e.account_id accounts)

unfoldable pub debits : Book → List Account → List Entry → ℕ
debits b accounts = sum_by (λ e. if posted_to b accounts e then e.debit else 0)

unfoldable pub credits : Book → List Account → List Entry → ℕ
credits b accounts = sum_by (λ e. if posted_to b accounts e then e.credit else 0)

unfoldable pub read_sum : Book → Env → Database → Result (ℤ × Database)
unfolding debits credits
read_sum b env db =
    ok (sub_ℕ (debits b db.accounts db.entries) (credits b db.accounts db.entries), db)

unfoldable pub sum_account_balance_by_kind : Book → Exec ℤ
unfolding stmt
sum_account_balance_by_kind b = stmt (read_sum b)

-- WHERE merchant_id = $1 ORDER BY created_at: accounts are rows in the order of their creation.
unfoldable pub list_accounts : Uuid → Exec (List Account)
unfolding stmt
list_accounts merchant_id =
    stmt λ env db. ok (select (λ a. a.merchant_id == merchant_id) db.accounts, db)
