-- ===== src/Ledger/Books.antt =====
-- How the sums over entries move when accounts and entries are added (accounts.sql.go,
-- ledger.sql.go): the books' debits and credits, and the sums of each transaction.
use monorepo_payment.Base.{
  ℕ, ◌+◌, ◌≡◌, refl, Option, Bool, ◌&&◌, some, List, [], ◌∷◌, ◌++◌, All, sum_by, sum_by-append,
  ◌==◌, if◌then◌else◌, Bytes, bytes_eq,
}
use monorepo_payment.Chart.{AccountKind, kind_eq}
use monorepo_payment.Db.{Uuid, Account, Entry}
use monorepo_payment.Db.Accounts.{Owned, Refers, Grows, Book, find_account, debits, credits}

-- The foreign key entries.account_id: every entry's account is there.
abbrev pub HasAccount : List Account → Uuid → Type 0
HasAccount accounts id = (a : Account) × (find_account id accounts ≡ some a)

abbrev pub AllPosted : List Account → List Entry → Type 0
AllPosted accounts = All (λ e. HasAccount accounts e.account_id)

pub AllPosted-Grows :
    (old new : List Account) (es : List Entry) → Grows old new → AllPosted old es → AllPosted new es
AllPosted-Grows old new [] g h = tt
AllPosted-Grows old new (e ∷ es) g ((a, found), rest) =
    ((a, g e.account_id a found), AllPosted-Grows old new es g rest)

pub AllPosted-append :
    (accounts : List Account) (xs ys : List Entry)
    → AllPosted accounts xs
    → AllPosted accounts ys
    → AllPosted accounts (xs ++ ys)
AllPosted-append accounts [] ys h k = k
AllPosted-append accounts (x ∷ xs) ys (h, r) k = (h, AllPosted-append accounts xs ys r k)

-- No book moves when accounts are added.
pub books-Grows :
    (b : Book) (old new : List Account) (es : List Entry)
    → Grows old new
    → AllPosted old es
    → (debits b new es ≡ debits b old es) × (credits b new es ≡ credits b old es)
unfolding debits credits
books-Grows b old new [] g h = (refl, refl)
books-Grows b old new (e ∷ es) g ((a, found), rest) =
    let (ds, cs) = books-Grows b old new es g rest in
    let now = g e.account_id a found in (rw (found, now, ds), rw (found, now, cs))

pub debits-append :
    (b : Book) (accounts : List Account) (xs ys : List Entry)
    → debits b accounts (xs ++ ys) ≡ debits b accounts xs + debits b accounts ys
unfolding debits
debits-append b accounts xs ys = sum_by-append _ xs ys

pub credits-append :
    (b : Book) (accounts : List Account) (xs ys : List Entry)
    → credits b accounts (xs ++ ys) ≡ credits b accounts xs + credits b accounts ys
unfolding credits
credits-append b accounts xs ys = sum_by-append _ xs ys

-- One line of an accounting rule: an amount on the debit or the credit side of a kind of account, of
-- the one with a reference where the rule names it.
pub record Line : Type 0 where
  pub kind : AccountKind
  pub reference : Option Uuid
  pub debit : ℕ
  pub credit : ℕ

-- The lines of a rule that fall in a book, for one merchant and currency.
abbrev pub line_in : Book → Uuid → Bytes → AccountKind → Bool
line_in b merchant_id currency kind =
    merchant_id == b.merchant_id && kind_eq kind b.kind && bytes_eq currency b.currency

abbrev pub line_debits : Book → Uuid → Bytes → List Line → ℕ
line_debits b merchant_id currency =
    sum_by (λ l. if line_in b merchant_id currency l.kind then l.debit else 0)

abbrev pub line_credits : Book → Uuid → Bytes → List Line → ℕ
line_credits b merchant_id currency =
    sum_by (λ l. if line_in b merchant_id currency l.kind then l.credit else 0)

-- Entries that are, one by one, the lines of a rule, all of one transaction.
abbrev pub Lands : List Account → Uuid → Bytes → Uuid → List Line → List Entry → Type 0
Lands accounts merchant_id currency t [] [] = Unit
Lands accounts merchant_id currency t (l ∷ ls) (e ∷ es) =
    Owned accounts merchant_id currency l.kind e.account_id
    × Refers accounts l.reference e.account_id
    × (e.debit ≡ l.debit)
    × (e.credit ≡ l.credit)
    × (e.transaction_id ≡ t)
    × Lands accounts merchant_id currency t ls es
Lands accounts merchant_id currency t _ _ = ⊥

pub Lands-books :
    (b : Book) (accounts : List Account) (merchant_id : Uuid) (currency : Bytes) (t : Uuid)
    (ls : List Line) (es : List Entry)
    → Lands accounts merchant_id currency t ls es
    → (debits b accounts es ≡ line_debits b merchant_id currency ls)
      × (credits b accounts es ≡ line_credits b merchant_id currency ls)
unfolding debits credits
Lands-books b accounts m c t [] [] h = (refl, refl)
Lands-books b accounts m c t [] (e ∷ es) h = absurd h
Lands-books b accounts m c t (l ∷ ls) [] h = absurd h
Lands-books b accounts m c t (l ∷ ls) (e ∷ es) ((a, found, owner, cur, kind), _, d, k, _, rest) =
    let (ds, cs) = Lands-books b accounts m c t ls es rest in
    (rw (found, owner, cur, kind, d, ds), rw (found, owner, cur, kind, k, cs))
