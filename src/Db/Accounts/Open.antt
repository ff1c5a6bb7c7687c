-- ===== src/Db/Accounts/Open.antt =====
-- What get-or-create gives (GetOrCreateSingletonAccount and GetOrCreatePerRefAccount of
-- nem_pay/api/internal/repository/db/accounts.sql.go): an account of the book asked for.
use monorepo_payment.Db.Accounts.{
  find_account, Refers, has_ref, Owned, Grows, Book, in_book, conflicts, get_or_create, new_account,
  get_or_create_singleton_account, get_or_create_per_ref_account,
}
use monorepo_payment.Base.{
  ==_eq, ap, ◌≡◌, refl, ◌∙◌, true, Option, none, some, List, [], ◌∷◌, ◌++◌, arith, map, find?,
  find?-passes, find?-append, find?-append_none, bytes_eq_sound, Distinct, Distinct-add,
  find?-Distinct, find?-IsNew, ==_refl, ◌==◌, Option-cases, inl, inr,
}
use monorepo_payment.Chart.{AccountType, AccountKind, kind_eq}
use monorepo_payment.Errors.{Error, db_failure}
use monorepo_payment.Db.{Uuid, Account, Database}
use monorepo_payment.Db.Exec.{Env, Session, HasFault, Gives, Answers, Gives-stmt}

pub kind_eq_sound : (a b : AccountKind) → kind_eq a b ≡ true → a ≡ b
kind_eq_sound a b h = ground arith

abbrev pub DistinctAccounts : List Account → Type 0
DistinctAccounts accounts = Distinct (map (λ a. a.id) accounts)

-- From `old` to `db` only accounts were added, and `id` is one of the book.
pub record Opens (b : Book) (old : Database) (id : Uuid) (db : Database) : Type 0 where
  pub there : Owned db.accounts b.merchant_id b.currency b.kind id
  pub distinct : DistinctAccounts db.accounts
  pub grows : Grows old.accounts db.accounts
  pub entries : db.entries ≡ old.entries
  pub intents : db.intents ≡ old.intents
  pub outbox : db.outbox ≡ old.outbox

in_book_sound :
    (b : Book) (a : Account)
    → in_book b a ≡ true
    → (a.merchant_id ≡ b.merchant_id) × (a.currency ≡ b.currency) × (a.kind ≡ b.kind)
in_book_sound b a h =
    ground (arith, bytes_eq_sound a.currency b.currency, kind_eq_sound a.kind b.kind)

conflicts-in_book :
    (b : Book) (ref : Option Uuid) (a : Account) → conflicts b ref a ≡ true → in_book b a ≡ true
conflicts-in_book b ref a h = ground arith

Opens-found :
    (b : Book) (ref : Option Uuid) (db : Database) (a : Account)
    → DistinctAccounts db.accounts
    → find? (conflicts b ref) db.accounts ≡ some a
    → Opens b db a.id db
Opens-found b ref db a d f = record {
  there =
      (let (m, c, k) =
          in_book_sound b a
            (conflicts-in_book b ref a (find?-passes (conflicts b ref) db.accounts a f)) in
        (a, find?-Distinct (λ x. x.id) (conflicts b ref) db.accounts a d f, m, c, k));
  distinct = d;
  grows = λ id x h. h;
  entries = refl;
  intents = refl;
  outbox = refl;
}

new_account-found :
    (type : AccountType) (b : Book) (ref : Option Uuid) (env : Env) (db : Database)
    → let a = new_account type b ref env db in find_account a.id (db.accounts ++ a ∷ []) ≡ some a
new_account-found type b ref env db =
    let a = new_account type b ref env db in
    find?-append_none (λ x. x.id == a.id) db.accounts (a ∷ [])
      (find?-IsNew (λ x. x.id) a.id db.accounts (env.gen_new (map (λ x. x.id) db.accounts)))
    ∙ rw (==_refl a.id)

Opens-new :
    (type : AccountType) (b : Book) (ref : Option Uuid) (env : Env) (db : Database)
    → DistinctAccounts db.accounts
    → let a = new_account type b ref env db in
      Opens b db a.id (record db { accounts = db.accounts ++ a ∷ [] })
Opens-new type b ref env db d =
    let a = new_account type b ref env db in
    let new = env.gen_new (map (λ x. x.id) db.accounts) in
    record {
      there = (a, new_account-found type b ref env db, refl, refl, refl);
      distinct = Distinct-add (λ x. x.id) db.accounts a d new;
      grows = λ id x h. find?-append (λ y. y.id == id) db.accounts (a ∷ []) x h;
      entries = refl;
      intents = refl;
      outbox = refl;
    }

get_or_create-Answers :
    (E : Error → Type 0) (type : AccountType) (b : Book) (ref : Option Uuid) (env : Env)
    (db : Database)
    → DistinctAccounts db.accounts
    → Answers (λ a new. Opens b db a.id new) E (get_or_create type b ref env db)
get_or_create-Answers E type b ref env db d =
    elim (Option-cases (find? (conflicts b ref) db.accounts)) [
      | inl e ↦ rw (e, get_or_create) (Opens-new type b ref env db d)
      | inr (a, e) ↦ rw (e, get_or_create) (Opens-found b ref db a d e)
    ]

conflicts-ref :
    (b : Book) (ref : Uuid) (a : Account)
    → conflicts b (some ref) a ≡ true
    → a.reference_id ≡ some ref
conflicts-ref b ref a h = go a.reference_id (ground (arith, h))
  where
    go : (o : Option Uuid) → has_ref o (some ref) ≡ true → o ≡ some ref
    go none e = absurd (ground arith)
    go (some x) e = ap some (==_eq x ref e)

-- An account that is opened for a reference has it.
get_or_create-Refers :
    (E : Error → Type 0) (type : AccountType) (b : Book) (ref : Uuid) (env : Env) (db : Database)
    → DistinctAccounts db.accounts
    → Answers
        (λ a new. Opens b db a.id new × Refers new.accounts (some ref) a.id)
        E
        (get_or_create type b (some ref) env db)
get_or_create-Refers E type b ref env db d =
    elim (Option-cases (find? (conflicts b (some ref)) db.accounts)) [
      | inl e ↦
          rw (e, get_or_create)
            (
              Opens-new type b (some ref) env db d,
              (
                new_account type b (some ref) env db,
                new_account-found type b (some ref) env db,
                refl,
              ),
            )
      | inr (a, e) ↦
          rw (e, get_or_create)
            (
              Opens-found b (some ref) db a d e,
              (
                a,
                find?-Distinct (λ x. x.id) (conflicts b (some ref)) db.accounts a d e,
                conflicts-ref b ref a (find?-passes (conflicts b (some ref)) db.accounts a e),
              ),
            )
    ]

module _ (env : Env) (E : Error → Type 0) (fault : HasFault env → E db_failure) where
  pub singleton-Gives :
      (type : AccountType) (b : Book) (s : Session)
      → DistinctAccounts s.db.accounts
      → Gives (λ a db. Opens b s.db a.id db) E (get_or_create_singleton_account type b env s)
  unfolding get_or_create_singleton_account
  singleton-Gives type b s d =
      Gives-stmt env E fault (λ a db. Opens b s.db a.id db) (get_or_create type b none) s
        (get_or_create-Answers E type b none env s.db d)

  pub per_ref-Gives :
      (type : AccountType) (b : Book) (ref : Uuid) (s : Session)
      → DistinctAccounts s.db.accounts
      → Gives (λ a db. Opens b s.db a.id db) E (get_or_create_per_ref_account type b ref env s)
  unfolding get_or_create_per_ref_account
  per_ref-Gives type b ref s d =
      Gives-stmt env E fault (λ a db. Opens b s.db a.id db) (get_or_create type b (some ref)) s
        (get_or_create-Answers E type b (some ref) env s.db d)

  pub per_ref-Refers :
      (type : AccountType) (b : Book) (ref : Uuid) (s : Session)
      → DistinctAccounts s.db.accounts
      → Gives
          (λ a db. Opens b s.db a.id db × Refers db.accounts (some ref) a.id)
          E
          (get_or_create_per_ref_account type b ref env s)
  unfolding get_or_create_per_ref_account
  per_ref-Refers type b ref s d =
      Gives-stmt env E fault (λ a db. Opens b s.db a.id db × Refers db.accounts (some ref) a.id)
        (get_or_create type b (some ref)) s (get_or_create-Refers E type b ref env s.db d)
