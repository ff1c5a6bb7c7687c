-- ===== src/Service/Posting.antt =====
-- Opening the accounts of a movement and posting its legs, as the functions of
-- nem_pay/api/internal/service/money.go do it one after the other.
use monorepo_payment.Base.{
  ℕ, ◌%◌, ◌<◌, ◌≡◌, refl, sym, ◌∙◌, ap, subst, false, List, [], ◌∷◌, Option, none, some, Bytes,
  bytes_eq_refl, sum_by, arith, ◌++◌, append-nil,
}
use monorepo_payment.Base.Int.{pos, two64}
use monorepo_payment.Chart.{AccountKind, TransactionKind}
use monorepo_payment.Errors.{Error, db_failure}
use monorepo_payment.Db.{Uuid, Account, Database}
use monorepo_payment.Db.Exec.{Env, Session, HasFault, Gives, Gives-mono}
use monorepo_payment.Db.Accounts.{Owned, Refers, Grows}
use monorepo_payment.Db.Accounts.Open.{DistinctAccounts, Opens}
use monorepo_payment.Ledger.{Leg, is_bad, check_legs, post_transaction}
use monorepo_payment.Ledger.Checks.{AllGood, total_debit, total_credit, check_legs_iff}
use monorepo_payment.Ledger.Books.{Line, Lands}
use monorepo_payment.Ledger.Post.{Prepared, Wrote, post_transaction-Gives}
use monorepo_payment.Service.{debit_leg, credit_leg}
use monorepo_payment.Service.Rules.{Posted}

-- From `old` to `db` only accounts were added.
pub record Ready (old db : Database) : Type 0 where
  pub distinct : DistinctAccounts db.accounts
  pub grows : Grows old.accounts db.accounts
  pub entries : db.entries ≡ old.entries
  pub intents : db.intents ≡ old.intents
  pub outbox : db.outbox ≡ old.outbox

pub Ready-same : (old db : Database) → DistinctAccounts old.accounts → db ≡ old → Ready old db
Ready-same old db d e = record {
  distinct = subst (λ x. DistinctAccounts x.accounts) (sym e) d;
  grows = subst (λ x. Grows old.accounts x.accounts) (sym e) (λ id a h. h);
  entries = ap (λ x. x.entries) e;
  intents = ap (λ x. x.intents) e;
  outbox = ap (λ x. x.outbox) e;
}

-- A step that posts nothing.
pub Ready-Posted : (old db : Database) (m : Uuid) (c : Bytes) → Ready old db → Posted old m c [] db
Ready-Posted old db m c r = record {
  transaction = 0;
  new = [];
  entries = r.entries ∙ sym (append-nil old.entries);
  lands = tt;
  distinct = r.distinct;
  grows = r.grows;
  intents = r.intents;
  outbox = r.outbox;
}

module _ {m : Uuid} {kind : AccountKind} {c : Bytes} where
  pub Ready-open :
      (old mid : Database) (id : Uuid) (db : Database)
      → Ready old mid
      → Opens (record { merchant_id = m; kind = kind; currency = c }) mid id db
      → Ready old db
  Ready-open old mid id db r o = record {
    distinct = o.distinct;
    grows = λ x a h. o.grows x a (r.grows x a h);
    entries = o.entries ∙ r.entries;
    intents = o.intents ∙ r.intents;
    outbox = o.outbox ∙ r.outbox;
  }

pub Owned-Grows :
    (old new : List Account) (m : Uuid) (c : Bytes) (kind : AccountKind) (id : Uuid)
    → Grows old new
    → Owned old m c kind id
    → Owned new m c kind id
Owned-Grows old new m c kind id g (a, found, p, q, r) = (a, g id a found, p, q, r)

pub Refers-Grows :
    (old new : List Account) (ref : Option Uuid) (id : Uuid)
    → Grows old new
    → Refers old ref id
    → Refers new ref id
Refers-Grows old new none id g h = tt
Refers-Grows old new (some ref) id g (a, found, is) = (a, g id a found, is)

pub debit_good : (id : Uuid) (n : ℕ) (c : Bytes) → 0 < n → is_bad (debit_leg id (pos n) c) ≡ false
debit_good id n c h = ground arith

pub credit_good : (id : Uuid) (n : ℕ) (c : Bytes) → 0 < n → is_bad (credit_leg id (pos n) c) ≡ false
credit_good id n c h = ground arith

-- The two columns of a rule.
abbrev pub debit_total : List Line → ℕ
debit_total = sum_by (λ l. l.debit)

abbrev pub credit_total : List Line → ℕ
credit_total = sum_by (λ l. l.credit)

Prepared-AllGood :
    (accounts : List Account) (m : Uuid) (c : Bytes) (ls : List Line) (legs : List Leg)
    → Prepared accounts m c ls legs
    → AllGood c legs × (total_debit legs ≡ debit_total ls) × (total_credit legs ≡ credit_total ls)
Prepared-AllGood accounts m c [] [] h = (tt, refl, refl)
Prepared-AllGood accounts m c [] (e ∷ es) h = absurd h
Prepared-AllGood accounts m c (l ∷ ls) [] h = absurd h
Prepared-AllGood accounts m c (l ∷ ls) (e ∷ es) (owned, _, d, k, good, cur, rest) =
    let (all, ds, ks) = Prepared-AllGood accounts m c ls es rest in
    (((good, rw cur (bytes_eq_refl c)), all), rw (d, ds), rw (k, ks))

Prepared-passes :
    (accounts : List Account) (m : Uuid) (c : Bytes) (l : Line) (ls : List Line) (legs : List Leg)
    → Prepared accounts m c (l ∷ ls) legs
    → debit_total (l ∷ ls) ≡ credit_total (l ∷ ls)
    → check_legs legs ≡ none
Prepared-passes accounts m c l ls [] h balanced = absurd h
Prepared-passes accounts m c l ls (e ∷ es) h balanced =
    let (all, ds, ks) = Prepared-AllGood accounts m c (l ∷ ls) (e ∷ es) h in
    (check_legs_iff (e ∷ es)).1 (
      λ p. cc,
      subst (λ x. AllGood x (e ∷ es)) (sym h.5) all,
      ap (λ n. n % two64) (ds ∙ balanced ∙ sym ks),
    )

-- Legs that are the lines of a balanced rule are posted.
pub post-Gives :
    (env : Env) (E : Error → Type 0) (fault : HasFault env → E db_failure) (old : Database)
    (m : Uuid) (c : Bytes) (kind : TransactionKind) (ref : Option Uuid) (l : Line) (ls : List Line)
    (legs : List Leg) (s : Session)
    → Ready old s.db
    → Prepared s.db.accounts m c (l ∷ ls) legs
    → debit_total (l ∷ ls) ≡ credit_total (l ∷ ls)
    → Gives (λ _ db. Posted old m c (l ∷ ls) db) E (post_transaction m kind ref legs env s)
post-Gives env E fault old m c kind ref l ls legs s r h balanced =
    Gives-mono E (λ t db. Wrote s.db m c (l ∷ ls) t db) (λ _ db. Posted old m c (l ∷ ls) db)
      (post_transaction m kind ref legs env s)
      (λ t db (new, es, lands, accounts, intents, outbox). record {
        transaction = t;
        new = new;
        entries = es ∙ ap (λ x. x ++ new) r.entries;
        lands = subst (λ x. Lands x m c t (l ∷ ls) new) (sym accounts) lands;
        distinct = subst DistinctAccounts (sym accounts) r.distinct;
        grows = subst (Grows old.accounts) (sym accounts) r.grows;
        intents = intents ∙ r.intents;
        outbox = outbox ∙ r.outbox;
      })
      (post_transaction-Gives env E fault m c kind ref (l ∷ ls) legs s h
        (Prepared-passes s.db.accounts m c l ls legs h balanced))
