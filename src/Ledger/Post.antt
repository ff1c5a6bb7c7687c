-- ===== src/Ledger/Post.antt =====
-- What `PostTransaction` (nem_pay/api/internal/ledger/post.go) writes.
use monorepo_payment.Base.{
  ◌≡◌, refl, sym, ◌∙◌, ap, subst, true, false, Option, none, List, [], ◌∷◌, ◌++◌, arith, Bytes,
  append_assoc, append-nil,
}
use monorepo_payment.Base.Int.{pos, pos_part}
use monorepo_payment.Chart.{TransactionKind}
use monorepo_payment.Errors.{Error, db_failure}
use monorepo_payment.Db.{Uuid, Account, Entry, Transaction, Database}
use monorepo_payment.Db.Exec.{
  Env, Session, HasFault, Gives, Gives-bind, Gives-mono, Gives-stmt, ◌>>◌, pure,
}
use monorepo_payment.Db.Entries.{
  InsertEntryParams, entry_checks, add_entry, insert_entry, add_transaction, insert_transaction,
}
use monorepo_payment.Ledger.{
  Leg, is_bad, check_legs, insert_entries, post_checked, post_transaction,
}
use monorepo_payment.Ledger.Books.{Line, Lands}
use monorepo_payment.Db.Accounts.{Owned, Refers}

-- The legs that a service function builds are, one by one, the lines of a rule.
abbrev pub Prepared : List Account → Uuid → Bytes → List Line → List Leg → Type 0
Prepared accounts merchant_id currency [] [] = Unit
Prepared accounts merchant_id currency (l ∷ ls) (e ∷ es) =
    Owned accounts merchant_id currency l.kind e.account_id
    × Refers accounts l.reference e.account_id
    × (e.debit ≡ pos l.debit)
    × (e.credit ≡ pos l.credit)
    × (is_bad e ≡ false)
    × (e.currency ≡ currency)
    × Prepared accounts merchant_id currency ls es
Prepared accounts merchant_id currency _ _ = ⊥

-- What is written: the entries of the rule behind those that stand, and nothing else but a row of
-- the table of transactions.
abbrev pub Wrote : Database → Uuid → Bytes → List Line → Uuid → Database → Type 0
Wrote old merchant_id currency ls t db =
    (new : List Entry) × (db.entries ≡ old.entries ++ new)
    × Lands old.accounts merchant_id currency t ls new
    × (db.accounts ≡ old.accounts)
    × (db.intents ≡ old.intents)
    × (db.outbox ≡ old.outbox)

good_checks : (e : Leg) → is_bad e ≡ false → entry_checks e.debit e.credit ≡ true
good_checks e h = ground arith

abbrev AddsEntry : InsertEntryParams → Database → Entry → Database → Type 0
AddsEntry arg old e db =
    (e.transaction_id ≡ arg.transaction_id)
    × (e.account_id ≡ arg.account_id)
    × (e.debit ≡ pos_part arg.debit)
    × (e.credit ≡ pos_part arg.credit)
    × (db ≡ record old { entries = old.entries ++ e ∷ [] })

-- One leg written, then the rest.
Wrote-cons :
    (old mid db : Database) (arg : InsertEntryParams) (row : Entry) (m : Uuid) (c : Bytes)
    (l : Line) (ls : List Line)
    → AddsEntry arg old row mid
    → Owned old.accounts m c l.kind arg.account_id
    → Refers old.accounts l.reference arg.account_id
    → pos_part arg.debit ≡ l.debit
    → pos_part arg.credit ≡ l.credit
    → Wrote mid m c ls arg.transaction_id db
    → Wrote old m c (l ∷ ls) arg.transaction_id db
Wrote-cons old mid db arg row m c l ls (t, a, d, k, same) (acct, found, p, q, r) refers pd pk
      (new, es, lands, accounts, intents, outbox) =
    (
      row ∷ new,
      es ∙ ap (λ x. x.entries ++ new) same ∙ append_assoc old.entries (row ∷ []) new,
      (
        (acct, rw a found, p, q, r),
        subst (Refers old.accounts l.reference) (sym a) refers,
        d ∙ pd,
        k ∙ pk,
        t,
        subst (λ x. Lands x.accounts m c arg.transaction_id ls new) same lands,
      ),
      accounts ∙ ap (λ x. x.accounts) same,
      intents ∙ ap (λ x. x.intents) same,
      outbox ∙ ap (λ x. x.outbox) same,
    )

-- The row of the table of transactions changes nothing else.
Wrote-from :
    (old mid db : Database) (m : Uuid) (c : Bytes) (ls : List Line) (tx : Transaction)
    → mid ≡ record old { transactions = old.transactions ++ tx ∷ [] }
    → Wrote mid m c ls tx.id db
    → Wrote old m c ls tx.id db
Wrote-from old mid db m c ls tx same (new, es, lands, accounts, intents, outbox) = (
  new,
  es ∙ ap (λ x. x.entries ++ new) same,
  subst (λ x. Lands x.accounts m c tx.id ls new) same lands,
  accounts ∙ ap (λ x. x.accounts) same,
  intents ∙ ap (λ x. x.intents) same,
  outbox ∙ ap (λ x. x.outbox) same,
)

module _ (env : Env) (E : Error → Type 0) (fault : HasFault env → E db_failure) where
  insert_entry-Gives :
      (arg : InsertEntryParams) (s : Session)
      → entry_checks arg.debit arg.credit ≡ true
      → Gives (AddsEntry arg s.db) E (insert_entry arg env s)
  unfolding insert_entry
  insert_entry-Gives arg s h =
      Gives-stmt env E fault (AddsEntry arg s.db) (add_entry arg) s
        (rw h (refl, refl, refl, refl, refl))

  insert_entries-Gives :
      (merchant_id : Uuid) (currency : Bytes) (t : Uuid) (ls : List Line) (legs : List Leg)
      (s : Session)
      → Prepared s.db.accounts merchant_id currency ls legs
      → Gives (λ _ db. Wrote s.db merchant_id currency ls t db) E (insert_entries t legs env s)
  unfolding insert_entries
  insert_entries-Gives m c t [] [] s h = ([], sym (append-nil s.db.entries), tt, refl, refl, refl)
  insert_entries-Gives m c t [] (e ∷ es) s h = absurd h
  insert_entries-Gives m c t (l ∷ ls) [] s h = absurd h
  insert_entries-Gives m c t (l ∷ ls) (e ∷ es) s (owned, refers, d, k, good, cur, rest) =
      let arg : InsertEntryParams = record {
        transaction_id = t;
        account_id = e.account_id;
        debit = e.debit;
        credit = e.credit;
        currency = e.currency;
      } in
      Gives-bind env E (AddsEntry arg s.db) (λ _ db. Wrote s.db m c (l ∷ ls) t db)
        (insert_entry arg) (λ _. insert_entries t es) s
        (insert_entry-Gives arg s (good_checks e good))
        λ row s' added.
          Gives-mono E (λ _ db. Wrote s'.db m c ls t db) (λ _ db. Wrote s.db m c (l ∷ ls) t db)
            (insert_entries t es env s')
            (λ _ db wrote.
              Wrote-cons s.db s'.db db arg row m c l ls added owned refers (ap pos_part d)
                (ap pos_part k) wrote)
            (insert_entries-Gives m c t ls es s'
              (subst (λ x. Prepared x.accounts m c ls es) (sym added.4) rest))

  post_checked-Gives :
      (m : Uuid) (c : Bytes) (kind : TransactionKind) (ref : Option Uuid) (ls : List Line)
      (legs : List Leg) (s : Session)
      → Prepared s.db.accounts m c ls legs
      → Gives (λ t db. Wrote s.db m c ls t db) E (post_checked none m kind ref legs env s)
  unfolding post_checked
  post_checked-Gives m c kind ref ls legs s h =
      Gives-bind env E (λ tx db. db ≡ record s.db { transactions = s.db.transactions ++ tx ∷ [] })
        (λ t db. Wrote s.db m c ls t db) (insert_transaction m kind ref)
        (λ tx. insert_entries tx.id legs >> pure tx.id) s
        (Gives-stmt env E fault _ (add_transaction m kind ref) s refl)
        λ tx s' same.
          Gives-bind env E (λ _ db. Wrote s'.db m c ls tx.id db) (λ t db. Wrote s.db m c ls t db)
            (insert_entries tx.id legs) (λ _. pure tx.id) s'
            (insert_entries-Gives m c tx.id ls legs s'
              (subst (λ x. Prepared x.accounts m c ls legs) (sym same) h))
            λ _ s'' wrote. Wrote-from s.db s'.db s''.db m c ls tx same wrote

  -- Legs that are the lines of a rule and pass the checks are written as one transaction.
  pub post_transaction-Gives :
      (m : Uuid) (c : Bytes) (kind : TransactionKind) (ref : Option Uuid) (ls : List Line)
      (legs : List Leg) (s : Session)
      → Prepared s.db.accounts m c ls legs
      → check_legs legs ≡ none
      → Gives (λ t db. Wrote s.db m c ls t db) E (post_transaction m kind ref legs env s)
  unfolding post_transaction
  post_transaction-Gives m c kind ref ls legs s h passes =
      subst (λ x. Gives (λ t db. Wrote s.db m c ls t db) E (post_checked x m kind ref legs env s))
        (sym passes) (post_checked-Gives m c kind ref ls legs s h)
