-- ===== src/Db/Exec.antt =====
-- Statements and transactions: what nem_pay/api/internal/repository/db/db.go (`Queries.WithTx`) and
-- the `Begin` / `Commit` / `Rollback` of each service function give. A statement may fail at any
-- point (a lost connection, a cancelled context): `fails` says at which of the statements, counted
-- from 0. gen_random_uuid() is a parameter that gives an id which its column does not hold.
pub mod After
use monorepo_payment.Base.{ℕ, suc, ◌≡◌, refl, Bool, true, false, List, IsNew, if◌then◌else◌}
use monorepo_payment.Errors.{Error, Result, ok, err, db_failure}
use monorepo_payment.Db.{Database}

pub record Env : Type 0 where
  pub fails : ℕ → Bool
  pub gen : List ℕ → ℕ
  pub gen_new : (used : List ℕ) → IsNew (gen used) used
  -- now(): the start time of the transaction
  pub now : ℕ

-- The database as the connection sees it, and how many statements have been sent.
pub record Session : Type 0 where
  pub db : Database
  pub sent : ℕ

abbrev pub Exec : Type 0 → Type 0
Exec A = Env → Session → Result A × Session

abbrev pub pure : {A : Type 0} → A → Exec A
pure a env s = (ok a, s)

abbrev pub raise : {A : Type 0} → Error → Exec A
raise e env s = (err e, s)

infixl 5 ◌>>=◌ ◌>>◌
unfoldable pub ◌>>=◌ : {A B : Type 0} → Exec A → (A → Exec B) → Exec B
◌>>=◌ m f env s = let (r, s') = m env s in elim r [ ok a ↦ f a env s' | err e ↦ (err e, s') ]

abbrev pub ◌>>◌ : {A B : Type 0} → Exec A → Exec B → Exec B
m >> k = m >>= λ _. k

-- `if !test { return err }`.
abbrev pub require : Bool → Error → Exec (Unit {0})
require test e env s = (if test then ok tt else err e, s)

-- One statement: it fails, or it reads and changes the tables, or the database refuses it.
unfoldable pub stmt : {A : Type 0} → (Env → Database → Result (A × Database)) → Exec A
stmt f env s =
    let sent = record s { sent = suc s.sent } in
    if env.fails s.sent
    then (err db_failure, sent)
    else elim (f env s.db) [ ok (a, db) ↦ (ok a, record sent { db = db }) | err e ↦ (err e, sent) ]

-- How the body of a transaction ends: `commit` calls tx.Commit and returns, `abandon` returns with
-- no error and leaves the deferred tx.Rollback to end the transaction.
pub data Ending (A : Type 0) : Type 0 where
  commit abandon : A → Ending A

-- tx.Commit, over the database `old` that stands if it is refused; a commit whose acknowledgement is
-- lost is not modelled.
abbrev pub finish : {A : Type 0} → Database → Result (Ending A) → Exec A
finish old (ok (commit a)) env w =
    if env.fails w.sent
    then (err db_failure, record { db = old; sent = suc w.sent })
    else (ok a, record { db = w.db; sent = suc w.sent })
finish old (ok (abandon a)) env w = (ok a, record { db = old; sent = w.sent })
finish old (err e) env w = (err e, record { db = old; sent = w.sent })

-- Begin, the body on the transaction's own view, and Commit or the deferred Rollback.
unfoldable pub in_tx : {A : Type 0} → Exec (Ending A) → Exec A
in_tx body env s =
    if env.fails s.sent
    then (err db_failure, record s { sent = suc s.sent })
    else (let (r, w) = body env (record s { sent = suc s.sent }) in finish s.db r env w)

-- Some statement failed.
abbrev pub HasFault : Env → Type 0
HasFault env = (k : ℕ) × (env.fails k ≡ true)

-- No statement fails.
abbrev pub IsCalm : Env → Type 0
IsCalm env = (k : ℕ) → env.fails k ≡ false

-- What a call gives: a value and a database with `Q`, or an error with `E`.
abbrev pub Gives :
    {A : Type 0} → (A → Database → Type 0) → (Error → Type 0) → Result A × Session → Type 0
Gives Q E (ok a, s) = Q a s.db
Gives Q E (err e, s) = E e

-- The same of the answer of one statement.
abbrev pub Answers :
    {A : Type 0} → (A → Database → Type 0) → (Error → Type 0) → Result (A × Database) → Type 0
Answers Q E (ok (a, db)) = Q a db
Answers Q E (err e) = E e

-- The same of the body of a transaction that began at `old`.
abbrev pub Ends : {A : Type 0} → (A → Database → Type 0) → Database → Ending A → Database → Type 0
Ends Q old (commit a) db = Q a db
Ends Q old (abandon a) db = Q a old

-- What a transaction gives: on an error the tables are as they were.
abbrev pub Atomic :
    {A : Type 0}
    → (A → Database → Type 0)
    → (Error → Type 0)
    → Database
    → Result A × Session
    → Type 0
Atomic Q E old (ok a, s) = Q a s.db
Atomic Q E old (err e, s) = E e × (s.db ≡ old)

module _ (env : Env) (E : Error → Type 0) where
  pub Gives-bind :
      {A B : Type 0} (R : A → Database → Type 0) (Q : B → Database → Type 0) (m : Exec A)
      (f : A → Exec B) (s : Session)
      → Gives R E (m env s)
      → ((a : A) (s' : Session) → R a s'.db → Gives Q E (f a env s'))
      → Gives Q E ((m >>= f) env s)
  unfolding ◌>>=◌
  Gives-bind {A} {B} R Q m f s h k = go (m env s) h
    where
      go :
          (r : Result A × Session)
          → Gives R E r
          → Gives Q E (elim (r.0) [ ok a ↦ f a env r.1 | err e ↦ (err e, r.1) ])
      go (ok a, s') g = k a s' g
      go (err e, s') g = g

  pub Gives-require :
      {B : Type 0} (Q : B → Database → Type 0) (test : Bool) (e : Error) (k : Exec B) (s : Session)
      → (test ≡ false → E e)
      → (test ≡ true → Gives Q E (k env s))
      → Gives Q E ((require test e >> k) env s)
  unfolding ◌>>=◌
  Gives-require Q true e k s no_way way = way refl
  Gives-require Q false e k s no_way way = no_way refl

  module _ (fault : HasFault env → E db_failure) where
    pub Gives-stmt :
        {A : Type 0} (Q : A → Database → Type 0) (f : Env → Database → Result (A × Database))
        (s : Session)
        → Answers Q E (f env s.db)
        → Gives Q E (stmt f env s)
    unfolding stmt
    Gives-stmt {A} Q f s h = go (env.fails s.sent) refl (f env s.db) h
      where
        go :
            (b : Bool)
            → env.fails s.sent ≡ b
            → (r : Result (A × Database)) → Answers Q E r
            → Gives Q E (
                if b then (err db_failure, record s { sent = suc s.sent }) else elim r [
                  | ok (a, db) ↦ (ok a, record s { db = db; sent = suc s.sent })
                  | err e ↦ (err e, record s { sent = suc s.sent })
                ])
        go true e r g = fault (s.sent, e)
        go false e (ok (a, db)) g = g
        go false e (err x) g = g

    pub Atomic-stmt :
        {A : Type 0} (Q : A → Database → Type 0) (f : Env → Database → Result (A × Database))
        (s : Session)
        → Answers Q E (f env s.db)
        → Atomic Q E s.db (stmt f env s)
    unfolding stmt
    Atomic-stmt {A} Q f s h = go (env.fails s.sent) refl (f env s.db) h
      where
        go :
            (b : Bool)
            → env.fails s.sent ≡ b
            → (r : Result (A × Database)) → Answers Q E r
            → Atomic Q E s.db (
                if b then (err db_failure, record s { sent = suc s.sent }) else elim r [
                  | ok (a, db) ↦ (ok a, record s { db = db; sent = suc s.sent })
                  | err e ↦ (err e, record s { sent = suc s.sent })
                ])
        go true e r g = (fault (s.sent, e), refl)
        go false e (ok (a, db)) g = g
        go false e (err x) g = (g, refl)

    pub Atomic-in_tx :
        {A : Type 0} (Q : A → Database → Type 0) (body : Exec (Ending A)) (s : Session)
        → Gives (Ends Q s.db) E (body env (record s { sent = suc s.sent }))
        → Atomic Q E s.db (in_tx body env s)
    unfolding in_tx
    Atomic-in_tx {A} Q body s h =
        go (env.fails s.sent) refl (body env (record s { sent = suc s.sent })) h
      where
        done :
            (a : A) (w : Session) (b : Bool)
            → env.fails w.sent ≡ b
            → Q a w.db
            → Atomic Q E s.db (
                if b
                then (err db_failure, record { db = s.db; sent = suc w.sent })
                else (ok a, record { db = w.db; sent = suc w.sent }))
        done a w true e g = (fault (w.sent, e), refl)
        done a w false e g = g

        go :
            (b : Bool)
            → env.fails s.sent ≡ b
            → (r : Result (Ending A) × Session) → Gives (Ends Q s.db) E r
            → Atomic Q E s.db (
                if b
                then (err db_failure, record s { sent = suc s.sent })
                else finish s.db r.0 env r.1)
        go true e r g = (fault (s.sent, e), refl)
        go false e (ok (commit a), w) g = done a w (env.fails w.sent) refl g
        go false e (ok (abandon a), w) g = g
        go false e (err x, w) g = (g, refl)

pub Gives-mono :
    {A : Type 0} (E : Error → Type 0) (Q R : A → Database → Type 0) (r : Result A × Session)
    → ((a : A) (db : Database) → Q a db → R a db)
    → Gives Q E r
    → Gives R E r
Gives-mono E Q R (ok a, s) h g = h a s.db g
Gives-mono E Q R (err e, s) h g = g

pub Ends-mono :
    {A : Type 0} (E : Error → Type 0) (Q R : A → Database → Type 0) (old : Database)
    (r : Result (Ending A) × Session)
    → ((a : A) (db : Database) → Q a db → R a db)
    → Gives (Ends Q old) E r
    → Gives (Ends R old) E r
Ends-mono E Q R old (ok (commit a), s) h g = h a s.db g
Ends-mono E Q R old (ok (abandon a), s) h g = h a old g
Ends-mono E Q R old (err e, s) h g = g
