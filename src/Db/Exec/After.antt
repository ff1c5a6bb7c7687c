-- ===== src/Db/Exec/After.antt =====
-- Calls outside a transaction: each statement stands by itself (`db.Queries` over the pool,
-- nem_pay/api/internal/repository/db/db.go), so a call that fails may have changed tables before.
use monorepo_payment.Base.{suc, ◌≡◌, refl, Bool, true, false, if◌then◌else◌}
use monorepo_payment.Errors.{Error, Result, ok, err, db_failure}
use monorepo_payment.Db.{Database}
use monorepo_payment.Db.Exec.{Env, Session, Exec, stmt, ◌>>=◌, HasFault}

-- What holds of the tables after a call that gave a value, and after one that gave an error.
abbrev pub After :
    {A : Type 0}
    → (A → Database → Type 0)
    → (Error → Database → Type 0)
    → Result A × Session
    → Type 0
After Q E (ok a, s) = Q a s.db
After Q E (err e, s) = E e s.db

-- The same of the answer of one statement over `old`.
abbrev pub Answered :
    {A : Type 0}
    → (A → Database → Type 0)
    → (Error → Database → Type 0)
    → Database
    → Result (A × Database)
    → Type 0
Answered Q E old (ok (a, db)) = Q a db
Answered Q E old (err e) = E e old

module _ (env : Env) (E : Error → Database → Type 0) where
  pub After-bind :
      {A B : Type 0} (R : A → Database → Type 0) (Q : B → Database → Type 0) (m : Exec A)
      (f : A → Exec B) (s : Session)
      → After R E (m env s)
      → ((a : A) (s' : Session) → R a s'.db → After Q E (f a env s'))
      → After Q E ((m >>= f) env s)
  unfolding ◌>>=◌
  After-bind {A} {B} R Q m f s h k = go (m env s) h
    where
      go :
          (r : Result A × Session)
          → After R E r
          → After Q E (elim (r.0) [ ok a ↦ f a env r.1 | err e ↦ (err e, r.1) ])
      go (ok a, s') g = k a s' g
      go (err e, s') g = g

  pub After-stmt :
      {A : Type 0} (Q : A → Database → Type 0) (f : Env → Database → Result (A × Database))
      (s : Session)
      → (HasFault env → E db_failure s.db)
      → Answered Q E s.db (f env s.db)
      → After Q E (stmt f env s)
  unfolding stmt
  After-stmt {A} Q f s fault h = go (env.fails s.sent) refl (f env s.db) h
    where
      go :
          (b : Bool)
          → env.fails s.sent ≡ b
          → (r : Result (A × Database)) → Answered Q E s.db r
          → After Q E (
              if b then (err db_failure, record s { sent = suc s.sent }) else elim r [
                | ok (a, db) ↦ (ok a, record s { db = db; sent = suc s.sent })
                | err e ↦ (err e, record s { sent = suc s.sent })
              ])
      go true e r g = fault (s.sent, e)
      go false e (ok (a, db)) g = g
      go false e (err x) g = g

pub After-mono :
    {A : Type 0} (Q R : A → Database → Type 0) (E F : Error → Database → Type 0)
    (r : Result A × Session)
    → ((a : A) (db : Database) → Q a db → R a db)
    → ((e : Error) (db : Database) → E e db → F e db)
    → After Q E r
    → After R F r
After-mono Q R E F (ok a, s) h k g = h a s.db g
After-mono Q R E F (err e, s) h k g = k e s.db g
