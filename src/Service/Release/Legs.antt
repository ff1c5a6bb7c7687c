-- ===== src/Service/Release/Legs.antt =====
-- The optional legs of `Intents.Release` (nem_pay/api/internal/service/money.go) and the balance of
-- its lines.
use monorepo_payment.Base.{
  Option, ℕ, ◌-◌, ◌≤◌, ◌<◌, ◌≡◌, refl, subst, Bool, true, false, List, [], ◌∷◌, ◌++◌, Bytes, arith,
  ltb, if◌then◌else◌, Bool-cases, inl, inr, sum_by-append,
}
use monorepo_payment.Base.Int.{pos, ltb_ℤ, wrap64, ◌-ℤ◌, two63}
use monorepo_payment.Chart.{AccountKind}
use monorepo_payment.Errors.{Error}
use monorepo_payment.Db.{Uuid, Account, Database}
use monorepo_payment.Db.Exec.{Env, Session, Exec, Gives, Gives-bind, ◌>>=◌, pure}
use monorepo_payment.Db.Accounts.{Grows}
use monorepo_payment.Ledger.{Leg}
use monorepo_payment.Ledger.Books.{Line}
use monorepo_payment.Ledger.Post.{Prepared}
use monorepo_payment.Service.{credit_leg}
use monorepo_payment.Service.Rules.{unless_zero, cr_for}
use monorepo_payment.Service.Posting.{
  Ready, Ready-open, Owned-Grows, Refers-Grows, credit_good, debit_total, credit_total,
}
use monorepo_payment.Service.Pairs.{OpensRef}
use monorepo_payment.Service.Release.{credit_if}

pub Prepared-Grows :
    (old new : List Account) (m : Uuid) (c : Bytes) (ls : List Line) (legs : List Leg)
    → Grows old new
    → Prepared old m c ls legs
    → Prepared new m c ls legs
Prepared-Grows old new m c [] [] g h = tt
Prepared-Grows old new m c [] (e ∷ es) g h = absurd h
Prepared-Grows old new m c (l ∷ ls) [] g h = absurd h
Prepared-Grows old new m c (l ∷ ls) (e ∷ es) g (own, refers, d, k, good, cur, rest) = (
  Owned-Grows old new m c l.kind e.account_id g own,
  Refers-Grows old new l.reference e.account_id g refers,
  d,
  k,
  good,
  cur,
  Prepared-Grows old new m c ls es g rest,
)

pub Prepared-append :
    (accounts : List Account) (m : Uuid) (c : Bytes) (ls ks : List Line) (legs more : List Leg)
    → Prepared accounts m c ls legs
    → Prepared accounts m c ks more
    → Prepared accounts m c (ls ++ ks) (legs ++ more)
Prepared-append accounts m c [] ks [] more h k = k
Prepared-append accounts m c [] ks (e ∷ es) more h k = absurd h
Prepared-append accounts m c (l ∷ ls) ks [] more h k = absurd h
Prepared-append accounts m c (l ∷ ls) ks (e ∷ es) more (own, refers, d, x, good, cur, rest) k =
    (own, refers, d, x, good, cur, Prepared-append accounts m c ls ks es more rest k)

-- The columns of an optional line.
unless_zero_totals :
    (kind : AccountKind) (ref : Option Uuid) (n : ℕ)
    → (debit_total (unless_zero kind ref n) ≡ 0) × (credit_total (unless_zero kind ref n) ≡ n)
unless_zero_totals kind ref n = elim (Bool-cases (ltb 0 n)) [
  | inl e ↦ ground arith
  | inr e ↦ ground arith
]

-- What is released is paid out: the amount twice on either side.
pub release_balanced :
    (a fee : ℕ) (payee_kind fee_kind : AccountKind) (r q : Option Uuid)
    → fee ≤ a
    → debit_total (unless_zero payee_kind r (a - fee) ++ unless_zero fee_kind q fee) ≡ 0
      × (credit_total (unless_zero payee_kind r (a - fee) ++ unless_zero fee_kind q fee) ≡ a)
release_balanced a fee payee_kind fee_kind r q h =
    let xs = unless_zero payee_kind r (a - fee) in
    let ys = unless_zero fee_kind q fee in
    let (dx, cx) = unless_zero_totals payee_kind r (a - fee) in
    let (dy, cy) = unless_zero_totals fee_kind q fee in
    (
      omega (arith, sum_by-append (λ l. l.debit) xs ys, dx, dy),
      omega (arith, sum_by-append (λ l. l.credit) xs ys, cx, cy),
    )

-- The difference of an amount in range and a fee within it does not wrap.
pub payee_amount_lem : (a fee : ℕ) → fee ≤ a → a < two63 → wrap64 (pos a -ℤ pos fee) ≡ pos (a - fee)
unfolding ◌-ℤ◌
payee_amount_lem a fee h k = ground arith

module _ (env : Env) (E : Error → Type 0) (old : Database) (m : Uuid) (c : Bytes)
    (kind : AccountKind) (ref : Option Uuid) (open_account : Exec Uuid) where
  -- From `mid` on only accounts were added, and the legs are those of the optional line.
  abbrev pub Optional : ℕ → Database → List Leg → Database → Type 0
  Optional n mid legs db =
      Ready old db
      × Grows mid.accounts db.accounts
      × Prepared db.accounts m c (unless_zero kind ref n) legs

  credit_on-Gives :
      (n : ℕ) (b : Bool) (s : Session)
      → (b ≡ true → 0 < n)
      → OpensRef env E old m c kind ref open_account
      → Ready old s.db
      → Gives
          (λ legs db.
            Ready old db
            × Grows s.db.accounts db.accounts
            × Prepared db.accounts m c (if b then cr_for kind ref n ∷ [] else []) legs)
          E
          ((if b then (open_account >>= λ id. pure (credit_leg id (pos n) c ∷ [])) else pure []) env
            s)
  credit_on-Gives n false s positive opens r = (r, (λ id a h. h), tt)
  credit_on-Gives n true s positive opens r =
      Gives-bind env E _
        (λ legs db.
          Ready old db
          × Grows s.db.accounts db.accounts
          × Prepared db.accounts m c (cr_for kind ref n ∷ []) legs)
        open_account (λ id. pure (credit_leg id (pos n) c ∷ [])) s (opens s r)
        λ id s₁ (o, refers). (
          Ready-open old s.db id s₁.db r o,
          o.grows,
          (o.there, refers, refl, refl, credit_good id n c (positive refl), refl, tt),
        )

  positive_test : (n : ℕ) → ltb 0 n ≡ ltb_ℤ (pos 0) (pos n)
  positive_test n = ground arith

  pub credit_if-Gives :
      (n : ℕ) (s : Session)
      → OpensRef env E old m c kind ref open_account
      → Ready old s.db
      → Gives (Optional n s.db) E (credit_if open_account c (pos n) env s)
  unfolding credit_if
  credit_if-Gives n s opens r =
      subst
        (λ b. Gives (Optional n s.db) E (
          (if b then (open_account >>= λ id. pure (credit_leg id (pos n) c ∷ [])) else pure []) env
            s))
        (positive_test n) (credit_on-Gives n (ltb 0 n) s (λ e. ground arith) opens r)
