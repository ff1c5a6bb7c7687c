-- ===== src/Service/Calls/Segregation.antt =====
-- What `EscrowSegregationHolds` (nem_pay/api/internal/ledger/reconcile.go) reports.
use monorepo_payment.Base.{
  ==_eq, ◌==◌, Bool-cases, ◌≤◌, ◌<◌, ◌⊎◌, inl, inr, ◌↔◌, sym, subst, ℕ, ◌+◌, ◌≡◌, refl, ◌∙◌, ap,
  Bool, true, false, Bytes, arith, if◌then◌else◌, ltb,
}
use monorepo_payment.Base.Int.{two64, ℤ, pos, sub_ℕ, leb_ℤ, eq_ℤ, two63, neg_part, wrap64, ◌+ℤ◌}
use monorepo_payment.Chart.{AccountKind, segregated_cash, escrow_liability}
use monorepo_payment.Errors.{Error, db_failure, balance_overflow}
use monorepo_payment.Db.{Uuid, Database}
use monorepo_payment.Db.Exec.{Env, Session, HasFault, Gives, Gives-bind, Gives-stmt, raise, pure}
use monorepo_payment.Db.Accounts.{debits, credits, read_sum, sum_account_balance_by_kind}
use monorepo_payment.Ledger.{numeric_to_int64, sum_by_kind, escrow_segregation_holds}
use monorepo_payment.Service.Calls.Deltas.{book}

-- What is debited and what is credited to a kind of account of a merchant and currency.
abbrev pub debited : Uuid → Bytes → AccountKind → Database → ℕ
debited m c kind db = debits (book m c kind) db.accounts db.entries

abbrev pub credited : Uuid → Bytes → AccountKind → Database → ℕ
credited m c kind db = credits (book m c kind) db.accounts db.entries

-- The balance of a kind of account is past the int64 range.
abbrev pub PastInt64 : Uuid → Bytes → AccountKind → Database → Type 0
PastInt64 m c kind db =
    (credited m c kind db + two63 ≤ debited m c kind db)
    ⊎ (debited m c kind db + two63 < credited m c kind db)

-- Why a check gives no answer.
pub data NoAnswer (env : Env) (m : Uuid) (c : Bytes) (db : Database) : Error → Type 0 where
  fault : HasFault env → NoAnswer env m c db db_failure
  cash_overflow : PastInt64 m c segregated_cash db → NoAnswer env m c db balance_overflow
  owed_overflow : PastInt64 m c escrow_liability db → NoAnswer env m c db balance_overflow

-- The two accounts that the check reads.
pub data Read : AccountKind → Type 0 where
  cash : Read segregated_cash
  owed : Read escrow_liability

past :
    (env : Env) (m : Uuid) (c : Bytes) (db : Database) (kind : AccountKind)
    → Read kind
    → PastInt64 m c kind db
    → NoAnswer env m c db balance_overflow
past env m c db _ cash h = cash_overflow h
past env m c db _ owed h = owed_overflow h

-- The balance `x` of what is debited and credited is an int64.
abbrev InRange : ℕ → ℕ → Type 0
InRange d k = (d < k + two63) × (k ≤ d + two63)

too_high : (d k : ℕ) → leb_ℤ (pos two63) (sub_ℕ d k) ≡ true → k + two63 ≤ d
too_high d k h = ground arith

not_high : (d k : ℕ) → leb_ℤ (pos two63) (sub_ℕ d k) ≡ false → d < k + two63
not_high d k h = ground arith

too_low : (d k : ℕ) → ltb two63 (neg_part (sub_ℕ d k)) ≡ true → d + two63 < k
too_low d k h = ground arith

not_low : (d k : ℕ) → ltb two63 (neg_part (sub_ℕ d k)) ≡ false → k ≤ d + two63
not_low d k h = ground arith

module _ (env : Env) (m : Uuid) (c : Bytes) (old : Database) where
  abbrev Balance : AccountKind → ℤ → Database → Type 0
  Balance kind y db =
      (y ≡ sub_ℕ (debited m c kind old) (credited m c kind old))
      × InRange (debited m c kind old) (credited m c kind old)
      × (db ≡ old)

  numeric_to_int64-Gives :
      (kind : AccountKind) (x : ℤ) (s : Session)
      → Read kind
      → x ≡ sub_ℕ (debited m c kind old) (credited m c kind old)
      → s.db ≡ old
      → Gives (Balance kind) (NoAnswer env m c old) (numeric_to_int64 x env s)
  unfolding numeric_to_int64
  numeric_to_int64-Gives kind x s read is same =
      go (leb_ℤ (pos two63) x) (ltb two63 (neg_part x)) (ap (leb_ℤ (pos two63)) (sym is))
        (ap (λ y. ltb two63 (neg_part y)) (sym is))
    where
      d : ℕ
      d = debited m c kind old

      k : ℕ
      k = credited m c kind old

      go :
          (a b : Bool)
          → leb_ℤ (pos two63) (sub_ℕ d k) ≡ a
          → ltb two63 (neg_part (sub_ℕ d k)) ≡ b
          → Gives (Balance kind) (NoAnswer env m c old) (
              (if a then raise balance_overflow else if b then raise balance_overflow else pure x)
                env s)
      go true b e f = past env m c old kind read (inl (too_high d k e))
      go false true e f = past env m c old kind read (inr (too_low d k f))
      go false false e f = (is, (not_high d k e, not_low d k f), same)

  sum_by_kind-Gives :
      (kind : AccountKind) (s : Session)
      → Read kind
      → s.db ≡ old
      → Gives (Balance kind) (NoAnswer env m c old) (sum_by_kind m kind c env s)
  unfolding sum_by_kind sum_account_balance_by_kind read_sum
  sum_by_kind-Gives kind s read same =
      let E = NoAnswer env m c old in
      let Q : ℤ → Database → Type 0 =
        λ y db. (y ≡ sub_ℕ (debited m c kind old) (credited m c kind old)) × (db ≡ old) in
      Gives-bind env E Q (Balance kind) _ _ s
        (Gives-stmt env E fault Q (read_sum (book m c kind)) s
          (ap (λ db. sub_ℕ (debited m c kind db) (credited m c kind db)) same, same))
        λ x s₁ (is, same₁). numeric_to_int64-Gives kind x s₁ read is same₁

-- The balances cancel, or both are the least int64, whose sum wraps to 0.
abbrev pub Cancel : ℕ → ℕ → ℕ → ℕ → Type 0
Cancel a b c d = (a + b ≡ c + d) ⊎ ((a + two63 ≡ c) × (b + two63 ≡ d))

sub_add : (a b c d : ℕ) → sub_ℕ a c +ℤ sub_ℕ b d ≡ sub_ℕ (a + b) (c + d)
unfolding ◌+ℤ◌
sub_add a b c d = ground arith

zero_at : (p q : ℕ) → p ≡ q → eq_ℤ (wrap64 (sub_ℕ p q)) (pos 0) ≡ true
zero_at p q h = ground arith

zero_least : (p q : ℕ) → p + two64 ≡ q → eq_ℤ (wrap64 (sub_ℕ p q)) (pos 0) ≡ true
zero_least p q h = ground arith

zero_if :
    (p q : ℕ)
    → p < q + two64
    → (p == q) ≡ false
    → eq_ℤ (wrap64 (sub_ℕ p q)) (pos 0) ≡ true
    → p + two64 ≡ q
zero_if p q h other e = ground arith

zero_sum :
    (a b c d : ℕ)
    → InRange a c
    → InRange b d
    → eq_ℤ (wrap64 (sub_ℕ (a + b) (c + d))) (pos 0) ≡ true
    → Cancel a b c d
zero_sum a b c d (h₁, h₂) (h₃, h₄) h = elim (Bool-cases (a + b == c + d)) [
  | inl e ↦ inl (==_eq (a + b) (c + d) e)
  | inr e ↦
      let least : a + b + two64 ≡ c + d = zero_if (a + b) (c + d) (omega arith) e h in
      inr (omega arith, omega arith)
]

zero_back : (a b c d : ℕ) → Cancel a b c d → eq_ℤ (wrap64 (sub_ℕ (a + b) (c + d))) (pos 0) ≡ true
zero_back a b c d (inl e) = zero_at (a + b) (c + d) e
zero_back a b c d (inr (e, f)) = zero_least (a + b) (c + d) (omega (arith, e, f))

wraps_to_zero :
    (a b c d : ℕ)
    → InRange a c
    → InRange b d
    → (eq_ℤ (wrap64 (sub_ℕ a c +ℤ sub_ℕ b d)) (pos 0) ≡ true) ↔ Cancel a b c d
unfolding ◌+ℤ◌
wraps_to_zero a b c d (h₁, h₂) (h₃, h₄) = (
  λ h.
      zero_sum a b c d (h₁, h₂) (h₃, h₄)
        (subst (λ z. eq_ℤ (wrap64 z) (pos 0) ≡ true) (sub_add a b c d) h),
  λ h. subst (λ z. eq_ℤ (wrap64 z) (pos 0) ≡ true) (sym (sub_add a b c d)) (zero_back a b c d h),
)

-- What the check answers on the tables `old`.
abbrev pub Reports : Uuid → Bytes → Database → ℤ × ℤ × Bool → Database → Type 0
Reports m c old (segregated, liability, holds) db =
    (segregated ≡ sub_ℕ (debited m c segregated_cash old) (credited m c segregated_cash old))
    × (liability ≡ sub_ℕ (debited m c escrow_liability old) (credited m c escrow_liability old))
    × ((holds ≡ true)
        ↔ Cancel (debited m c segregated_cash old) (debited m c escrow_liability old)
            (credited m c segregated_cash old) (credited m c escrow_liability old))
    × (db ≡ old)

-- On any tables the check changes nothing, and gives no answer only if a statement failed or one of the
-- two balances is past the int64 range. Its answer is the exact balance, debits less credits, of the
-- segregated cash and of the escrow liability of the merchant and currency, and that the segregation
-- holds exactly if the two cancel, or both are the least int64.
pub escrow_segregation_holds-Reports :
    (env : Env) (m : Uuid) (c : Bytes) (s : Session)
    → Gives (Reports m c s.db) (NoAnswer env m c s.db) (escrow_segregation_holds m c env s)
unfolding escrow_segregation_holds
escrow_segregation_holds-Reports env m c s =
    let E = NoAnswer env m c s.db in
    Gives-bind env E _ (Reports m c s.db) _ _ s
      (sum_by_kind-Gives env m c s.db segregated_cash s cash refl)
      λ x s₁ (is_x, in_x, same₁).
        Gives-bind env E _ (Reports m c s.db) _ _ s₁
          (sum_by_kind-Gives env m c s.db escrow_liability s₁ owed same₁)
          λ y s₂ (is_y, in_y, same₂). (
            is_x,
            is_y,
            subst
                (λ z.
                  (eq_ℤ (wrap64 z) (pos 0) ≡ true)
                  ↔ Cancel (debited m c segregated_cash s.db) (debited m c escrow_liability s.db)
                      (credited m c segregated_cash s.db) (credited m c escrow_liability s.db))
                (sym (
                  ap (λ z. z +ℤ y) is_x
                  ∙ ap
                      (λ z.
                        sub_ℕ (debited m c segregated_cash s.db) (credited m c segregated_cash s.db)
                        +ℤ z)
                      is_y))
                (wraps_to_zero _ _ _ _ in_x in_y),
            same₂,
          )
