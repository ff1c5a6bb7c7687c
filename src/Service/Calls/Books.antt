-- ===== src/Service/Calls/Books.antt =====
-- What the books say after any sequence of calls of nem_pay/api/internal/service/money.go.
use monorepo_payment.Base.{
  Bool, ◌++◌, ◌&&◌, ℕ, ◌+◌, ◌≡◌, refl, sym, ◌∙◌, ap, subst, List, [], ◌∷◌, Bytes, sum_by,
  sum_by-append, sum_by-update_where, ◌==◌, if◌then◌else◌, arith,
}
use monorepo_payment.StateMachine.{Status, created, escrow, mode_eq}
use monorepo_payment.Chart.{acquirer_receivable, segregated_cash, escrow_liability}
use monorepo_payment.Db.{Uuid, Account, Entry, PaymentIntent, Database}
use monorepo_payment.Db.Exec.{Env, Session}
use monorepo_payment.Db.Intents.{with_status}
use monorepo_payment.Db.Accounts.{Book, debits, credits}
use monorepo_payment.Bank.{Client}
use monorepo_payment.Ledger.Books.{
  Line, Lands, Lands-books, AllPosted, AllPosted-append, AllPosted-Grows, books-Grows,
  debits-append, credits-append, line_debits, line_credits,
}
use monorepo_payment.Service.Rules.{Advances}
use monorepo_payment.Service.Posting.{debit_total, credit_total}
use monorepo_payment.Service.Valid.{IsValid}
use monorepo_payment.Service.Calls.{Call, perform_all, Moves, unchanged, added, moved, Rule}
use monorepo_payment.Service.Calls.Deltas.{
  book, claim, is_mine, claim_of, Rule-receivable, Rule-balanced,
}
use monorepo_payment.Service.Calls.Held.{held_of, Rule-held}
use monorepo_payment.Service.Calls.Keeps.{perform_all-keeps}

-- The columns of one transaction.
abbrev pub debits_of : Uuid → List Entry → ℕ
debits_of t = sum_by (λ e. if e.transaction_id == t then e.debit else 0)

abbrev pub credits_of : Uuid → List Entry → ℕ
credits_of t = sum_by (λ e. if e.transaction_id == t then e.credit else 0)

-- Every entry has its account, and every transaction's entries balance.
pub record Balanced (db : Database) : Type 0 where
  pub posted : AllPosted db.accounts db.entries
  pub balanced : (t : Uuid) → debits_of t db.entries ≡ credits_of t db.entries

-- What the acquirer owes a merchant in a currency is the sum of the captured amounts.
abbrev pub ReceivableHolds : Uuid → Bytes → Database → Type 0
ReceivableHolds m c db =
    debits (book m c acquirer_receivable) db.accounts db.entries
    ≡ credits (book m c acquirer_receivable) db.accounts db.entries
      + sum_by (claim_of m c) db.intents

-- The segregated cash and what is still to come for escrow cover the escrow liability.
abbrev pub EscrowCovered : Uuid → Bytes → Database → Type 0
EscrowCovered m c db =
    debits (book m c segregated_cash) db.accounts db.entries
      + debits (book m c escrow_liability) db.accounts db.entries
      + sum_by (held_of m c) db.intents
    ≡ credits (book m c segregated_cash) db.accounts db.entries
      + credits (book m c escrow_liability) db.accounts db.entries

Lands-AllPosted :
    (accounts : List Account) (m : Uuid) (c : Bytes) (t : Uuid) (ls : List Line) (es : List Entry)
    → Lands accounts m c t ls es
    → AllPosted accounts es
Lands-AllPosted accounts m c t [] [] h = tt
Lands-AllPosted accounts m c t [] (e ∷ es) h = absurd h
Lands-AllPosted accounts m c t (l ∷ ls) [] h = absurd h
Lands-AllPosted accounts m c t (l ∷ ls) (e ∷ es) (own, _, _, _, _, rest) =
    ((own.0, own.1), Lands-AllPosted accounts m c t ls es rest)

Lands-columns :
    (accounts : List Account) (m : Uuid) (c : Bytes) (t u : Uuid) (ls : List Line) (es : List Entry)
    → Lands accounts m c t ls es
    → (debits_of u es ≡ (if t == u then debit_total ls else 0))
      × (credits_of u es ≡ (if t == u then credit_total ls else 0))
Lands-columns accounts m c t u [] [] h = (ground arith, ground arith)
Lands-columns accounts m c t u [] (e ∷ es) h = absurd h
Lands-columns accounts m c t u (l ∷ ls) [] h = absurd h
Lands-columns accounts m c t u (l ∷ ls) (e ∷ es) (_, _, d, k, same, rest) =
    let (ds, cs) = Lands-columns accounts m c t u ls es rest in
    (rw (d, same, ds) (ground arith), rw (k, same, cs) (ground arith))

module _ (old : Database) (now : ℕ) (pi : PaymentIntent) (next : Status) (ls : List Line)
    (updated : PaymentIntent) (db : Database) (valid : IsValid old)
    (a : Advances old now pi next ls updated db) where
  -- A book grows by the lines that fall in it.
  Advances-books :
      (b : Book)
      → AllPosted old.accounts old.entries
      → (debits b db.accounts db.entries
          ≡ debits b old.accounts old.entries + line_debits b pi.merchant_id pi.currency ls)
        × (credits b db.accounts db.entries
            ≡ credits b old.accounts old.entries + line_credits b pi.merchant_id pi.currency ls)
  Advances-books b posted =
      let (ds, cs) = books-Grows b old.accounts db.accounts old.entries a.grows posted in
      let (dl, cl) =
        Lands-books b db.accounts pi.merchant_id pi.currency a.transaction ls a.new a.lands in
      (
        ap (debits b db.accounts) a.entries
            ∙ omega (arith, debits-append b db.accounts old.entries a.new, ds, dl),
        ap (credits b db.accounts) a.entries
            ∙ omega (arith, credits-append b db.accounts old.entries a.new, cs, cl),
      )

  -- A measure of the intents changes by that of the one that moved.
  Advances-sum :
      (w : PaymentIntent → ℕ)
      → sum_by w db.intents + w pi ≡ sum_by w old.intents + w (with_status next now pi)
  Advances-sum w =
      subst (λ x. sum_by w x + w pi ≡ sum_by w old.intents + w (with_status next now pi))
        (sym a.intents)
        (sum_by-update_where (λ x. x.id) (with_status next now) (λ x. refl) w pi.id old.intents pi
          valid.distinct_intents a.found)

  Advances-Balanced : Rule pi next ls → Balanced old → Balanced db
  Advances-Balanced rule ok = record {
    posted = subst (AllPosted db.accounts) (sym a.entries) (
        AllPosted-append db.accounts old.entries a.new
          (AllPosted-Grows old.accounts db.accounts old.entries a.grows ok.posted)
          (Lands-AllPosted db.accounts pi.merchant_id pi.currency a.transaction ls a.new a.lands));
    balanced = λ t.
        let (ds, cs) =
          Lands-columns db.accounts pi.merchant_id pi.currency a.transaction t ls a.new a.lands in
        subst (λ es. debits_of t es ≡ credits_of t es) (sym a.entries)
          (omega (
            arith,
            sum_by-append (λ e. if e.transaction_id == t then e.debit else 0) old.entries a.new,
            sum_by-append (λ e. if e.transaction_id == t then e.credit else 0) old.entries a.new,
            ok.balanced t,
            ds
                ∙ ap (λ n. if a.transaction == t then n else 0) (Rule-balanced pi next ls rule)
                ∙ sym cs,
          ));
  }

  Advances-receivable :
      (m : Uuid) (c : Bytes)
      → Rule pi next ls
      → Balanced old
      → ReceivableHolds m c old
      → ReceivableHolds m c db
  Advances-receivable m c rule ok h =
      let (ds, cs) = Advances-books (book m c acquirer_receivable) ok.posted in
      omega (arith, ds, cs, h, Advances-sum (claim_of m c), Rule-receivable m c now pi next ls rule)

  Advances-escrow :
      (m : Uuid) (c : Bytes)
      → Rule pi next ls
      → Balanced old
      → EscrowCovered m c old
      → EscrowCovered m c db
  Advances-escrow m c rule ok h =
      let (ds, cs) = Advances-books (book m c segregated_cash) ok.posted in
      let (dl, cl) = Advances-books (book m c escrow_liability) ok.posted in
      omega
        (arith, ds, cs, dl, cl, h, Advances-sum (held_of m c), Rule-held m c now pi next ls rule)

-- A created intent adds nothing to a measure that is 0 on it.
added-sum :
    (w : PaymentIntent → ℕ) (old : Database) (new : PaymentIntent)
    → w new ≡ 0
    → sum_by w (old.intents ++ new ∷ []) ≡ sum_by w old.intents
added-sum w old new e = omega (arith, sum_by-append w old.intents (new ∷ []), e)

claim_created : (mine : Bool) (s : Status) (a : ℕ) → s ≡ created → claim mine s a ≡ 0
claim_created mine s a e = rw e (ground arith)

Moves-Balanced :
    (now : ℕ) (old db : Database) → IsValid old → Balanced old → Moves now old db → Balanced db
Moves-Balanced now old db v b (unchanged e) = subst Balanced (sym e) b
Moves-Balanced now old db v b (added new is_created e ok) =
    subst Balanced (sym e) (record { posted = b.posted; balanced = b.balanced })
Moves-Balanced now old db v b (moved pi updated next ls rule a) =
    Advances-Balanced old now pi next ls updated db v a rule b

module _ (m : Uuid) (c : Bytes) (now : ℕ) (old db : Database) (v : IsValid old) where
  Moves-receivable :
      Balanced old × ReceivableHolds m c old
      → Moves now old db
      → Balanced db × ReceivableHolds m c db
  Moves-receivable k (unchanged e) = subst (λ x. Balanced x × ReceivableHolds m c x) (sym e) k
  Moves-receivable (b, h) (added new is_created e ok) =
      subst (λ x. Balanced x × ReceivableHolds m c x) (sym e)
        (
          record { posted = b.posted; balanced = b.balanced },
          omega (
            arith,
            h,
            added-sum (claim_of m c) old new
                (claim_created (is_mine m c new) new.status new.amount is_created),
          ),
        )
  Moves-receivable (b, h) (moved pi updated next ls rule a) = (
    Advances-Balanced old now pi next ls updated db v a rule b,
    Advances-receivable old now pi next ls updated db v a m c rule b h,
  )

  Moves-escrow :
      Balanced old × EscrowCovered m c old → Moves now old db → Balanced db × EscrowCovered m c db
  Moves-escrow k (unchanged e) = subst (λ x. Balanced x × EscrowCovered m c x) (sym e) k
  Moves-escrow (b, h) (added new is_created e ok) =
      subst (λ x. Balanced x × EscrowCovered m c x) (sym e)
        (
          record { posted = b.posted; balanced = b.balanced },
          omega (
            arith,
            h,
            added-sum (held_of m c) old new (
                claim_created (mode_eq new.settlement_mode escrow && is_mine m c new) new.status
                  new.amount is_created),
          ),
        )
  Moves-escrow (b, h) (moved pi updated next ls rule a) = (
    Advances-Balanced old now pi next ls updated db v a rule b,
    Advances-escrow old now pi next ls updated db v a m c rule b h,
  )

-- On valid tables whose transactions balance and whose entries have their accounts, every sequence of
-- calls (create, confirm, capture, refund, release, settle, expire, each with its own clock and failing
-- statements, whether it succeeds or not) leaves tables that are valid and in which the debits of every
-- transaction equal its credits.
pub perform_all-Balanced :
    (bank : Client) (calls : List (Env × Call)) (s : Session)
    → IsValid s.db
    → Balanced s.db
    → IsValid (perform_all bank calls s).db × Balanced (perform_all bank calls s).db
perform_all-Balanced bank calls s v b = perform_all-keeps Balanced Moves-Balanced bank calls s v b

-- If the acquirer's receivable of a merchant and currency equals the sum of the captured amounts, and
-- the tables are valid and balanced, then it does so after every sequence of calls.
pub perform_all-receivable :
    (bank : Client) (calls : List (Env × Call)) (s : Session) (m : Uuid) (c : Bytes)
    → IsValid s.db
    → Balanced s.db
    → ReceivableHolds m c s.db
    → ReceivableHolds m c (perform_all bank calls s).db
perform_all-receivable bank calls s m c v b h =
    (perform_all-keeps (λ db. Balanced db × ReceivableHolds m c db) (Moves-receivable m c) bank
      calls s v (b, h)).1.1

-- If the segregated cash of a merchant and currency, with the captured escrow amounts still to be
-- settled, covers the escrow liability exactly, and the tables are valid and balanced, then it does so
-- after every sequence of calls.
pub perform_all-escrow :
    (bank : Client) (calls : List (Env × Call)) (s : Session) (m : Uuid) (c : Bytes)
    → IsValid s.db
    → Balanced s.db
    → EscrowCovered m c s.db
    → EscrowCovered m c (perform_all bank calls s).db
perform_all-escrow bank calls s m c v b h =
    (perform_all-keeps (λ db. Balanced db × EscrowCovered m c db) (Moves-escrow m c) bank calls s v
      (b, h)).1.1
