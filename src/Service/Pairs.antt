-- ===== src/Service/Pairs.antt =====
-- The movements of one debit and one credit: Capture, Refund and settleOne of
-- nem_pay/api/internal/service/money.go open the account of the debit, then that of the credit, post
-- both legs, and advance the intent.
use monorepo_payment.Base.{
  ℕ, ◌<◌, ◌≡◌, refl, sym, subst, [], ◌∷◌, Option, none, some, Bytes, find?, arith, List,
}
use monorepo_payment.Base.Int.{pos}
use monorepo_payment.StateMachine.{Status}
use monorepo_payment.StateMachine.Graph.{Walk}
use monorepo_payment.Chart.{AccountKind, TransactionKind}
use monorepo_payment.Errors.{Error, db_failure}
use monorepo_payment.Db.{Uuid, Account, PaymentIntent, Database}
use monorepo_payment.Db.Exec.{
  Env, Session, Exec, HasFault, Gives, Ends, Gives-mono, Gives-bind, ◌>>=◌, ◌>>◌,
}
use monorepo_payment.Db.Intents.{has_id}
use monorepo_payment.Db.Accounts.{Owned, Refers}
use monorepo_payment.Db.Accounts.Open.{Opens}
use monorepo_payment.Ledger.{post_transaction}
use monorepo_payment.Ledger.Post.{Prepared}
use monorepo_payment.Service.{debit_leg, credit_leg, advance}
use monorepo_payment.Service.Rules.{Posted, Advances, dr, cr}
use monorepo_payment.Service.Steps.{advance-Gives}
use monorepo_payment.Service.Posting.{
  Ready, Ready-open, Owned-Grows, debit_good, credit_good, post-Gives,
}

pair-Prepared :
    (accounts : List Account) (m : Uuid) (c : Bytes) (k l : AccountKind) (n : ℕ) (a b : Uuid)
    → 0 < n
    → Owned accounts m c k a
    → Owned accounts m c l b
    → Prepared accounts m c
        (dr k n ∷ cr l n ∷ [])
        (debit_leg a (pos n) c ∷ credit_leg b (pos n) c ∷ [])
pair-Prepared accounts m c k l n a b positive own_a own_b = (
  own_a,
  tt,
  refl,
  refl,
  debit_good a n c positive,
  refl,
  (own_b, tt, refl, refl, credit_good b n c positive, refl, tt),
)

-- An action that opens an account of a kind for a merchant, whenever it is run.
abbrev pub OpensFor :
    Env → (Error → Type 0) → Database → Uuid → Bytes → AccountKind → Exec Uuid → Type 0
OpensFor env E old m c kind open_account =
    (s : Session)
    → Ready old s.db
    → Gives (Opens (record { merchant_id = m; kind = kind; currency = c }) s.db) E
        (open_account env s)

-- The same, of the account with a reference if one is asked for.
abbrev pub OpensRef :
    Env
    → (Error → Type 0)
    → Database
    → Uuid
    → Bytes
    → AccountKind
    → Option Uuid
    → Exec Uuid
    → Type 0
OpensRef env E old m c kind ref open_account =
    (s : Session)
    → Ready old s.db
    → Gives
        (λ id db.
          Opens (record { merchant_id = m; kind = kind; currency = c }) s.db id db
          × Refers db.accounts ref id)
        E (open_account env s)

pub OpensFor-OpensRef :
    (env : Env) (E : Error → Type 0) (old : Database) (m : Uuid) (c : Bytes) (kind : AccountKind)
    (open_account : Exec Uuid)
    → OpensFor env E old m c kind open_account
    → OpensRef env E old m c kind none open_account
OpensFor-OpensRef env E old m c kind open_account h s r =
    Gives-mono E (Opens (record { merchant_id = m; kind = kind; currency = c }) s.db) _
      (open_account env s) (λ _ _ o. (o, tt)) (h s r)

pub pair-Gives :
    (env : Env) (E : Error → Type 0) (failed : HasFault env → E db_failure) (old : Database)
    (pi : PaymentIntent) (next : Status) (m : Uuid) (kind : TransactionKind) (k l : AccountKind)
    (n : ℕ) (open_debit open_credit : Exec Uuid) (s : Session)
    → find? (has_id pi.id) old.intents ≡ some pi
    → Walk pi.settlement_mode pi.status next
    → pi.merchant_id ≡ m
    → 0 < n
    → OpensFor env E old m pi.currency k open_debit
    → OpensFor env E old m pi.currency l open_credit
    → Ready old s.db
    → Gives (Ends (Advances old env.now pi next (dr k n ∷ cr l n ∷ [])) old) E (
        (open_debit >>= λ a. open_credit >>= λ b.
        post_transaction m kind
          (some pi.id)
          (debit_leg a (pos n) pi.currency ∷ credit_leg b (pos n) pi.currency ∷ [])
        >> advance pi.id next)
          env s)
pair-Gives env E failed old pi next m kind k l n open_debit open_credit s found walk owner positive
      od oc r =
    let ls = dr k n ∷ cr l n ∷ [] in
    let Q = Ends (Advances old env.now pi next ls) old in
    Gives-bind env E _ Q _ _ s (od s r) λ a s₁ o₁.
      let r₁ = Ready-open old s.db a s₁.db r o₁ in
      Gives-bind env E _ Q _ _ s₁ (oc s₁ r₁) λ b s₂ o₂.
        Gives-bind env E _ Q _ _ s₂
          (post-Gives env E failed old m pi.currency kind (some pi.id) _ _ _ s₂
            (Ready-open old s₁.db b s₂.db r₁ o₂)
            (pair-Prepared s₂.db.accounts m pi.currency k l n a b positive
              (Owned-Grows s₁.db.accounts s₂.db.accounts m pi.currency k a o₂.grows o₁.there)
              o₂.there)
            (omega arith))
          λ t s₃ posted.
            advance-Gives env E failed old pi next ls s₃ found walk
              (subst (λ x. Posted old x pi.currency ls s₃.db) (sym owner) posted)
