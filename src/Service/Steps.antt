-- ===== src/Service/Steps.antt =====
-- What the parts give from which the functions of nem_pay/api/internal/service/money.go are made.
use monorepo_payment.Db.Accounts.Open.{
  per_ref-Refers, DistinctAccounts, Opens, singleton-Gives, per_ref-Gives,
}
use monorepo_payment.Db.Accounts.{
  Refers, Book, Grows, get_or_create_singleton_account, get_or_create_per_ref_account,
}
use monorepo_payment.Base.{
  ℕ, ◌≡◌, refl, sym, ◌∙◌, ap, subst, List, [], ◌∷◌, ◌++◌, none, some, Bytes, find?, find?-passes,
  find?-Distinct, find?-update_where, Distinct, map, arith, Option-cases, inl, inr,
}
use monorepo_payment.StateMachine.{Status}
use monorepo_payment.StateMachine.Graph.{Walk}
use monorepo_payment.Chart.{AccountType, AccountKind}
use monorepo_payment.Errors.{Error, Result, ok, err, db_failure, intent_not_found, no_rows}
use monorepo_payment.Db.{Uuid, PaymentIntent, OutboxRow, Database}
use monorepo_payment.Db.Exec.{
  Env, Session, commit, HasFault, Gives, Gives-bind, Gives-stmt, Ends, Answers, pure, ◌>>◌,
}
use monorepo_payment.Db.Intents.{
  has_id, is_of, one_row, read_intent, lock_intent_for_update, with_status, set_status,
  write_status, update_intent_status,
}
use monorepo_payment.Db.Outbox.{new_outbox, add_outbox, insert_outbox}
use monorepo_payment.Ledger.Books.{Line, Lands}
use monorepo_payment.Service.{
  lock, not_found_of, or_not_found, account, per_ref_account, emit, emit_event, advance,
  event_type_for, payload_of,
}
use monorepo_payment.Service.Rules.{Posted, Advances}

abbrev pub DistinctIntents : Database → Type 0
DistinctIntents db = Distinct (map (λ pi. pi.id) db.intents)

-- The row that the lock reads, by id and merchant.
abbrev pub Found : Database → Uuid → Uuid → PaymentIntent → Type 0
Found db id m pi = find? (is_of id m) db.intents ≡ some pi

pub Found-ids :
    (db : Database) (id m : Uuid) (pi : PaymentIntent)
    → Found db id m pi
    → (pi.id ≡ id) × (pi.merchant_id ≡ m)
Found-ids db id m pi f = ground (arith, find?-passes (is_of id m) db.intents pi f)

pub Found-has_id :
    (db : Database) (id m : Uuid) (pi : PaymentIntent)
    → DistinctIntents db
    → Found db id m pi
    → find? (has_id pi.id) db.intents ≡ some pi
Found-has_id db id m pi d f = find?-Distinct (λ x. x.id) (is_of id m) db.intents pi d f

Gives-or_not_found :
    {A : Type 0} (E : Error → Type 0) (Q : A → Database → Type 0) (r : Result A × Session)
    → Gives Q (λ e. E (not_found_of e)) r
    → Gives Q E (or_not_found r.0, r.1)
Gives-or_not_found E Q (ok a, s) g = g
Gives-or_not_found E Q (err e, s) g = g

read_intent-Answers :
    (E : Error → Type 0) (env : Env) (id m : Uuid) (db : Database)
    → (find? (is_of id m) db.intents ≡ none → E no_rows)
    → Answers (λ pi new. Found db id m pi × (new ≡ db)) E (read_intent id m env db)
read_intent-Answers E env id m db missing = elim (Option-cases (find? (is_of id m) db.intents)) [
  | inl e ↦ rw (e, one_row) (missing e)
  | inr (pi, e) ↦ rw (e, one_row) (refl, refl)
]

-- One event of an intent's status is put behind the outbox, and nothing else happens.
abbrev Emitted : PaymentIntent → Database → Database → Type 0
Emitted pi old db =
    (event : OutboxRow) × (db ≡ record old { outbox = old.outbox ++ event ∷ [] })
    × (event.merchant_id ≡ pi.merchant_id)
    × (event.event_type ≡ event_type_for pi.status)
    × (event.payload ≡ payload_of pi)

advanced :
    (old : Database) (now : ℕ) (pi : PaymentIntent) (next : Status) (ls : List Line)
    (mid set db : Database) (updated : PaymentIntent)
    → find? (has_id pi.id) old.intents ≡ some pi
    → Walk pi.settlement_mode pi.status next
    → Posted old pi.merchant_id pi.currency ls mid
    → updated ≡ with_status next now pi
    → set ≡ record mid { intents = set_status pi.id next now mid.intents }
    → Emitted updated set db
    → Advances old now pi next ls updated db
advanced old now pi next ls mid set db updated found walk posted result same
      (event, out, owner, type, payload) =
    record {
      found = found;
      walk = walk;
      result = result;
      transaction = posted.transaction;
      new = posted.new;
      entries = ap (λ x. x.entries) out ∙ ap (λ x. x.entries) same ∙ posted.entries;
      lands =
          subst (λ x. Lands x pi.merchant_id pi.currency posted.transaction ls posted.new)
            (sym (ap (λ x. x.accounts) out ∙ ap (λ x. x.accounts) same)) posted.lands;
      distinct =
          subst DistinctAccounts (sym (ap (λ x. x.accounts) out ∙ ap (λ x. x.accounts) same))
            posted.distinct;
      grows =
          subst (Grows old.accounts) (sym (ap (λ x. x.accounts) out ∙ ap (λ x. x.accounts) same))
            posted.grows;
      intents =
          ap (λ x. x.intents) out
          ∙ ap (λ x. x.intents) same
          ∙ ap (set_status pi.id next now) posted.intents;
      event = event;
      outbox =
          ap (λ x. x.outbox) out
          ∙ ap (λ x. x.outbox ++ event ∷ []) same
          ∙ ap (λ x. x ++ event ∷ []) posted.outbox;
      event_merchant = owner ∙ ap (λ x. x.merchant_id) result;
      event_type = type ∙ ap (λ x. event_type_for x.status) result;
      event_payload = payload;
    }

module _ (env : Env) (E : Error → Type 0) (fault : HasFault env → E db_failure) where
  pub lock-Gives :
      (id m : Uuid) (s : Session)
      → (find? (is_of id m) s.db.intents ≡ none → E intent_not_found)
      → Gives (λ pi db. Found s.db id m pi × (db ≡ s.db)) E (lock id m env s)
  unfolding lock lock_intent_for_update
  lock-Gives id m s missing =
      Gives-or_not_found E (λ pi db. Found s.db id m pi × (db ≡ s.db))
        (lock_intent_for_update id m env s)
        (Gives-stmt env (λ e. E (not_found_of e)) fault (λ pi db. Found s.db id m pi × (db ≡ s.db))
          (read_intent id m) s
          (read_intent-Answers (λ e. E (not_found_of e)) env id m s.db missing))

  -- The same at the start of a transaction over `old`.
  pub begin-Gives :
      (id m : Uuid) (s : Session) (old : Database)
      → s.db ≡ old
      → (find? (is_of id m) old.intents ≡ none → E intent_not_found)
      → Gives (λ pi db. Found old id m pi × (db ≡ old)) E (lock id m env s)
  begin-Gives id m s old same missing =
      subst (λ x. Gives (λ pi db. Found x id m pi × (db ≡ x)) E (lock id m env s)) same
        (lock-Gives id m s (
          subst (λ x. find? (is_of id m) x.intents ≡ none → E intent_not_found) (sym same) missing))

  update-Gives :
      (pi : PaymentIntent) (next : Status) (s : Session)
      → find? (has_id pi.id) s.db.intents ≡ some pi
      → Gives
          (λ updated db.
            (updated ≡ with_status next env.now pi)
            × (db ≡ record s.db { intents = set_status pi.id next env.now s.db.intents }))
          E
          (update_intent_status pi.id next env s)
  unfolding update_intent_status
  update-Gives pi next s f = Gives-stmt env E fault _ (write_status pi.id next) s (
      rw
        (find?-update_where (λ x. x.id) (with_status next env.now) (λ x. refl) pi.id s.db.intents pi
          f)
        (refl, refl))

  emit-Gives :
      (pi : PaymentIntent) (s : Session) → Gives (λ _ db. Emitted pi s.db db) E (emit pi env s)
  unfolding emit emit_event insert_outbox
  emit-Gives pi s =
      let event_id = env.gen (map (λ r. r.event_id) s.db.outbox) in
      Gives-bind env E (λ row db. Emitted pi s.db db) (λ _ db. Emitted pi s.db db)
        (insert_outbox pi.merchant_id event_id (event_type_for pi.status) (payload_of pi))
        (λ _. pure tt) s
        (Gives-stmt env E fault (λ row db. Emitted pi s.db db)
          (add_outbox pi.merchant_id event_id (event_type_for pi.status) (payload_of pi)) s
          (
            new_outbox pi.merchant_id event_id (event_type_for pi.status) (payload_of pi) env s.db,
            refl,
            refl,
            refl,
            refl,
          ))
        λ row s' emitted. emitted

  pub account-Gives :
      (m : Uuid) (type : AccountType) (kind : AccountKind) (c : Bytes) (s : Session)
      → DistinctAccounts s.db.accounts
      → Gives
          (λ id db. Opens (record { merchant_id = m; kind = kind; currency = c }) s.db id db)
          E
          (account m type kind c env s)
  unfolding account
  account-Gives m type kind c s d =
      let b : Book = record { merchant_id = m; kind = kind; currency = c } in
      Gives-bind env E (λ a db. Opens b s.db a.id db) (λ id db. Opens b s.db id db)
        (get_or_create_singleton_account type b) (λ a. pure a.id) s
        (singleton-Gives env E fault type b s d) λ a s' opened. opened

  pub per_ref_account-Gives :
      (m : Uuid) (type : AccountType) (kind : AccountKind) (c : Bytes) (ref : Uuid) (s : Session)
      → DistinctAccounts s.db.accounts
      → Gives
          (λ id db. Opens (record { merchant_id = m; kind = kind; currency = c }) s.db id db)
          E
          (per_ref_account m type kind c ref env s)
  unfolding per_ref_account
  per_ref_account-Gives m type kind c ref s d =
      let b : Book = record { merchant_id = m; kind = kind; currency = c } in
      Gives-bind env E (λ a db. Opens b s.db a.id db) (λ id db. Opens b s.db id db)
        (get_or_create_per_ref_account type b ref) (λ a. pure a.id) s
        (per_ref-Gives env E fault type b ref s d) λ a s' opened. opened

  pub per_ref_account-Refers :
      (m : Uuid) (type : AccountType) (kind : AccountKind) (c : Bytes) (ref : Uuid) (s : Session)
      → DistinctAccounts s.db.accounts
      → Gives
          (λ id db.
            Opens (record { merchant_id = m; kind = kind; currency = c }) s.db id db
            × Refers db.accounts (some ref) id)
          E
          (per_ref_account m type kind c ref env s)
  unfolding per_ref_account
  per_ref_account-Refers m type kind c ref s d =
      let b : Book = record { merchant_id = m; kind = kind; currency = c } in
      Gives-bind env E (λ a db. Opens b s.db a.id db × Refers db.accounts (some ref) a.id)
        (λ id db. Opens b s.db id db × Refers db.accounts (some ref) id)
        (get_or_create_per_ref_account type b ref) (λ a. pure a.id) s
        (per_ref-Refers env E fault type b ref s d) λ a s' opened. opened

  -- The common end: from the posted lines to the accepted step.
  pub advance-Gives :
      (old : Database) (pi : PaymentIntent) (next : Status) (ls : List Line) (s : Session)
      → find? (has_id pi.id) old.intents ≡ some pi
      → Walk pi.settlement_mode pi.status next
      → Posted old pi.merchant_id pi.currency ls s.db
      → Gives (Ends (Advances old env.now pi next ls) old) E (advance pi.id next env s)
  unfolding advance
  advance-Gives old pi next ls s found walk posted =
      Gives-bind env E
        (λ updated db.
          (updated ≡ with_status next env.now pi)
          × (db ≡ record s.db { intents = set_status pi.id next env.now s.db.intents }))
        (Ends (Advances old env.now pi next ls) old) (update_intent_status pi.id next)
        (λ updated. emit updated >> pure (commit updated)) s
        (update-Gives pi next s (rw posted.intents found))
        λ updated s' (result, same).
          Gives-bind env E (λ _ db. Emitted updated s'.db db)
            (Ends (Advances old env.now pi next ls) old) (emit updated) (λ _. pure (commit updated))
            s' (emit-Gives updated s')
            λ _ s'' emitted.
              advanced old env.now pi next ls s.db s'.db s''.db updated found walk posted result
                same emitted
