-- ===== src/Http/Keys.antt =====
-- The statements over idempotency_keys: nem_pay/api/internal/repository/db/idempotency.sql.go. No
-- other statement names the table, so it stands beside the tables of the services; both are reached
-- by the same connection, whose statements are counted together.
use monorepo_payment.Base.{
  ◌≡◌, refl, ℕ, suc, Bool, true, false, ◌&&◌, not, Option, none, some, List, [], ◌∷◌, ◌++◌, map,
  Bytes, bytes_eq, ltb, ◌==◌, if◌then◌else◌, find?, select, update_where,
}
use monorepo_payment.Errors.{Error, Result, ok, err, db_failure, no_rows, unique_violation}
use monorepo_payment.Db.{Uuid}
use monorepo_payment.Db.Exec.{Env, Session}

pub data KeyStatus : Type 0 where
  in_flight completed : KeyStatus

-- `IdempotencyKey` of models.go.
pub record IdempotencyKey : Type 0 where
  pub id : Uuid
  pub merchant_id : Uuid
  pub idem_key : Bytes
  pub request_hash : Bytes
  pub status : KeyStatus
  pub response_code : Option ℕ
  pub response_body : Bytes
  pub locked_at : ℕ
  pub created_at : ℕ

pub record Store : Type 0 where
  pub session : Session
  pub keys : List IdempotencyKey

abbrev pub KeyExec : Type 0 → Type 0
KeyExec A = Env → Store → Result A × Store

abbrev pub sent_one : Store → Store
sent_one s = record s { session = record s.session { sent = suc s.session.sent } }

-- One statement over the keys, committed by itself.
unfoldable pub key_stmt :
    {A : Type 0} → (Env → List IdempotencyKey → Result (A × List IdempotencyKey)) → KeyExec A
key_stmt f env s =
    if env.fails s.session.sent then (err db_failure, sent_one s) else elim (f env s.keys) [
      | ok (a, keys) ↦ (ok a, record (sent_one s) { keys = keys })
      | err e ↦ (err e, sent_one s)
    ]

-- merchant_id = $1 AND idem_key = $2, the columns of the UNIQUE constraint
abbrev pub is_key : Uuid → Bytes → IdempotencyKey → Bool
is_key merchant_id idem_key r = r.merchant_id == merchant_id && bytes_eq r.idem_key idem_key

abbrev pub new_key : Uuid → Bytes → Bytes → Env → List IdempotencyKey → IdempotencyKey
new_key merchant_id idem_key request_hash env keys = record {
  id = env.gen (map (λ r. r.id) keys);
  merchant_id = merchant_id;
  idem_key = idem_key;
  request_hash = request_hash;
  status = in_flight;
  response_code = none;
  response_body = [];
  locked_at = env.now;
  created_at = env.now;
}

abbrev pub add_key :
    Uuid → Bytes → Bytes → Env → List IdempotencyKey → Result (IdempotencyKey × List IdempotencyKey)
add_key merchant_id idem_key request_hash env keys =
    let row = new_key merchant_id idem_key request_hash env keys in
    elim (find? (is_key merchant_id idem_key) keys) [
      | none ↦ ok (row, keys ++ row ∷ [])
      | some r ↦ err unique_violation
    ]

unfoldable pub insert_in_flight : Uuid → Bytes → Bytes → KeyExec IdempotencyKey
unfolding key_stmt
insert_in_flight merchant_id idem_key request_hash =
    key_stmt (add_key merchant_id idem_key request_hash)

abbrev pub read_key :
    Uuid → Bytes → Env → List IdempotencyKey → Result (IdempotencyKey × List IdempotencyKey)
read_key merchant_id idem_key env keys = elim (find? (is_key merchant_id idem_key) keys) [
  | none ↦ err no_rows
  | some r ↦ ok (r, keys)
]

unfoldable pub get_by_key : Uuid → Bytes → KeyExec IdempotencyKey
unfolding key_stmt
get_by_key merchant_id idem_key = key_stmt (read_key merchant_id idem_key)

-- An exec statement that rewrites the table.
abbrev pub rewrite_keys :
    (List IdempotencyKey → List IdempotencyKey)
    → Env
    → List IdempotencyKey
    → Result (Unit {0} × List IdempotencyKey)
rewrite_keys f env keys = ok (tt, f keys)

abbrev pub completed_row : ℕ → Bytes → IdempotencyKey → IdempotencyKey
completed_row code body r = record r {
  status = completed;
  response_code = some code;
  response_body = body;
}

unfoldable pub mark_completed : Uuid → ℕ → Bytes → KeyExec (Unit {0})
unfolding key_stmt
mark_completed id code body =
    key_stmt (rewrite_keys (update_where (λ r. r.id == id) (completed_row code body)))

unfoldable pub delete_key : Uuid → KeyExec (Unit {0})
unfolding key_stmt
delete_key id = key_stmt (rewrite_keys (select (λ r. not (r.id == id))))

-- status = 'in_flight' AND locked_at < $1
abbrev pub is_orphan : ℕ → IdempotencyKey → Bool
is_orphan cutoff r = elim r.status [ in_flight ↦ ltb r.locked_at cutoff | completed ↦ false ]

-- status = 'completed' AND created_at < $1
abbrev pub is_expired : ℕ → IdempotencyKey → Bool
is_expired cutoff r = elim r.status [ in_flight ↦ false | completed ↦ ltb r.created_at cutoff ]

unfoldable pub reset_orphans : ℕ → KeyExec (Unit {0})
unfolding key_stmt
reset_orphans cutoff = key_stmt (rewrite_keys (select (λ r. not (is_orphan cutoff r))))

unfoldable pub expire_completed : ℕ → KeyExec (Unit {0})
unfolding key_stmt
expire_completed cutoff = key_stmt (rewrite_keys (select (λ r. not (is_expired cutoff r))))

module _ {A : Type 0} (f : Env → List IdempotencyKey → Result (A × List IdempotencyKey)) (env : Env)
    (s : Store) where
  pub key_stmt-fails :
      env.fails s.session.sent ≡ true → key_stmt f env s ≡ (err db_failure, sent_one s)
  unfolding key_stmt
  key_stmt-fails e = rw e refl

  pub key_stmt-ok :
      (a : A) (keys : List IdempotencyKey)
      → env.fails s.session.sent ≡ false
      → f env s.keys ≡ ok (a, keys)
      → key_stmt f env s ≡ (ok a, record (sent_one s) { keys = keys })
  unfolding key_stmt
  key_stmt-ok a keys e h = rw (e, h) refl

  pub key_stmt-err :
      (x : Error)
      → env.fails s.session.sent ≡ false
      → f env s.keys ≡ err x
      → key_stmt f env s ≡ (err x, sent_one s)
  unfolding key_stmt
  key_stmt-err x e h = rw (e, h) refl

  abbrev SameTables : Result A × Store → Type 0
  SameTables x = x.1.session.db ≡ s.session.db

  -- A statement over the keys leaves the other tables alone.
  pub key_stmt-db : (key_stmt f env s).1.session.db ≡ s.session.db
  unfolding key_stmt
  key_stmt-db = go (env.fails s.session.sent) (f env s.keys)
    where
      go :
          (b : Bool) (r : Result (A × List IdempotencyKey))
          → SameTables (
              if b then (err db_failure, sent_one s) else elim r [
                | ok (a, keys) ↦ (ok a, record (sent_one s) { keys = keys })
                | err e ↦ (err e, sent_one s)
              ])
      go true r = refl
      go false (ok (a, keys)) = refl
      go false (err e) = refl
