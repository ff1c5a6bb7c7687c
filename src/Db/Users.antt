-- ===== src/Db/Users.antt =====
-- The statements over users and merchants: nem_pay/api/internal/repository/db/users.sql.go and
-- merchants.sql.go.
use monorepo_payment.Base.{
  Bool, ℕ, none, some, [], ◌∷◌, ◌++◌, Bytes, bytes_eq, ◌==◌, map, find?, select, length,
}
use monorepo_payment.Errors.{Result, ok, err, unique_violation}
use monorepo_payment.Db.{Uuid, Merchant, User, Database}
use monorepo_payment.Db.Exec.{Env, Exec, stmt}
use monorepo_payment.Db.Intents.{one_row}

abbrev pub has_email : Bytes → User → Bool
has_email email u = bytes_eq u.email email

unfoldable pub get_user_by_email : Bytes → Exec User
unfolding stmt
get_user_by_email email = stmt λ env db. one_row (find? (has_email email) db.users) db

unfoldable pub count_users_by_email : Bytes → Exec ℕ
unfolding stmt
count_users_by_email email = stmt λ env db. ok (length (select (has_email email) db.users), db)

abbrev pub new_user : Uuid → Bytes → Bytes → Env → Database → User
new_user merchant_id email password_hash env db = record {
  id = env.gen (map (λ u. u.id) db.users);
  merchant_id = merchant_id;
  email = email;
  password_hash = password_hash;
  created_at = env.now;
}

-- users.email is UNIQUE.
abbrev pub add_user : Uuid → Bytes → Bytes → Env → Database → Result (User × Database)
add_user merchant_id email password_hash env db =
    let u = new_user merchant_id email password_hash env db in
    elim (find? (has_email email) db.users) [
      | none ↦ ok (u, record db { users = db.users ++ u ∷ [] })
      | some old ↦ err unique_violation
    ]

unfoldable pub insert_user : Uuid → Bytes → Bytes → Exec User
unfolding stmt
insert_user merchant_id email password_hash = stmt (add_user merchant_id email password_hash)

abbrev pub new_merchant : Bytes → Env → Database → Merchant
new_merchant name env db = record {
  id = env.gen (map (λ m. m.id) db.merchants);
  name = name;
  created_at = env.now;
}

unfoldable pub create_merchant : Bytes → Exec Merchant
unfolding stmt
create_merchant name = stmt λ env db.
    let m = new_merchant name env db in ok (m, record db { merchants = db.merchants ++ m ∷ [] })

unfoldable pub get_merchant : Uuid → Exec Merchant
unfolding stmt
get_merchant id = stmt λ env db. one_row (find? (λ m. m.id == id) db.merchants) db
