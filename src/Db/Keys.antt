-- ===== src/Db/Keys.antt =====
-- The statements over api_keys: nem_pay/api/internal/repository/db/api_keys.sql.go.
use monorepo_payment.Base.{
  length, ℕ, Bool, ◌&&◌, Option, none, List, [], ◌∷◌, ◌++◌, Bytes, bytes_eq, ◌==◌, map, select,
  reverse,
}
use monorepo_payment.Errors.{Result, ok}
use monorepo_payment.Db.{Uuid, KeyKind, ApiKey, Database}
use monorepo_payment.Db.Exec.{Env, Exec, stmt}
use monorepo_payment.Db.Intents.Order.{order_by}
use monorepo_payment.Db.Endpoints.{is_active}

-- WHERE token_prefix = $1 AND revoked_at IS NULL
abbrev pub is_candidate : Bytes → ApiKey → Bool
is_candidate token_prefix k = bytes_eq k.token_prefix token_prefix && is_active k.revoked_at

abbrev pub read_candidates : Bytes → Env → Database → Result (List ApiKey × Database)
read_candidates token_prefix env db = ok (select (is_candidate token_prefix) db.api_keys, db)

unfoldable pub get_keys_by_prefix : Bytes → Exec (List ApiKey)
unfolding stmt
get_keys_by_prefix token_prefix = stmt (read_candidates token_prefix)

abbrev pub new_api_key : Uuid → KeyKind → Bytes → Bytes → Env → Database → ApiKey
new_api_key merchant_id kind token_prefix token_hash env db = record {
  id = env.gen (map (λ k. k.id) db.api_keys);
  merchant_id = merchant_id;
  kind = kind;
  token_prefix = token_prefix;
  token_hash = token_hash;
  created_at = env.now;
  revoked_at = none;
}

abbrev pub add_api_key :
    Uuid → KeyKind → Bytes → Bytes → Env → Database → Result (ApiKey × Database)
add_api_key merchant_id kind token_prefix token_hash env db =
    let k = new_api_key merchant_id kind token_prefix token_hash env db in
    ok (k, record db { api_keys = db.api_keys ++ k ∷ [] })

unfoldable pub insert_api_key : Uuid → KeyKind → Bytes → Bytes → Exec ApiKey
unfolding stmt
insert_api_key merchant_id kind token_prefix token_hash =
    stmt (add_api_key merchant_id kind token_prefix token_hash)

unfoldable pub count_keys_for_merchant : Uuid → Exec ℕ
unfolding stmt
count_keys_for_merchant merchant_id =
    stmt λ env db. ok (length (select (λ k. k.merchant_id == merchant_id) db.api_keys), db)

-- `ListAPIKeysForMerchantRow`: no hash.
pub record ApiKeyRow : Type 0 where
  pub id : Uuid
  pub kind : KeyKind
  pub token_prefix : Bytes
  pub created_at : ℕ
  pub revoked_at : Option ℕ

abbrev pub key_row : ApiKey → ApiKeyRow
key_row k = record {
  id = k.id;
  kind = k.kind;
  token_prefix = k.token_prefix;
  created_at = k.created_at;
  revoked_at = k.revoked_at;
}

unfoldable pub list_api_keys_for_merchant : Uuid → Exec (List ApiKeyRow)
unfolding stmt order_by
list_api_keys_for_merchant merchant_id = stmt λ env db. ok (
  map key_row (
      reverse
        (order_by (λ k. k.created_at) (select (λ k. k.merchant_id == merchant_id) db.api_keys))),
  db,
)
