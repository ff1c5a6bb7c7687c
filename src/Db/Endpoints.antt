-- ===== src/Db/Endpoints.antt =====
-- The statements over webhook_endpoints and webhook_deliveries:
-- nem_pay/api/internal/repository/db/webhook_endpoints.sql.go and outbox.sql.go.
use monorepo_payment.Base.{
  ℕ, Bool, true, false, ◌&&◌, Option, none, some, List, [], ◌∷◌, ◌++◌, Bytes, ◌==◌, map, select,
  reverse, find?, update_where,
}
use monorepo_payment.Errors.{Result, ok, err, no_rows}
use monorepo_payment.Db.{Uuid, WebhookEndpoint, Delivery, Database}
use monorepo_payment.Db.Exec.{Env, Exec, stmt}
use monorepo_payment.Db.Intents.Order.{order_by}

-- disabled_at IS NULL
abbrev pub is_active : Option ℕ → Bool
is_active none = true
is_active (some t) = false

-- WHERE merchant_id = $1 AND disabled_at IS NULL
abbrev pub is_active_of : Uuid → WebhookEndpoint → Bool
is_active_of merchant_id e = e.merchant_id == merchant_id && is_active e.disabled_at

abbrev pub read_active : Uuid → Env → Database → Result (List WebhookEndpoint × Database)
read_active merchant_id env db =
    ok (order_by (λ e. e.created_at) (select (is_active_of merchant_id) db.endpoints), db)

unfoldable pub list_active_endpoints : Uuid → Exec (List WebhookEndpoint)
unfolding stmt order_by
list_active_endpoints merchant_id = stmt (read_active merchant_id)

-- All of a merchant's endpoints, newest first.
unfoldable pub list_endpoints : Uuid → Exec (List WebhookEndpoint)
unfolding stmt order_by
list_endpoints merchant_id = stmt λ env db. ok (
  reverse (order_by (λ e. e.created_at) (select (λ e. e.merchant_id == merchant_id) db.endpoints)),
  db,
)

abbrev pub new_endpoint : Uuid → Bytes → Bytes → Env → Database → WebhookEndpoint
new_endpoint merchant_id url secret env db = record {
  id = env.gen (map (λ e. e.id) db.endpoints);
  merchant_id = merchant_id;
  url = url;
  secret = secret;
  created_at = env.now;
  disabled_at = none;
}

abbrev pub add_endpoint :
    Uuid → Bytes → Bytes → Env → Database → Result (WebhookEndpoint × Database)
add_endpoint merchant_id url secret env db =
    let e = new_endpoint merchant_id url secret env db in
    ok (e, record db { endpoints = db.endpoints ++ e ∷ [] })

unfoldable pub insert_webhook_endpoint : Uuid → Bytes → Bytes → Exec WebhookEndpoint
unfolding stmt
insert_webhook_endpoint merchant_id url secret = stmt (add_endpoint merchant_id url secret)

-- WHERE id = $1 AND merchant_id = $2 AND disabled_at IS NULL
abbrev pub is_endpoint : Uuid → Uuid → WebhookEndpoint → Bool
is_endpoint id merchant_id e = e.id == id && e.merchant_id == merchant_id && is_active e.disabled_at

abbrev pub disabled : ℕ → WebhookEndpoint → WebhookEndpoint
disabled now e = record e { disabled_at = some now }

-- The UPDATE gives the row that it changed; ids are distinct, so there is at most one.
abbrev pub disable_row : Uuid → Uuid → Env → Database → Result (WebhookEndpoint × Database)
disable_row id merchant_id env db =
    let endpoints = update_where (is_endpoint id merchant_id) (disabled env.now) db.endpoints in
    elim (find? (is_endpoint id merchant_id) db.endpoints) [
      | none ↦ err no_rows
      | some e ↦ ok (disabled env.now e, record db { endpoints = endpoints })
    ]

unfoldable pub disable_endpoint : Uuid → Uuid → Exec WebhookEndpoint
unfolding stmt
disable_endpoint id merchant_id = stmt (disable_row id merchant_id)

abbrev pub add_delivery : Delivery → Env → Database → Result (Unit {0} × Database)
add_delivery d env db = ok (tt, record db { deliveries = db.deliveries ++ d ∷ [] })

unfoldable pub insert_delivery : Delivery → Exec (Unit {0})
unfolding stmt
insert_delivery d = stmt (add_delivery d)
