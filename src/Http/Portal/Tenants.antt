-- ===== src/Http/Portal/Tenants.antt =====
-- The portal's writes stay within their merchant
-- (nem_pay/api/internal/httpapi/webhook_endpoints.go).
use monorepo_payment.Http.Intents.{invalid_request, Response, success, failure, Serve, reject}
use monorepo_payment.Base.{
  ℕ, ◌≡◌, refl, Bool, true, false, not, Option, none, some, List, [], ◌∷◌, ◌++◌, Bytes, ◌==◌,
  ==_refl, if◌then◌else◌, find?, select, update_where, arith,
}
use monorepo_payment.Errors.{Result, ok, err, no_rows}
use monorepo_payment.Db.{Uuid, WebhookEndpoint, Database}
use monorepo_payment.Db.Exec.{Env, Session}
use monorepo_payment.Db.Exec.After.{After, Answered, After-stmt}
use monorepo_payment.Db.Endpoints.{
  new_endpoint, add_endpoint, insert_webhook_endpoint, is_endpoint, disabled, disable_row,
  disable_endpoint,
}
use monorepo_payment.Http.Portal.{
  EndpointView, CreateEndpointRequest, Parsers, valid_endpoint_url, is_empty, shown_created,
  create_checked, create_endpoint_handler, is_no_rows, failed, shown_disabled, disable_parsed,
  disable_endpoint_handler,
}
use monorepo_payment.Http.{respond_error, not_found_error}
use monorepo_payment.Http.Tokens.{trim_space}

-- The endpoints of the other merchants.
abbrev pub others_of : Uuid → List WebhookEndpoint → List WebhookEndpoint
others_of m es = select (λ e. not (e.merchant_id == m)) es

others_of-append :
    (m : Uuid) (es : List WebhookEndpoint) (e : WebhookEndpoint)
    → (e.merchant_id == m) ≡ true
    → others_of m (es ++ e ∷ []) ≡ others_of m es
others_of-append m [] e h = ground (arith, h)
others_of-append m (x ∷ es) e h = ground (arith, others_of-append m es e h)

others_of-disable :
    (m id : Uuid) (now : ℕ) (es : List WebhookEndpoint)
    → others_of m (update_where (is_endpoint id m) (disabled now) es) ≡ others_of m es
others_of-disable m id now [] = refl
others_of-disable m id now (x ∷ es) = ground (arith, others_of-disable m id now es)

-- A write of the portal.
pub data Write : Type 0 where
  creating : Option CreateEndpointRequest → Write
  disabling : Bytes → Write

unfoldable pub write : Parsers → Uuid → Write → Serve EndpointView
write parsers m (creating req) = create_endpoint_handler parsers (some m) req
write parsers m (disabling raw) = disable_endpoint_handler parsers (some m) raw

-- What an answer says: nothing has changed after an error, and after a success only endpoints, and
-- none of another merchant.
abbrev pub Within : Uuid → Database → Response EndpointView × Session → Type 0
Within m old (success v, s) =
    (others_of m s.db.endpoints ≡ others_of m old.endpoints)
    × (s.db ≡ record old { endpoints = s.db.endpoints })
Within m old (failure e, s) = s.db ≡ old

abbrev OnlyMine : Uuid → Database → Database → Type 0
OnlyMine m old db =
    (others_of m db.endpoints ≡ others_of m old.endpoints)
    × (db ≡ record old { endpoints = db.endpoints })

shown_created-Within :
    (m : Uuid) (old : Database) (r : Result WebhookEndpoint × Session)
    → After (λ _ db. OnlyMine m old db) (λ _ db. db ≡ old) r
    → Within m old (shown_created r)
shown_created-Within m old (ok e, s) h = h
shown_created-Within m old (err x, s) h = h

shown_disabled-Within :
    (m : Uuid) (old : Database) (r : Result WebhookEndpoint × Session)
    → After (λ _ db. OnlyMine m old db) (λ _ db. db ≡ old) r
    → Within m old (shown_disabled r)
shown_disabled-Within m old (ok e, s) h = h
shown_disabled-Within m old (err x, s) h = go (is_no_rows x)
  where
    go :
        (b : Bool)
        → Within m old (
          (if b
              then failure (respond_error 404 not_found_error "endpoint_not_found" "id")
              else failed "endpoint_disable_failed"),
          s,
        )
    go true = h
    go false = h

module _ (parsers : Parsers) (m : Uuid) (env : Env) (s : Session) where
  create_checked-Within :
      (req : CreateEndpointRequest) → Within m s.db (create_checked parsers m req env s)
  unfolding insert_webhook_endpoint
  create_checked-Within req =
      go (valid_endpoint_url parsers req.url) (is_empty (trim_space req.secret))
    where
      inserted : Within m s.db (shown_created (insert_webhook_endpoint m req.url req.secret env s))
      inserted = shown_created-Within m s.db (insert_webhook_endpoint m req.url req.secret env s) (
          After-stmt env (λ _ db. db ≡ s.db) (λ _ db. OnlyMine m s.db db)
            (add_endpoint m req.url req.secret) s (λ _. refl)
            (
              others_of-append m s.db.endpoints (new_endpoint m req.url req.secret env s.db)
                  (==_refl m),
              refl,
            ))

      go :
          (a b : Bool)
          → Within m s.db (
              (if not a
                  then reject (invalid_request 400 "invalid_url" "url")
                  else if b
                  then reject (invalid_request 400 "invalid_secret" "secret")
                  else λ env s. shown_created (insert_webhook_endpoint m req.url req.secret env s))
                env s)
      go false b = refl
      go true true = refl
      go true false = inserted

  disable_parsed-Within : (o : Option Uuid) → Within m s.db (disable_parsed m o env s)
  unfolding disable_endpoint
  disable_parsed-Within none = refl
  disable_parsed-Within (some id) = shown_disabled-Within m s.db (disable_endpoint id m env s) (
      After-stmt env (λ _ db. db ≡ s.db) (λ _ db. OnlyMine m s.db db) (disable_row id m) s
        (λ _. refl) (answered (find? (is_endpoint id m) s.db.endpoints)))
    where
      now_db : Database
      now_db = record s.db {
        endpoints = update_where (is_endpoint id m) (disabled env.now) s.db.endpoints;
      }

      answered :
          (o : Option WebhookEndpoint)
          → Answered
              (λ _ db. OnlyMine m s.db db)
              (λ _ db. db ≡ s.db)
              s.db
              (elim o [ none ↦ err no_rows | some e ↦ ok (disabled env.now e, now_db) ])
      answered none = refl
      answered (some e) = (others_of-disable m id env.now s.db.endpoints, refl)

-- A write of the portal by a merchant that is refused changes nothing, and one that succeeds changes
-- only webhook endpoints, and none of another merchant's.
pub write-Within :
    (parsers : Parsers) (m : Uuid) (w : Write) (env : Env) (s : Session)
    → Within m s.db (write parsers m w env s)
unfolding write create_endpoint_handler disable_endpoint_handler
write-Within parsers m (creating none) env s = refl
write-Within parsers m (creating (some req)) env s = create_checked-Within parsers m env s req
write-Within parsers m (disabling raw) env s =
    disable_parsed-Within parsers m env s (parsers.uuid_of raw)
