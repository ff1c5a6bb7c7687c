-- ===== src/Lib.antt =====
-- The payment gateway nem_pay: an API that creates payment intents and moves them through confirm,
-- capture, settlement, refund and release, books every movement of money in a double-entry ledger,
-- and announces every change of status through an outbox. A worker settles captured intents and
-- expires stale ones. The acquirer is a simulator behind an HTTP client.
--
-- Parts, by file:
--   StateMachine, StateMachine/Graph: nem_pay/api/internal/statemachine/intent.go. Modes and statuses
--     are constructors; `can_transition` is CanTransition over the map allowedEdges.
--   Chart: nem_pay/api/internal/ledger/accounts.go.
--   Errors: the error values of the service and of the driver.
--   Db and Db/Intents, Accounts, Entries, Outbox, Endpoints, Keys, Users: the tables
--     of nem_pay/api/internal/repository/db as lists of rows, and one definition for each statement of
--     the queries.
--   Db/Exec: a statement, which may fail at any point, and a transaction, whose body works on its own
--     view and is committed or rolled back. A Commit that fails is one that the database refused: an
--     acknowledgement that is lost after the commit is not modelled. A run needs no fuel: every loop
--     is over a list.
--   Ledger, Ledger/Checks, Books, Post: nem_pay/api/internal/ledger/post.go and reconcile.go.
--   Bank: nem_pay/api/internal/banksim/client.go and
--     nem_pay/bank-sim/cmd/banksim/main.go. The money service takes the client as a parameter,
--     and the client the transport (net/http with its deadline).
--   Service: nem_pay/api/internal/service/money.go, with a child for Confirm, Capture, Refund, Release,
--     Settle (settleOne), Expire (expireOne) and Sweep (SettleDueIntents, ExpireStaleIntents), and
--     nem_pay/api/internal/outbox/emit.go. Service/Rules states the accounting rules apart from the
--     code; the child Effect of an operation relates the two.
--   Service/Create: nem_pay/api/internal/service/payment_intent.go. Outcome states what a creation
--     promises apart from its checks.
--   Webhook: nem_pay/api/internal/webhook/deliver.go and sign.go. Deliver says what one delivery does,
--     Delivered states it apart from the code, Rows and Claim say how a row of the outbox moves, Life
--     is any sequence of deliveries, runs of the dispatcher and new events, Outcome and Decided say
--     what becomes of a row.
--   Http/Keys, Fingerprint, Idempotency: nem_pay/api/internal/httpapi/idempotency.go and
--     nem_pay/api/internal/service/idempotency.go. Idempotency/Replay and First are about one
--     request after another, Traffic, Inv, Finish and Once about requests that overlap.
--   Http/Intents, Query: nem_pay/api/internal/httpapi/payment_intents.go; Money relates the handlers to the
--     service, Keyed puts them behind their Idempotency-Key.
--   Http/Tokens: nem_pay/api/internal/httpapi/tokens.go.
--   Http/Auth: nem_pay/api/internal/httpapi/middleware_auth.go, session.go, router.go and
--     nem_pay/api/internal/apikey/apikey.go.
--   Http/Portal: nem_pay/api/internal/httpapi/webhook_endpoints.go and portal_reads.go.
--   Service/Calls: any sequence of calls of the money service, and what the books say after it.
--
-- Numbers: an int64 is an integer whose sums wrap at 64 bits where the code adds (Base/Int); sums in
-- SQL are exact. Columns that a CHECK keeps at 0 or above are natural numbers; ids and times are
-- numbers of which only equality and order are used. gen_random_uuid() and uuid.New() are a parameter
-- that gives an id which the column does not hold.
--
-- Third-party code is a parameter: SHA-256 and HMAC, bcrypt, JWT, JSON, the transport of HTTP, the
-- parsers of UUIDs and URLs, the queue and the receivers of webhooks.
--
-- Of the foreign keys only payment_intents.merchant_id is modelled, which the creation of an intent
-- for an unknown merchant runs into.
--
-- Not modelled: the balances and events that the portal reads, cross-origin headers, logging and
-- process start-up. Transactions run one after the other: two of them on one intent are ordered by
-- the row lock of LockIntentForUpdate. A delivery of an outbox row is one step; the queue keeps two
-- deliveries of one row apart. The sweeps of the keys and the login are definitions only.
pub mod Base
pub mod StateMachine
pub mod Chart
pub mod Errors
pub mod Db
pub mod Ledger
pub mod Bank
pub mod Service
pub mod Webhook
pub mod Http
