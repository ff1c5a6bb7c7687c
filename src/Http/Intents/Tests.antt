-- ===== src/Http/Intents/Tests.antt =====
-- Money requests over concrete tables (nem_pay/api/internal/httpapi/payment_intents.go).
use mathlib.Core.Option.{some-injective}
use monorepo_payment.Base.{◌<◌, ◌≡◌, refl, subst, false, Option, none, some, [], ◌∷◌, Bytes, arith}
use monorepo_payment.Base.Int.{pos, pos_part, two63}
use monorepo_payment.StateMachine.{authorized}
use monorepo_payment.Db.{Uuid}
use monorepo_payment.Http.Keys.{Store}
use monorepo_payment.Http.Idempotency.{Request, admit, admitted, with_idempotency}
use monorepo_payment.Http.Intents.{
  CreateRequest, Codec, to_capture, serve, money_handler, status_of,
}
use monorepo_payment.Http.Intents.Money.{Done, Served, serve-Served}
use monorepo_payment.Http.Intents.Keyed.{Deed, with_idempotency-Deed}
use monorepo_payment.Service.Tests.{calm, bank, usd, fresh_session, session_IsValid}

abbrev some_request : CreateRequest
some_request = record {
  amount = pos 500;
  currency = usd;
  metadata = [];
  escrow = false;
  payee = [];
  application_fee = none;
}

-- An id is one byte; every body asks for the same.
abbrev id_of : Bytes → Option Uuid
id_of [] = none
id_of (b ∷ bs) = some b

abbrev toy : Codec
toy = record {
  parse_uuid = id_of;
  create_request = λ _. some some_request;
  in_range = λ _ req e.
      subst (λ r. pos_part r.amount < two63) (some-injective some_request req e) (omega arith);
  confirm_token = λ _. some "tok_ok";
  refund_amount = λ _. some (pos 100);
  render = λ r. status_of r ∷ [];
}

serve-Served_example :
    Served
      (Done toy bank calm 5 [] fresh_session.db (to_capture (1 ∷ [])))
      fresh_session.db
      (serve toy bank (to_capture (1 ∷ [])) (some 5) [] calm fresh_session)
serve-Served_example =
    serve-Served toy bank calm fresh_session (session_IsValid authorized authorized) 5 []
      (to_capture (1 ∷ []))

abbrev capture_request : Request
capture_request = record {
  merchant = some 5;
  key = b'k' ∷ [];
  method = [];
  uri = [];
  body = some [];
}

abbrev fresh_store : Store
fresh_store = record { session = fresh_session; keys = [] }

capture_admitted : admit capture_request ≡ admitted 5 []
unfolding admit
capture_admitted = refl

with_idempotency-Deed_example :
    Deed toy (Done toy bank calm 5 [] fresh_session.db (to_capture (1 ∷ []))) fresh_session.db (
      with_idempotency
        (λ b. b)
        (money_handler toy bank (to_capture (1 ∷ [])))
        capture_request
        calm
        fresh_store)
with_idempotency-Deed_example =
    with_idempotency-Deed toy bank (to_capture (1 ∷ [])) capture_request calm (λ b. b) fresh_store 5
      [] (session_IsValid authorized authorized) capture_admitted
