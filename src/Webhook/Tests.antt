-- ===== src/Webhook/Tests.antt =====
-- Waits of the default processor (nem_pay/api/internal/webhook/deliver.go).
use monorepo_payment.Base.{◌≤◌, ◌≡◌, refl, arith, none, some, List, [], ◌∷◌, ◌++◌, ◌⊎◌}
use monorepo_payment.StateMachine.{direct, captured}
use monorepo_payment.Db.{
  OutboxRow, Payload, WebhookEndpoint, intent_captured, pending, delivered, dead, empty_db,
}
use monorepo_payment.Db.Exec.{Env, Session, stmt, pure, ◌>>=◌}
use monorepo_payment.Db.Exec.After.{After}
use monorepo_payment.Db.Intents.Order.{order_by, place}
use monorepo_payment.Db.Endpoints.{insert_delivery, list_active_endpoints}
use monorepo_payment.Db.Outbox.{
  get_outbox, due_ids, claim_due_outbox, mark_outbox_dead, mark_outbox_delivered, mark_outbox_retry,
}
use monorepo_payment.Webhook.{
  new_processor, max_backoff, doubled, backoff, World, conclude, post, attempt_at, deliver_to,
  deliver_row, deliver_pending, deliver_by_id, for_each, dispatch,
}
use monorepo_payment.Webhook.Deliver.{find_row, NotHandled}
use monorepo_payment.Webhook.Delivered.{Does, deliver_by_id-Does}
use monorepo_payment.Webhook.Rows.{RowWalk}
use monorepo_payment.Webhook.Life.{
  happen_all-RowWalk, Event, delivering, dispatching, happen, happen_all,
}
use monorepo_payment.Webhook.Outcome.{RowOk, SameEvent, happen_all-SameEvent}
use monorepo_payment.Webhook.Decided.{happen_all-decides}
use monorepo_payment.Webhook.Backoff.{backoff-bounds}
use monorepo_payment.Service.Tests.{calm}

fifth_wait : backoff new_processor 5 ≡ 16000
unfolding backoff doubled
fifth_wait = refl

backoff-bounds_example :
    (1000 ≤ backoff new_processor 5)
    × (backoff new_processor 5 ≤ max_backoff)
    × (backoff new_processor 5 ≤ backoff new_processor 6)
backoff-bounds_example = backoff-bounds new_processor 4 (omega arith)

-- The payload of an intent of 1000 in "USD".
abbrev paid : Payload
paid = record {
  id = 1;
  status = captured;
  amount = 1000;
  currency = 85 ∷ 83 ∷ 68 ∷ [];
  settlement_mode = direct;
}

abbrev waiting : OutboxRow
waiting = record {
  id = 3;
  merchant_id = 5;
  event_id = 30;
  event_type = intent_captured;
  payload = paid;
  status = pending;
  attempts = 4;
  next_attempt_at = 0;
}

abbrev endpoint : WebhookEndpoint
endpoint = record {
  id = 9;
  merchant_id = 5;
  url = [];
  secret = 1 ∷ [];
  created_at = 2;
  disabled_at = none;
}

abbrev start : Session
start = record {
  db = record empty_db { outbox = waiting ∷ []; endpoints = endpoint ∷ [] };
  sent = 0;
}

-- A receiver that answers 503.
abbrev broken : World
broken = record { render = λ _. []; mac = λ s b. s ++ b; receive = λ _. some 503; clock = 100 }

abbrev story : List (Env × Event)
story =
    (calm, delivering broken 3)
    ∷ (calm, dispatching (λ _. pure tt) 10)
    ∷ (calm, delivering broken 3)
    ∷ []

-- The last of the six attempts.
story_ends :
    find_row 3 (happen_all new_processor story start).db
    ≡ some (record waiting { status = dead; attempts = 6; next_attempt_at = 16100 })
unfolding happen_all happen deliver_by_id deliver_pending deliver_row deliver_to attempt_at conclude
    post backoff doubled insert_delivery list_active_endpoints get_outbox mark_outbox_dead
    mark_outbox_retry mark_outbox_delivered dispatch for_each claim_due_outbox due_ids order_by
    place stmt ◌>>=◌
story_ends = refl

deliver_by_id-Does_example :
    After
      (λ _ db. Does new_processor broken 3 start.db db)
      (NotHandled calm 3 start.db)
      (deliver_by_id new_processor broken 3 calm start)
deliver_by_id-Does_example = deliver_by_id-Does calm new_processor broken 3 start

happen_all-SameEvent_example :
    (r' : OutboxRow) × (find_row 3 (happen_all new_processor story start).db ≡ some r')
    × RowOk new_processor r'
    × SameEvent waiting r'
happen_all-SameEvent_example =
    happen_all-SameEvent new_processor story start 3 waiting (tt, tt)
      (tt, ((λ _ _ _. refl), (tt, tt))) refl (omega arith)

happen_all-decides_example :
    (r' : OutboxRow) × (find_row 3 (happen_all new_processor story start).db ≡ some r')
    × ((r'.status ≡ delivered) ⊎ ((r'.status ≡ dead) × (r'.attempts ≡ new_processor.max_attempts)))
happen_all-decides_example =
    happen_all-decides new_processor story start 3 waiting (tt, tt)
      (tt, ((λ _ _ _. refl), (tt, tt))) ((λ _. refl), ((λ _. refl), ((λ _. refl), tt))) refl
      (omega arith) (omega arith)

happen_all-RowWalk_example :
    (r' : OutboxRow) × (find_row 3 (happen_all new_processor story start).db ≡ some r')
    × RowWalk new_processor waiting r'
happen_all-RowWalk_example =
    happen_all-RowWalk new_processor story start 3 waiting (tt, tt)
      (tt, ((λ _ _ _. refl), (tt, tt))) refl
