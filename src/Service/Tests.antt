-- ===== src/Service/Tests.antt =====
-- Concrete tables and calls for the money service (nem_pay/api/internal/service/money.go).
use monorepo_payment.Base.{
  ltb, if◌then◌else◌, Option, ℕ, suc, ◌+◌, ◌≤◌, refl, true, false, List, [], ◌∷◌, none, some, Bytes,
  IsNew, arith,
}
use monorepo_payment.Base.Int.{pos}
use monorepo_payment.StateMachine.{
  direct, escrow, Status, created, authorized, captured, settled, held_in_escrow,
}
use monorepo_payment.Db.{PaymentIntent, Database}
use monorepo_payment.Db.Exec.{Env, Session, Atomic, Gives}
use monorepo_payment.Db.Accounts.{debits, credits}
use monorepo_payment.Bank.{Handled, Response, Client, sim_client}
use monorepo_payment.Service.Valid.{IsValid}
use monorepo_payment.Service.Create.{CreateInput}
use monorepo_payment.Service.Confirm.{confirm, Confirmed, ConfirmRefused}
use monorepo_payment.Service.Confirm.Effect.{confirm-Atomic}
use monorepo_payment.Service.Capture.{capture, Captured, CaptureRefused}
use monorepo_payment.Service.Capture.Effect.{capture-Atomic}
use monorepo_payment.Service.Release.{release, Released, ReleaseRefused}
use monorepo_payment.Service.Release.Effect.{release-Atomic}
use monorepo_payment.Service.Settle.{settle_one, Settled, SettleRefused}
use monorepo_payment.Service.Settle.Effect.{settle_one-Atomic}
use monorepo_payment.Service.Expire.{expire_one, Expired, ExpireRefused}
use monorepo_payment.Service.Expire.Effect.{expire_one-Atomic}
use monorepo_payment.Service.Calls.{Call, capturing, settling, releasing, perform_all}
use monorepo_payment.Service.Calls.Books.{
  Balanced, ReceivableHolds, EscrowCovered, perform_all-Balanced, perform_all-receivable,
  perform_all-escrow,
}
use monorepo_payment.Service.Calls.Segregation.{Reports, NoAnswer, escrow_segregation_holds-Reports}
use monorepo_payment.Service.Sweep.{sweep}
use monorepo_payment.Service.Sweep.Loop.{Passes, sweep-Passes}
use monorepo_payment.Ledger.{escrow_segregation_holds}

-- An id above all that are in use.
abbrev pub fresh : List ℕ → ℕ
fresh [] = 1
fresh (x ∷ xs) = suc x + fresh xs

pub above : (n : ℕ) (used : List ℕ) → fresh used ≤ n → IsNew n used
above n [] h = tt
above n (x ∷ xs) h = ((λ e. absurd (omega (arith, e, h))), above n xs (omega (arith, h)))

-- No statement fails; it is 10.
abbrev pub calm : Env
calm = record {
  fails = λ _. false;
  gen = fresh;
  gen_new = λ used. above (fresh used) used (omega arith);
  now = 10;
}

abbrev pub usd : Bytes
usd = 85 ∷ 83 ∷ 68 ∷ []

abbrev direct_intent : ℕ → ℕ → Status → PaymentIntent
direct_intent id amount status = record {
  id = id;
  merchant_id = 5;
  amount = amount;
  currency = usd;
  status = status;
  settlement_mode = direct;
  payee_id = none;
  application_fee = none;
  metadata = [];
  created_at = 1;
  updated_at = 1;
}

abbrev escrow_intent : ℕ → Status → PaymentIntent
escrow_intent id status = record {
  id = id;
  merchant_id = 5;
  amount = 500;
  currency = usd;
  status = status;
  settlement_mode = escrow;
  payee_id = some 77;
  application_fee = some (pos 50);
  metadata = [];
  created_at = 1;
  updated_at = 1;
}

abbrev tables_of : PaymentIntent → PaymentIntent → Database
tables_of a b = record {
  intents = a ∷ b ∷ [];
  accounts = [];
  transactions = [];
  entries = [];
  outbox = [];
  deliveries = [];
  endpoints = [];
  api_keys = [];
  merchants = record { id = 5; name = 115 ∷ []; created_at = 1 } ∷ [];
  users = [];
}

abbrev at_start : Database → Session
at_start db = record { db = db; sent = 0 }

-- An authorized intent of either mode.
abbrev pub fresh_session : Session
fresh_session = at_start (tables_of (direct_intent 1 1000 authorized) (escrow_intent 2 authorized))

-- A captured and a held one.
abbrev late_session : Session
late_session = at_start (tables_of (direct_intent 1 1000 captured) (escrow_intent 2 held_in_escrow))

-- One to confirm, and one that has settled.
abbrev other_session : Session
other_session = at_start (tables_of (direct_intent 1 1000 created) (direct_intent 2 800 settled))

pub session_IsValid :
    (s t : Status) → IsValid (tables_of (direct_intent 1 1000 s) (escrow_intent 2 t))
session_IsValid s t = record {
  distinct_intents = (((λ e. absurd (omega (arith, e))), tt), (tt, tt));
  distinct_accounts = tt;
  intents_ok = (
    record {
      positive = omega arith;
      in_range = omega arith;
      fee = λ e. absurd (ground arith);
      payee = λ e. absurd (ground arith);
    },
    (
      record {
        positive = omega arith;
        in_range = omega arith;
        fee = λ e. (50, refl, omega arith);
        payee = λ e. (77, refl);
      },
      tt,
    ),
  );
}

-- A transport with a deadline of three seconds.
abbrev within : Handled → Option Response
within h = if ltb h.sleep 3000 then some h.response else none

abbrev pub bank : Client
bank = sim_client within

confirm-Atomic_example :
    Atomic
      (Confirmed 10 bank 1 5 "tok_ok" fresh_session.db)
      (ConfirmRefused calm bank fresh_session.db 1 5 "tok_ok")
      fresh_session.db
      (confirm bank 1 5 "tok_ok" calm fresh_session)
confirm-Atomic_example =
    confirm-Atomic calm bank 1 5 "tok_ok" fresh_session (session_IsValid authorized authorized)

capture-Atomic_example :
    Atomic
      (Captured 10 bank 1 5 fresh_session.db)
      (CaptureRefused calm bank fresh_session.db 1 5)
      fresh_session.db
      (capture bank 1 5 calm fresh_session)
capture-Atomic_example =
    capture-Atomic calm bank 1 5 fresh_session (session_IsValid authorized authorized)

release-Atomic_example :
    Atomic
      (Released 10 2 5 late_session.db)
      (ReleaseRefused calm late_session.db 2 5)
      late_session.db
      (release 2 5 calm late_session)
release-Atomic_example =
    release-Atomic calm 2 5 late_session (session_IsValid captured held_in_escrow)

settle_one-Atomic_example :
    Atomic
      (λ _ db. Settled 10 1 5 late_session.db db)
      (SettleRefused calm late_session.db 1 5)
      late_session.db
      (settle_one 1 5 calm late_session)
settle_one-Atomic_example =
    settle_one-Atomic calm 1 5 late_session (session_IsValid captured held_in_escrow)

expire_one-Atomic_example :
    Atomic
      (λ _ db. Expired 10 1 5 fresh_session.db db)
      (ExpireRefused calm fresh_session.db 1 5)
      fresh_session.db
      (expire_one 1 5 calm fresh_session)
expire_one-Atomic_example =
    expire_one-Atomic calm 1 5 fresh_session (session_IsValid authorized authorized)

-- An escrow intent is captured, settled and released, a direct one captured.
abbrev calls : List (Env × Call)
calls =
    (calm, capturing 2 5)
    ∷ (calm, settling 2 5)
    ∷ (calm, capturing 1 5)
    ∷ (calm, releasing 2 5)
    ∷ []

fresh_Balanced : Balanced fresh_session.db
fresh_Balanced = record { posted = tt; balanced = λ t. refl }

fresh_receivable : ReceivableHolds 5 usd fresh_session.db
unfolding debits credits
fresh_receivable = ground arith

fresh_escrow : EscrowCovered 5 usd fresh_session.db
unfolding debits credits
fresh_escrow = ground arith

perform_all-Balanced_example :
    IsValid (perform_all bank calls fresh_session).db
    × Balanced (perform_all bank calls fresh_session).db
perform_all-Balanced_example =
    perform_all-Balanced bank calls fresh_session (session_IsValid authorized authorized)
      fresh_Balanced

perform_all-receivable_example : ReceivableHolds 5 usd (perform_all bank calls fresh_session).db
perform_all-receivable_example =
    perform_all-receivable bank calls fresh_session 5 usd (session_IsValid authorized authorized)
      fresh_Balanced fresh_receivable

perform_all-escrow_example : EscrowCovered 5 usd (perform_all bank calls fresh_session).db
perform_all-escrow_example =
    perform_all-escrow bank calls fresh_session 5 usd (session_IsValid authorized authorized)
      fresh_Balanced fresh_escrow

-- After the capture and the settlement of an escrow intent of 500.
abbrev held_session : Session
held_session = perform_all bank ((calm, capturing 2 5) ∷ (calm, settling 2 5) ∷ []) fresh_session

escrow_segregation_holds-Reports_example :
    Gives
      (Reports 5 usd held_session.db)
      (NoAnswer calm 5 usd held_session.db)
      (escrow_segregation_holds 5 usd calm held_session)
escrow_segregation_holds-Reports_example = escrow_segregation_holds-Reports calm 5 usd held_session

sweep-Passes_example :
    Passes settle_one calm late_session.db.intents 0 late_session
      (sweep settle_one late_session.db.intents 0 calm late_session)
sweep-Passes_example = sweep-Passes settle_one calm late_session.db.intents 0 late_session

-- An escrow intent of 500 with a fee of 50, in "usd".
abbrev pub input : CreateInput
input = record {
  amount = pos 500;
  currency = 117 ∷ 115 ∷ 100 ∷ [];
  metadata = [];
  is_escrow = true;
  payee = some 77;
  application_fee = some (pos 50);
}
