-- ===== src/Bank.antt =====
-- The acquirer: the client of nem_pay/api/internal/banksim/client.go and the simulator of
-- nem_pay/bank-sim/cmd/banksim/main.go. HTTP, JSON and the deadline of net/http are not
-- modelled: a response is what the client reads of it, and the transport is a parameter.
use Prim.Native.String.{String}
use text.Mathlib.Text.{◌==◌}
use monorepo_payment.Base.{ℕ, Option, none, some, Bytes, if◌then◌else◌, ◌==◌ as nat_eq}
use monorepo_payment.Db.{Uuid}

pub data Outcome : Type 0 where
  approved declined : Outcome

pub record AuthorizeRequest : Type 0 where
  pub intent_id : Uuid
  pub amount : ℕ
  pub currency : Bytes
  pub token : String

-- What the money service calls; `none` is an error, of which it reads nothing more.
pub record Client : Type 0 where
  pub authorize : AuthorizeRequest → Option Outcome
  pub capture : Uuid → ℕ → Option Outcome

-- A response: the status code, and the decoded `status` (`none` if the body does not decode).
pub record Response : Type 0 where
  pub code : ℕ
  pub status : Option String

-- `switch Outcome(out.Status)`.
abbrev pub outcome_of : Option String → Option Outcome
outcome_of none = none
outcome_of (some status) =
    if status == "approved"
    then some approved
    else if status == "declined"
    then some declined
    else none

-- `Client.call`, of what `http.Client.Do` gives: `none` is its error, the client's deadline included.
unfoldable pub call : Option Response → Option Outcome
call none = none
call (some r) = if nat_eq r.code 200 then outcome_of r.status else none

-- What a handler of bank-sim does: it sleeps for some milliseconds and responds.
pub record Handled : Type 0 where
  pub sleep : ℕ
  pub response : Response

-- `timeoutSleep` is five seconds.
abbrev pub timeout_sleep : ℕ
timeout_sleep = 5000

unfoldable pub sim_authorize : String → Handled
sim_authorize token =
    if token == "tok_declined"
    then record { sleep = 0; response = record { code = 200; status = some "declined" } }
    else if token == "tok_timeout"
    then record {
      sleep = timeout_sleep;
      response = record { code = 200; status = some "approved" };
    }
    else record { sleep = 0; response = record { code = 200; status = some "approved" } }

unfoldable pub sim_capture : Handled
sim_capture = record { sleep = 0; response = record { code = 200; status = some "approved" } }

-- The client of the simulator over a transport, which turns what the handler does into what
-- `http.Client.Do` gives.
unfoldable pub sim_client : (Handled → Option Response) → Client
unfolding call sim_authorize sim_capture
sim_client exchange = record {
  authorize = λ req. call (exchange (sim_authorize req.token));
  capture = λ id amount. call (exchange sim_capture);
}
