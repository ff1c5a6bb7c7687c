-- ===== src/Service/Sweep/Loop.antt =====
-- What a pass does and counts (`SettleDueIntents` and `ExpireStaleIntents` of
-- nem_pay/api/internal/service/money.go).
use monorepo_payment.Base.{
  ℕ, suc, ◌+◌, ◌≡◌, refl, ap, List, [], ◌∷◌, ◌++◌, Option, none, some, length, arith,
}
use monorepo_payment.Errors.{Error, Result, ok, err}
use monorepo_payment.Db.{Uuid, PaymentIntent}
use monorepo_payment.Db.Exec.{Env, Session, Exec}
use monorepo_payment.Service.Sweep.{Pass, sweep}

module _ (one : Uuid → Uuid → Exec (Unit {0})) (env : Env) where
  -- The calls for these intents, one after the other, all succeeded and led from one session to another.
  pub data Succeed : List PaymentIntent → Session → Session → Type 0 where
    none_left : {s : Session} → Succeed [] s s
    next :
        {pi : PaymentIntent} {rest : List PaymentIntent} {s t u : Session}
        → one pi.id pi.merchant_id env s ≡ (ok tt, t)
        → Succeed rest t u
        → Succeed (pi ∷ rest) s u

  -- How a pass ends in the session `s` with some intents left: with no error if none is, and else with
  -- the error of the call for the first of them.
  abbrev pub EndsWith : List PaymentIntent → Session → Option Error → Session → Type 0
  EndsWith [] s e final = (e ≡ none) × (final ≡ s)
  EndsWith (pi ∷ rest) s e final =
      (x : Error) × (e ≡ some x) × (one pi.id pi.merchant_id env s ≡ (err x, final))

  -- A pass over `due` from the session `s`, with `n` done before.
  pub record Passes (due : List PaymentIntent) (n : ℕ) (s : Session) (pass : Pass) : Type 0 where
    pub done : List PaymentIntent
    pub rest : List PaymentIntent
    pub split : due ≡ done ++ rest
    pub reached : Session
    pub succeeded : Succeed done s reached
    pub count : pass.0.0 ≡ n + length done
    pub ends : EndsWith rest reached pass.0.1 pass.1

  one_more :
      (pi : PaymentIntent) (due : List PaymentIntent) (n : ℕ) (s t : Session) (pass : Pass)
      → one pi.id pi.merchant_id env s ≡ (ok tt, t)
      → Passes due (suc n) t pass
      → Passes (pi ∷ due) n s pass
  one_more pi due n s t pass e h = record {
    done = pi ∷ h.done;
    rest = h.rest;
    split = ap (λ xs. pi ∷ xs) h.split;
    reached = h.reached;
    succeeded = next e h.succeeded;
    count = omega (arith, h.count);
    ends = h.ends;
  }

  -- A pass calls the service for the first of the intents that it is given, one after the other in
  -- their order, each on the tables that the one before has left, and all of these calls succeed; it
  -- counts them, and ends without an error if they are all there were, and otherwise with the error of
  -- the call for the next intent and the tables that this call leaves.
  pub sweep-Passes :
      (due : List PaymentIntent) (n : ℕ) (s : Session) → Passes due n s (sweep one due n env s)
  unfolding sweep
  sweep-Passes [] n s = record {
    done = [];
    rest = [];
    split = refl;
    reached = s;
    succeeded = none_left;
    count = omega arith;
    ends = (refl, refl);
  }
  sweep-Passes (pi ∷ due) n s =
      go (one pi.id pi.merchant_id env s) refl (λ t. sweep-Passes due (suc n) t)
    where
      go :
          (r : Result (Unit {0}) × Session)
          → one pi.id pi.merchant_id env s ≡ r
          → ((t : Session) → Passes due (suc n) t (sweep one due (suc n) env t))
          → Passes
              (pi ∷ due)
              n
              s
              (elim r.0 [ ok _ ↦ sweep one due (suc n) env r.1 | err e ↦ ((n, some e), r.1) ])
      go (ok u, t) e h = one_more pi due n s t _ e (h t)
      go (err x, t) e h = record {
        done = [];
        rest = pi ∷ due;
        split = refl;
        reached = s;
        succeeded = none_left;
        count = omega arith;
        ends = (x, refl, e);
      }
