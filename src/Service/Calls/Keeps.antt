-- ===== src/Service/Calls/Keeps.antt =====
-- Every call of nem_pay/api/internal/service/money.go keeps the tables valid.
use monorepo_payment.Base.{
  ℕ, refl, sym, ap, ◌∙◌, subst, List, [], ◌∷◌, All, Distinct, map, map-update_where, Bool, true,
  false, if◌then◌else◌,
}
use monorepo_payment.StateMachine.{Status}
use monorepo_payment.Db.{Uuid, PaymentIntent, Database}
use monorepo_payment.Db.Exec.{Env, Session}
use monorepo_payment.Db.Intents.{has_id, with_status, set_status}
use monorepo_payment.Bank.{Client}
use monorepo_payment.Ledger.Books.{Line}
use monorepo_payment.Service.Rules.{Advances}
use monorepo_payment.Service.Valid.{IsValid, IntentOk}
use monorepo_payment.Service.Calls.{Call, perform, perform_all, Moves, unchanged, added, moved}
use monorepo_payment.Service.Calls.Each.{perform-Moves}

with_status-IntentOk :
    (next : Status) (now : ℕ) (pi : PaymentIntent)
    → IntentOk pi
    → IntentOk (with_status next now pi)
with_status-IntentOk next now pi ok = record {
  positive = ok.positive;
  in_range = ok.in_range;
  fee = ok.fee;
  payee = ok.payee;
}

set_status-IntentOk :
    (id : Uuid) (next : Status) (now : ℕ) (pis : List PaymentIntent)
    → All IntentOk pis
    → All IntentOk (set_status id next now pis)
set_status-IntentOk id next now [] h = tt
set_status-IntentOk id next now (pi ∷ rest) (ok, h) =
    (go (has_id id pi), set_status-IntentOk id next now rest h)
  where
    go : (b : Bool) → IntentOk (if b then with_status next now pi else pi)
    go true = with_status-IntentOk next now pi ok
    go false = ok

Advances-IsValid :
    (old : Database) (now : ℕ) (pi : PaymentIntent) (next : Status) (ls : List Line)
    (updated : PaymentIntent) (db : Database)
    → IsValid old
    → Advances old now pi next ls updated db
    → IsValid db
Advances-IsValid old now pi next ls updated db v a = record {
  distinct_intents =
      subst Distinct
        (sym (
            map-update_where (λ x. x.id) (with_status next now) (λ x. refl) (has_id pi.id)
              old.intents)
          ∙ ap (map (λ x. x.id)) (sym a.intents))
        v.distinct_intents;
  distinct_accounts = a.distinct;
  intents_ok =
      subst (All IntentOk) (sym a.intents)
        (set_status-IntentOk pi.id next now old.intents v.intents_ok);
}

Moves-IsValid : (now : ℕ) (old db : Database) → IsValid old → Moves now old db → IsValid db
Moves-IsValid now old db v (unchanged e) = subst IsValid (sym e) v
Moves-IsValid now old db v (added new is_created e ok) = ok
Moves-IsValid now old db v (moved pi updated next ls rule a) =
    Advances-IsValid old now pi next ls updated db v a

pub perform-IsValid :
    (bank : Client) (call : Call) (env : Env) (s : Session)
    → IsValid s.db
    → IsValid (perform bank call env s).db
perform-IsValid bank call env s v =
    Moves-IsValid env.now s.db (perform bank call env s).db v (perform-Moves bank call env s v)

-- What every move of valid tables keeps, every sequence of calls keeps.
pub perform_all-keeps :
    (P : Database → Type 0)
    → ((now : ℕ) (old db : Database) → IsValid old → P old → Moves now old db → P db)
    → (bank : Client) (calls : List (Env × Call)) (s : Session) → IsValid s.db
    → P s.db
    → IsValid (perform_all bank calls s).db × P (perform_all bank calls s).db
unfolding perform_all
perform_all-keeps P keep bank [] s v p = (v, p)
perform_all-keeps P keep bank ((env, call) ∷ rest) s v p =
    perform_all-keeps P keep bank rest (perform bank call env s) (perform-IsValid bank call env s v)
      (keep env.now s.db (perform bank call env s).db v p (perform-Moves bank call env s v))
