-- ===== src/Service/Valid.antt =====
-- What the functions of nem_pay/api/internal/service/money.go rely on in the tables: the primary
-- keys, the CHECKs, and what `Create` has validated.
use monorepo_payment.Base.{ℕ, ◌≤◌, ◌<◌, ◌≡◌, some, All, All-find?}
use monorepo_payment.Base.Int.{pos, two63}
use monorepo_payment.StateMachine.{escrow}
use monorepo_payment.Db.{Uuid, PaymentIntent, Database}
use monorepo_payment.Db.Intents.{is_of}
use monorepo_payment.Db.Accounts.Open.{DistinctAccounts}
use monorepo_payment.Service.Steps.{DistinctIntents, Found}

-- The flat fee of an intent is recorded and lies within its amount.
abbrev pub HasFee : PaymentIntent → Type 0
HasFee pi = (fee : ℕ) × (pi.application_fee ≡ some (pos fee)) × (fee ≤ pi.amount)

abbrev pub HasPayee : PaymentIntent → Type 0
HasPayee pi = (payee : Uuid) × (pi.payee_id ≡ some payee)

pub record IntentOk (pi : PaymentIntent) : Type 0 where
  pub positive : 0 < pi.amount
  pub in_range : pi.amount < two63
  pub fee : pi.settlement_mode ≡ escrow → HasFee pi
  pub payee : pi.settlement_mode ≡ escrow → HasPayee pi

pub record IsValid (db : Database) : Type 0 where
  pub distinct_intents : DistinctIntents db
  pub distinct_accounts : DistinctAccounts db.accounts
  pub intents_ok : All IntentOk db.intents

pub Found-IntentOk :
    (db : Database) (id m : Uuid) (pi : PaymentIntent) → IsValid db → Found db id m pi → IntentOk pi
Found-IntentOk db id m pi v f = All-find? IntentOk (is_of id m) db.intents pi v.intents_ok f
