-- ===== src/Http/Portal/Tests.antt =====
-- The portal's numbers, groups and writes (nem_pay/api/internal/httpapi).
use monorepo_payment.Base.{
  ℕ, ◌-◌, ◌≤◌, ◌<◌, ◌≡◌, refl, some, none, List, [], ◌∷◌, Bytes, map, Distinct,
}
use monorepo_payment.Base.Int.{pos, negsuc}
use monorepo_payment.Db.{Uuid, WebhookEndpoint, empty_db}
use monorepo_payment.Db.Exec.{Session}
use monorepo_payment.Service.Tests.{calm}
use monorepo_payment.Http.Tokens.{digits_only}
use monorepo_payment.Chart.{TransactionKind}
use monorepo_payment.Http.Portal.{paginate, LedgerRow, group_rows, Parsers}
use monorepo_payment.Http.Query.{parse_int, decimal, two31, two32}
use monorepo_payment.Http.Portal.Numbers.{paginate-bounds}
use monorepo_payment.Http.Portal.Grouping.{entries_of, rows_of, group_rows-entries}
use monorepo_payment.Http.Portal.Tenants.{disabling, write, Within, write-Within}

-- "2147483648"
abbrev far : Bytes
far = 50 ∷ 49 ∷ 52 ∷ 55 ∷ 52 ∷ 56 ∷ 51 ∷ 54 ∷ 52 ∷ 56 ∷ []

paginate-bounds_example :
    let (l, o) = paginate far far in
    ((k : ℕ) × (l ≡ pos k) × (1 ≤ k) × (k ≤ 100))
    × (2147483648 < two31 → o ≡ pos 2147483648)
    × (two31 ≤ 2147483648 → 2147483648 < two32 → o ≡ negsuc (two32 - 2147483648 - 1))
unfolding parse_int digits_only decimal
paginate-bounds_example = paginate-bounds far far 2147483648 refl

abbrev flat : List (LedgerRow ℕ)
flat =
    record {
      transaction_id = 1;
      transaction_kind = TransactionKind.capture;
      transaction_created_at = 7;
      entry = 10;
    }
    ∷ record {
      transaction_id = 2;
      transaction_kind = TransactionKind.settle;
      transaction_created_at = 7;
      entry = 20;
    }
    ∷ record {
      transaction_id = 1;
      transaction_kind = TransactionKind.capture;
      transaction_created_at = 7;
      entry = 11;
    }
    ∷ []

group_rows-entries_example :
    Distinct (map (λ t. t.id) (group_rows [] flat))
    × ((n : Uuid) → entries_of n (group_rows [] flat) ≡ rows_of n flat)
group_rows-entries_example = group_rows-entries flat

abbrev theirs : WebhookEndpoint
theirs = record {
  id = 4;
  merchant_id = 6;
  url = [];
  secret = 1 ∷ [];
  created_at = 0;
  disabled_at = none;
}

abbrev shared : Session
shared = record { db = record empty_db { endpoints = theirs ∷ [] }; sent = 0 }

-- Every URL parses, and an id is 4.
abbrev lax : Parsers
lax = record { url_of = λ raw. some (b'h' ∷ b't' ∷ b't' ∷ b'p' ∷ [], raw); uuid_of = λ _. some 4 }

write-Within_example : Within 5 shared.db (write lax 5 (disabling []) calm shared)
write-Within_example = write-Within lax 5 (disabling []) calm shared
