-- ===== src/Errors.antt =====
-- The errors of the services as values: the sentinels of service/money.go, service/payment_intent.go
-- and ledger/post.go, and what the driver reports (pgx.ErrNoRows, a violated CHECK, foreign key or
-- UNIQUE, any failure of a statement or of a connection).
pub data Error : Type 0 where
  -- service/payment_intent.go
  invalid_amount invalid_currency intent_not_found payee_required invalid_fee : Error
  -- service/money.go
  invalid_state bank_unavailable bank_declined : Error
  refund_exceeds_capture partial_refund_before_settle partial_escrow_refund : Error
  -- ledger/post.go
  empty bad_entry mixed_currency unbalanced balance_overflow : Error
  -- pgx
  db_failure no_rows check_violation foreign_key_violation unique_violation : Error

pub data Result {ℓ} (A : Type ℓ) : Type ℓ where
  ok : A → Result A
  err : Error → Result A
