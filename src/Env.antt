-- ===== src/Env.antt =====
-- What a request reads of the outside: the settings (app/core/config.py), the clock, and the
-- values of code that is not in this repository.
use event_booking_ticketing.Common.{ℕ}

pub record Env : Type 0 where
  -- `HOLD_DURATION_MINUTES`, in microseconds
  pub hold : ℕ
  -- `datetime.now(timezone.utc)`
  pub now : ℕ
  -- PostgreSQL's `now()`, the default of `created_at`
  pub db_now : ℕ
  -- `now.year`
  pub year : ℕ
  -- `uuid.uuid4().hex[:8]`
  pub retry_token : ℕ
  -- The `Decimal` quotient of an amount and a number of tickets, as a `Numeric(10, 2)` column
  -- keeps it
  pub round_div : ℕ → ℕ → ℕ
