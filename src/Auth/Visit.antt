-- ===== src/Auth/Visit.antt =====
-- What the handlers of app/routers/auth work on: the database, and Redis.

-- What such a request reads of the outside: the settings (app/core/config.py), the clock, chance,
-- and the functions of third-party code.
use event_booking_ticketing.Model.{Db}
use event_booking_ticketing.Common.{true, List, ◌∷◌, if◌then◌else◌, Bool, String, ℕ}
use event_booking_ticketing.Session.{unhandled, err, ok, Result, Handler}

pub record AuthEnv : Type 0 where
  -- `datetime.now(timezone.utc)`, in microseconds
  pub now : ℕ
  pub access_token_expire_minutes : ℕ
  pub refresh_token_expire_days : ℕ
  pub max_concurrent_auth_hashes : ℕ
  -- `s.strip().lower()`, and the `lower` of Python and of PostgreSQL
  pub clean : String → String
  pub lower : String → String
  -- `verify_password(plain, hashed)` and `hash` of app/core/security.py
  pub verify_password : String → String → Bool
  pub hash : String → String
  -- `uuid.uuid4()`: the `jti` of a new access token and that of a new refresh token
  pub access_jti : ℕ
  pub refresh_jti : ℕ
  -- `f"{secrets.randbelow(900000) + 100000}"`
  pub new_otp : String
  -- `secrets.token_urlsafe(32)`
  pub random_password : String

-- A job that is put on the queue of the worker.
pub data Job : Type 0 where
  send_otp_email send_password_reset_email : String → String → Job

-- Redis is reachable for the whole of a request, or for none of it.
pub record Visit (S : Type 0) : Type 0 where
  pub db : Db
  pub saved : Db
  pub redis_up : Bool
  pub redis : S
  pub jobs : List Job
  -- `invalidate_services_cache()`
  pub stale_cache : Bool

module _ {S : Type 0} where
  abbrev pub read_db {ℓ} : {A : Type ℓ} → (Db → A) → Handler (Visit S) A
  read_db f v = (ok (f v.db), v)

  -- What another session reads.
  abbrev pub read_saved {ℓ} : {A : Type ℓ} → (Db → A) → Handler (Visit S) A
  read_saved f v = (ok (f v.saved), v)

  abbrev pub write_db : (Db → Db) → Handler (Visit S) (Unit {0})
  write_db f v = (ok tt, record v { db = f v.db })

  abbrev pub commit_db : Handler (Visit S) (Unit {0})
  commit_db v = (ok tt, record v { saved = v.db })

  -- A command that changes nothing, one that replies nothing, and one that does both. Each raises
  -- if Redis cannot be reached.
  abbrev pub ask {ℓ} : {A : Type ℓ} → (S → A) → Handler (Visit S) A
  ask f v = if v.redis_up then (ok (f v.redis), v) else (err unhandled, v)

  abbrev pub tell : (S → S) → Handler (Visit S) (Unit {0})
  tell f v = if v.redis_up then (ok tt, record v { redis = f v.redis }) else (err unhandled, v)

  abbrev pub run {ℓ} : {A : Type ℓ} → (S → A × S) → Handler (Visit S) A
  run f v =
      if v.redis_up
      then (ok (f v.redis).0, record v { redis = (f v.redis).1 })
      else (err unhandled, v)

  abbrev pub stale : Handler (Visit S) (Unit {0})
  stale v = (ok tt, record v { stale_cache = true })

  abbrev pub enqueue : Job → Handler (Visit S) (Unit {0})
  enqueue job v = (ok tt, record v { jobs = job ∷ v.jobs })

abbrev pub on_exception {ℓ} : {S : Type 0} {A : Type ℓ} → Result A × S → Handler S A → Result A × S
on_exception (ok a, s) h = (ok a, s)
on_exception (err unhandled, s) h = h s
on_exception (err f, s) h = (err f, s)

-- `except HTTPException: raise` and `except Exception: ...`
abbrev pub attempt {ℓ} : {S : Type 0} {A : Type ℓ} → Handler S A → Handler S A → Handler S A
attempt m h s = on_exception (m s) h
