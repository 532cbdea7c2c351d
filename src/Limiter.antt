-- ===== src/Limiter.antt =====
-- The limiter of requests by address, and the distributed lock, of app/core/redis.py.
use event_booking_ticketing.Accounts.Otp.{hit}
use event_booking_ticketing.Session.{
  pure, service_unavailable, raise, too_many_requests, raise_if, ◌>>◌, is_ok, ◌>>=◌, Handler,
}
use event_booking_ticketing.Redis.{rate_limit, lock_token, lock, RedisValue, Redis}
use event_booking_ticketing.Auth.Visit.{attempt, Visit, AuthEnv}
pub mod Window
pub mod Exclusion
use event_booking_ticketing.Common.{
  ltb, ◌+◌, false, ◌==◌, [], ◌∷◌, some, none, if◌then◌else◌, List, Bool, String, Option, ℕ,
}

abbrev pub asked_at : ℕ → AuthEnv → AuthEnv
asked_at t e = record e { now = t }

module _ {S : Type 0} (redis : Redis S) where
  -- `IPRateLimiting.__call__`, with the address of the client and the path. An exception of Redis
  -- lets the request pass, or is answered with a 503, as the settings say.
  unfoldable pub limit_requests :
      AuthEnv → ℕ → Bool → String → String → ℕ → Handler (Visit S) (Unit {0})
  limit_requests e max_requests fail_closed ip end_point window_seconds =
      attempt
        (do
          current_hit ← hit redis e (rate_limit ip end_point) window_seconds
          raise_if (ltb max_requests current_hit) too_many_requests)
        (if fail_closed then raise service_unavailable else pure tt)

  -- How many of some requests pass, at their times.
  unfoldable pub admitted : AuthEnv → ℕ → Bool → String → String → ℕ → List ℕ → Visit S → ℕ
  admitted e max_requests fail_closed ip end_point window_seconds [] v = 0
  admitted e max_requests fail_closed ip end_point window_seconds (t ∷ ts) v =
      let r =
        limit_requests (asked_at t e) max_requests fail_closed ip end_point window_seconds v in
      (if is_ok r.0 then 1 else 0)
      + admitted e max_requests fail_closed ip end_point window_seconds ts r.1

  -- The loop of `distributed_lock`, over the times at which it asks. The result is the time at which
  -- the lock was taken; `none` is the `TimeoutError`.
  unfoldable pub acquire : String → ℕ → ℕ → List ℕ → S → Option ℕ × S
  acquire lock_key token expire_seconds [] s = (none, s)
  acquire lock_key token expire_seconds (t ∷ ts) s =
      let (taken, s') = redis.set_nx t (lock lock_key) (lock_token token) expire_seconds s in
      let rest = acquire lock_key token expire_seconds ts s' in if taken then (some t, s') else rest

  abbrev pub holds_token : ℕ → Option RedisValue → Bool
  holds_token token (some (lock_token k)) = k == token
  holds_token token v = false

  -- `lua_release`
  unfoldable pub release : ℕ → String → ℕ → S → S
  release now lock_key token s =
      if holds_token token (redis.get now (lock lock_key) s) then redis.del (lock lock_key) s else s
