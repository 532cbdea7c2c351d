-- ===== src/Auth/Sessions.antt =====
-- `revoke_all_user_sessions` of app/core/redis.py.
use event_booking_ticketing.Session.{Handler}
use event_booking_ticketing.Auth.Visit.{tell, Visit, AuthEnv}
use event_booking_ticketing.Redis.{session_key, Redis, RedisKey}
use event_booking_ticketing.Common.{false, ◌==◌, [], ◌∷◌, Bool, List, ℕ}

-- The pattern `session:{user_id}:*`
abbrev pub is_session_of : ℕ → RedisKey → Bool
is_session_of user_id (session_key k j) = k == user_id
is_session_of user_id key = false

module _ {S : Type 0} (redis : Redis S) where
  unfoldable pub del_all : List RedisKey → S → S
  del_all [] s = s
  del_all (k ∷ ks) s = del_all ks (redis.del k s)

  unfoldable pub revoke_all_user_sessions : AuthEnv → ℕ → Handler (Visit S) (Unit {0})
  revoke_all_user_sessions e user_id =
      tell (λ s. del_all (redis.scan e.now (is_session_of user_id) s) s)
