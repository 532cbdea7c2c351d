-- ===== src/Auth/Refresh.antt =====
-- `refresh_token` of app/routers/auth/auth.py.
use event_booking_ticketing.Auth.Sessions.{revoke_all_user_sessions}
use event_booking_ticketing.Auth.Login.{open_refresh_session, Grant}
use event_booking_ticketing.Session.{raise, unauthorized, pure, or_raise, ◌>>=◌, ◌>>◌, Handler}
use event_booking_ticketing.Auth.Visit.{ask, read_db, tell, Visit, AuthEnv}
use event_booking_ticketing.Redis.{jti, rotated_grace, rotated, session_key, Redis}
use event_booking_ticketing.Auth.Tokens.{
  create_fresh_token, create_access_token, days_in_seconds, usable, find_user, refresh, Jwt,
  TokenType, Payload,
}
use event_booking_ticketing.Common.{
  not, ◌&&◌, is_some, false, if◌then◌else◌, true, some, Bool, none, Option, ℕ,
}

abbrev pub grace_seconds : ℕ
grace_seconds = 30

abbrev is_refresh : Option TokenType → Bool
is_refresh (some refresh) = true
is_refresh t = false

-- `not user_id or not jti or token_type != "refresh"` raises.
abbrev pub refresh_claims : Payload → Option (ℕ × ℕ)
refresh_claims p = elim p.sub [
  | none ↦ none
  | some user_id ↦ elim p.jti [
    | none ↦ none
    | some k ↦ if is_refresh p.type then some (user_id, k) else none
  ]
]

module _ {S T : Type 0} (redis : Redis S) (jwt : Jwt T) where
  -- The token has no session. If it was rotated away, and not just now by another tab, it is a
  -- replay, which ends every session of the user.
  unfoldable pub refuse_stale : AuthEnv → ℕ → ℕ → Handler (Visit S) (Grant T)
  refuse_stale e user_id k = do
    marker ← ask (redis.get e.now (rotated user_id k))
    grace ← ask (redis.get e.now (rotated_grace user_id k))
    if is_some marker && not (is_some grace)
        then revoke_all_user_sessions redis e user_id
        else pure tt
    raise unauthorized

  -- `not user or not user.is_verified or not user.is_active` raises.
  unfoldable pub rotate : AuthEnv → ℕ → ℕ → Handler (Visit S) (Grant T)
  rotate e user_id k = do
    found ← read_db (find_user user_id)
    user ← or_raise (usable found) unauthorized
    open_refresh_session redis e user.id
    tell (
        redis.set e.now (rotated user.id k) (jti e.refresh_jti)
          (days_in_seconds e.refresh_token_expire_days))
    tell (redis.set e.now (rotated_grace user.id k) (jti e.refresh_jti) grace_seconds)
    pure (record {
      access_token = create_access_token redis jwt e user.id;
      refresh_token = create_fresh_token redis jwt e user.id;
    })

  -- GETDEL: the session of the token is taken.
  unfoldable pub take_session : AuthEnv → ℕ → ℕ → Handler (Visit S) Bool
  take_session e user_id k = do
    found ← ask (redis.get e.now (session_key user_id k))
    tell (redis.del (session_key user_id k))
    pure (is_some found)

  unfoldable pub refresh_token : AuthEnv → Option T → Handler (Visit S) (Grant T)
  refresh_token e cookie = do
    token ← or_raise cookie unauthorized
    p ← or_raise (jwt.decode e.now token) unauthorized
    (user_id, k) ← or_raise (refresh_claims p) unauthorized
    session_exists ← take_session e user_id k
    if session_exists then rotate e user_id k else refuse_stale e user_id k
