-- ===== src/Auth/Logout.antt =====
-- `logout` of app/routers/auth/auth.py. A response that fails deletes the cookie too.
use event_booking_ticketing.Session.{
  unauthorized, service_unavailable, raise, raise_if, ◌>>=◌, ◌>>◌, pure, Handler,
}
use event_booking_ticketing.Auth.Visit.{attempt, tell, Visit, AuthEnv}
use event_booking_ticketing.Redis.{session_key, Redis}
use event_booking_ticketing.Auth.Tokens.{add_blacklist_token, is_token_blacklisted, Jwt, Payload}
use event_booking_ticketing.Common.{◌&&◌, is_some, if◌then◌else◌, not, some, none, Option, ℕ}

-- `user_id and jti`
abbrev pub session_claims : Payload → Option (ℕ × ℕ)
session_claims p = elim p.sub [
  | none ↦ none
  | some user_id ↦ elim p.jti [ none ↦ none | some k ↦ some (user_id, k) ]
]

module _ {S T : Type 0} (redis : Redis S) (jwt : Jwt T) where
  unfoldable pub end_session : Option (ℕ × ℕ) → Handler (Visit S) (Unit {0})
  end_session none = pure tt
  end_session (some (user_id, k)) = tell (redis.del (session_key user_id k))

  -- A token that is not valid has no session.
  unfoldable pub cleanup_refresh_session : AuthEnv → Option T → Handler (Visit S) (Unit {0})
  cleanup_refresh_session e none = pure tt
  cleanup_refresh_session e (some token) = elim (jwt.decode e.now token) [
    | none ↦ pure tt
    | some p ↦ attempt (end_session (session_claims p)) (raise service_unavailable)
  ]

  -- An access token that is revoked already does not keep the session from being ended.
  unfoldable pub revoke_access : AuthEnv → T → Option T → Handler (Visit S) (Unit {0})
  revoke_access e token cookie = do
    attempt
        (do
          revoked_before ← is_token_blacklisted redis jwt e token
          if revoked_before
              then cleanup_refresh_session e cookie >> raise {0} {A = Unit {0}} unauthorized
              else pure tt)
        (raise service_unavailable)
    attempt (add_blacklist_token redis jwt e token) (raise service_unavailable)

  unfoldable pub revoke_given : AuthEnv → Option T → Option T → Handler (Visit S) (Unit {0})
  revoke_given e none cookie = pure tt
  revoke_given e (some token) cookie = revoke_access e token cookie

  unfoldable pub logout : AuthEnv → Option T → Option T → Handler (Visit S) (Unit {0})
  logout e token cookie = do
    raise_if (not (is_some token) && not (is_some cookie)) unauthorized
    revoke_given e token cookie
    cleanup_refresh_session e cookie
