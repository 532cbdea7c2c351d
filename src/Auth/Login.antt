-- ===== src/Auth/Login.antt =====
-- `login` of app/routers/auth/auth.py.
use event_booking_ticketing.Session.{
  unauthorized, too_many_requests, forbidden, raise, raise_if, pure, ◌>>=◌, ◌>>◌, Handler,
}
use event_booking_ticketing.Model.{Db, User}
use event_booking_ticketing.Auth.Tokens.{
  create_fresh_token, create_access_token, days_in_seconds, Jwt,
}
use event_booking_ticketing.Redis.{
  auth_hash, failed_logins, active, account_locked, session_key, failed_logins_at, locked,
  account_locked_at, RedisKey, Redis,
}
use event_booking_ticketing.Common.{
  false, true, ◌||◌, leb, ◌==◌, is_some, not, ltb, if◌then◌else◌, none, first, some, str_eq, Bool,
  Option, String, ℕ,
}
use event_booking_ticketing.Auth.Visit.{read_db, run, ask, attempt, tell, Visit, AuthEnv}
use event_booking_ticketing.Common.{ℕ}

abbrev pub failure_window : ℕ
failure_window = 900

abbrev pub lock_seconds : ℕ
lock_seconds = 900

abbrev pub has_mailbox : AuthEnv → String → User → Bool
has_mailbox e mailbox u = str_eq (e.lower u.email) mailbox

-- The query on `func.lower(model.User.email)`.
abbrev pub find_mailbox : AuthEnv → String → Db → Option User
find_mailbox e mailbox db = first (has_mailbox e mailbox) db.users

-- A token in the body of the response, and one in the cookie.
pub record Grant (T : Type 0) : Type 0 where
  pub access_token : T
  pub refresh_token : T

-- `not user or not is_valid_password` fails. For an unknown mailbox a dummy hash is compared, for
-- the time that it takes.
abbrev pub authenticated : AuthEnv → Option User → String → Option User
authenticated e none password = none
authenticated e (some user) password =
    if e.verify_password password user.password_hash then some user else none

module _ {S : Type 0} (redis : Redis S) where
  unfoldable pub check_lock : AuthEnv → RedisKey → Handler (Visit S) (Unit {0})
  check_lock e k = do found ← ask (redis.get e.now k); raise_if (is_some found) forbidden

  -- `lua_decr`
  unfoldable pub release_hash_slot : AuthEnv → Handler (Visit S) (Unit {0})
  release_hash_slot e = do
    cur ← run (redis.decr e.now auth_hash)
    if cur == 0 then tell (redis.del auth_hash) else pure tt

  -- `lua_incr`
  unfoldable pub take_hash_slot : AuthEnv → Handler (Visit S) ℕ
  take_hash_slot e = do
    cur ← run (redis.incr e.now auth_hash)
    unbounded ← ask (redis.persists e.now auth_hash)
    if (cur == 1) || unbounded then tell (redis.expire e.now auth_hash 10) else pure tt
    pure cur

  -- The cap on the hashes that are computed at once. The result is whether a slot was taken.
  unfoldable pub acquire_hash_slot : AuthEnv → Handler (Visit S) Bool
  acquire_hash_slot e =
      attempt
        (do
          active_hashes ← take_hash_slot e
          if ltb e.max_concurrent_auth_hashes active_hashes
              then release_hash_slot e >> raise too_many_requests
              else pure true)
        (pure false)

  unfoldable pub finish_hashing : AuthEnv → Bool → Handler (Visit S) (Unit {0})
  finish_hashing e acquired = if acquired then attempt (release_hash_slot e) (pure tt) else pure tt

  unfoldable pub count_failure : AuthEnv → RedisKey → Handler (Visit S) ℕ
  count_failure e k = do
    n ← run (redis.incr e.now k)
    if n == 1 then tell (redis.expire e.now k failure_window) else pure tt
    pure n

  -- `session:{user.id}:{jti}` lives as long as the refresh token.
  unfoldable pub open_refresh_session : AuthEnv → ℕ → Handler (Visit S) (Unit {0})
  open_refresh_session e user_id = tell (
      redis.set e.now (session_key user_id e.refresh_jti) active
        (days_in_seconds e.refresh_token_expire_days))

  -- The password is checked, with a slot for the hash.
  unfoldable pub check_credentials : AuthEnv → String → String → Handler (Visit S) (Option User)
  check_credentials e mailbox password = do
    user ← read_db (find_mailbox e mailbox)
    acquired ← acquire_hash_slot e
    finish_hashing e acquired
    pure (authenticated e user password)

module _ {S T : Type 0} (redis : Redis S) (jwt : Jwt T) where
  -- The lock is set, and the counter starts again.
  unfoldable pub lock_account : AuthEnv → RedisKey → RedisKey → Handler (Visit S) (Grant T)
  lock_account e lock_key failed_key = do
    tell (redis.set e.now lock_key locked lock_seconds)
    tell (redis.del failed_key)
    raise forbidden

  unfoldable pub failed_login : AuthEnv → String → String → Handler (Visit S) (Grant T)
  failed_login e mailbox client_ip = do
    failed_attempts ← count_failure redis e (failed_logins_at mailbox client_ip)
    failed_email ← count_failure redis e (failed_logins mailbox)
    if leb 5 failed_attempts
        then lock_account e (account_locked_at mailbox client_ip)
            (failed_logins_at mailbox client_ip)
        else if leb 25 failed_email
        then lock_account e (account_locked mailbox) (failed_logins mailbox)
        else raise unauthorized

  unfoldable pub complete_login : AuthEnv → String → String → User → Handler (Visit S) (Grant T)
  complete_login e mailbox client_ip user = do
    raise_if (not user.is_active) forbidden
    raise_if (not user.is_verified) forbidden
    tell (redis.del (failed_logins_at mailbox client_ip))
    tell (redis.del (account_locked_at mailbox client_ip))
    tell (redis.del (failed_logins mailbox))
    open_refresh_session redis e user.id
    pure (record {
      access_token = create_access_token redis jwt e user.id;
      refresh_token = create_fresh_token redis jwt e user.id;
    })

  unfoldable pub login_result :
      AuthEnv → String → String → Option User → Handler (Visit S) (Grant T)
  login_result e mailbox client_ip none = failed_login e mailbox client_ip
  login_result e mailbox client_ip (some user) = complete_login e mailbox client_ip user

  unfoldable pub login : AuthEnv → String → String → String → Handler (Visit S) (Grant T)
  login e client_ip username password = do
    let mailbox = e.clean username
    check_lock redis e (account_locked_at mailbox client_ip)
    check_lock redis e (account_locked mailbox)
    user ← check_credentials redis e mailbox password
    login_result e mailbox client_ip user
