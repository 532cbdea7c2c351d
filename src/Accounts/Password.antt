-- ===== src/Accounts/Password.antt =====
-- `forgot_password` and `reset_password` of app/routers/auth/users.py.
use event_booking_ticketing.Auth.Sessions.{revoke_all_user_sessions, del_all}
use event_booking_ticketing.Auth.Tokens.{minutes_in_seconds}
use event_booking_ticketing.Auth.Login.{find_mailbox}
use event_booking_ticketing.Accounts.Otp.{
  update_user_row, otp_window, count_wrong_code, check_email_and_otp_rate_limiting,
}
use event_booking_ticketing.Session.{
  raise, pure, bad_request, not_found, or_raise, ◌>>◌, ◌>>=◌, Handler,
}
use event_booking_ticketing.Auth.Visit.{
  send_password_reset_email, commit_db, enqueue, write_db, ask, read_db, tell, Visit, AuthEnv,
}
use event_booking_ticketing.Redis.{
  failed_logins, account_locked, timestamp, reset_pwd_otp, reset_otp_failed_attempts,
  user_revoked_at, failed_logins_at, otp, account_locked_at, RedisValue, RedisKey, Redis,
}
use event_booking_ticketing.Common.{
  [], leb, is_some, if◌then◌else◌, ◌∷◌, false, str_eq, none, some, Bool, String, Option, ℕ,
}

-- The patterns `account_locked:{email}:*` and `failed_logins:{email}:*`
abbrev pub is_lockout_of : String → RedisKey → Bool
is_lockout_of mailbox (account_locked_at m ip) = str_eq m mailbox
is_lockout_of mailbox (failed_logins_at m ip) = str_eq m mailbox
is_lockout_of mailbox key = false

abbrev pub otp_text : Option RedisValue → Option String
otp_text (some (otp code)) = some code
otp_text v = none

module _ {S : Type 0} (redis : Redis S) where
  -- The reply is the same whether the mailbox has an account or not.
  unfoldable pub forgot_password : AuthEnv → String → Handler (Visit S) (Unit {0})
  forgot_password e address = do
    let mailbox = e.clean address
    check_email_and_otp_rate_limiting redis e mailbox "forgot_password" 1 120
    found ← read_db (find_mailbox e mailbox)
    if is_some found
        then (do
          tell (redis.set e.now (reset_pwd_otp mailbox) (otp e.new_otp) otp_window)
          enqueue (send_password_reset_email mailbox e.new_otp))
        else pure tt

  -- The fifth wrong code makes the stored one useless.
  unfoldable pub void_reset_code : AuthEnv → String → ℕ → Handler (Visit S) (Unit {0})
  void_reset_code e mailbox failed_count =
      if leb 5 failed_count
      then (do
        tell (redis.del (reset_pwd_otp mailbox))
        tell (redis.del (reset_otp_failed_attempts mailbox)))
      else pure tt

  unfoldable pub wrong_reset_code : AuthEnv → String → Handler (Visit S) (Unit {0})
  wrong_reset_code e mailbox = do
    failed_count ← count_wrong_code redis e (reset_otp_failed_attempts mailbox)
    void_reset_code e mailbox failed_count
    raise bad_request

  -- `user_revoked_at:{id}`, as long as an access token can live.
  unfoldable pub revoke_access_tokens : AuthEnv → ℕ → Handler (Visit S) (Unit {0})
  revoke_access_tokens e user_id = tell (
      redis.set e.now (user_revoked_at user_id) (timestamp e.now)
        (minutes_in_seconds e.access_token_expire_minutes))

  unfoldable pub clear_lockouts : AuthEnv → String → Handler (Visit S) (Unit {0})
  clear_lockouts e mailbox = do
    tell (λ s. del_all redis (redis.scan e.now (is_lockout_of mailbox) s) s)
    tell (
        del_all redis (
          reset_pwd_otp mailbox
          ∷ reset_otp_failed_attempts mailbox
          ∷ account_locked mailbox
          ∷ failed_logins mailbox
          ∷ []))

  -- The end of every session and token of the user.
  unfoldable pub revoke_all : AuthEnv → ℕ → Handler (Visit S) (Unit {0})
  revoke_all e user_id = do revoke_all_user_sessions redis e user_id; revoke_access_tokens e user_id

  -- Steps 2 to 5.
  unfoldable pub store_new_password : AuthEnv → String → String → Handler (Visit S) (Unit {0})
  store_new_password e mailbox new_password = do
    found ← read_db (find_mailbox e mailbox)
    user ← or_raise found not_found
    write_db (update_user_row user.id (λ u. record u { password_hash = e.hash new_password }))
    commit_db
    revoke_all e user.id
    clear_lockouts e mailbox

  unfoldable pub reset_password : AuthEnv → String → String → String → Handler (Visit S) (Unit {0})
  reset_password e address code new_password = do
    let mailbox = e.clean address
    check_email_and_otp_rate_limiting redis e mailbox "reset_password_attempts" 5 300
    stored ← ask (λ s. otp_text (redis.get e.now (reset_pwd_otp mailbox) s))
    stored_otp ← or_raise stored bad_request
    if str_eq stored_otp code
        then store_new_password e mailbox new_password
        else wrong_reset_code e mailbox
