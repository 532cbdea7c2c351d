-- ===== src/Auth/Lockout.antt =====
-- The lock of an account against guesses of its password.
use event_booking_ticketing.Auth.Slots.{
  count_failure-count, count_failure-up, Reads, check_credentials-Reads,
}
use event_booking_ticketing.Session.{forbidden, err, ok}
use event_booking_ticketing.Auth.Visit.{Visit, AuthEnv}
use event_booking_ticketing.Auth.Login.{
  login_result, failed_login, check_credentials, lock_seconds, check_lock, lock_account, login,
  count_failure,
}
use event_booking_ticketing.Auth.Tokens.{Jwt}
use event_booking_ticketing.Redis.{
  failed_logins, account_locked, counter, failed_logins_at, second, locked, count_of,
  account_locked_at, RedisKey, Redis,
}
use event_booking_ticketing.Common.{
  ap, none, ◌∙◌, ◌*◌, ◌+◌, ◌<◌, some, ◌≤◌, true, arith, ◌≡◌, ◌≢◌, String, ℕ,
}

module _ {S T : Type 0} (redis : Redis S) (jwt : Jwt T) where
  -- A client for whom the account is locked is turned away before its password is looked at.
  locked_out :
      (e : AuthEnv) (ip username password : String) (v : Visit S)
      → v.redis_up ≡ true
      → redis.get e.now (account_locked_at (e.clean username) ip) v.redis ≡ some locked
      → login redis jwt e ip username password v ≡ (err forbidden, v)
  unfolding login check_lock
  locked_out e ip username password v up lock = ground arith

  -- The fifth failure sets the lock.
  lock_account-locks :
      (e : AuthEnv) (t : ℕ) (lock_key failed_key : RedisKey) (v : Visit S)
      → v.redis_up ≡ true
      → e.now ≤ t
      → t < e.now + lock_seconds * second
      → lock_key ≢ failed_key
      → redis.get t lock_key (lock_account redis jwt e lock_key failed_key v).1.redis ≡ some locked
  unfolding lock_account
  lock_account-locks e t lock_key failed_key v up later before ne = ground (
    arith,
    redis.get-set_self e.now t lock_key locked lock_seconds v.redis later,
    redis.get-del_other t lock_key failed_key (redis.set e.now lock_key locked lock_seconds v.redis)
        ne,
  )

  -- A failure beyond the fourth sets the lock of the client.
  failed_login-locks :
      (e : AuthEnv) (t n : ℕ) (mailbox ip : String) (v : Visit S)
      → Reads redis e.now (failed_logins_at mailbox ip) (some (counter n)) v
      → 4 ≤ n
      → e.now ≤ t
      → t < e.now + lock_seconds * second
      → redis.get t (account_locked_at mailbox ip) (failed_login redis jwt e mailbox ip v).1.redis
        ≡ some locked
  unfolding failed_login
  failed_login-locks e t n mailbox ip v (up, counted) many later before =
      let ip_key : RedisKey = failed_logins_at mailbox ip in
      let v1 : Visit S = (count_failure redis e ip_key v).1 in
      let v2 : Visit S = (count_failure redis e (failed_logins mailbox) v1).1 in
      let up1 : v1.redis_up ≡ true = count_failure-up redis e ip_key v ∙ up in
      let up2 : v2.redis_up ≡ true = count_failure-up redis e (failed_logins mailbox) v1 ∙ up1 in
      let fifth : (count_failure redis e ip_key v).0 ≡ ok (n + 1) =
        count_failure-count redis e ip_key v up ∙ ap (λ c. ok (count_of c + 1)) counted in
      let lock =
        lock_account-locks e t (account_locked_at mailbox ip) ip_key v2 up2 later before
          (λ q. cc) in
      ground (arith, count_failure-count redis e (failed_logins mailbox) v1 up1)

  -- The fifth wrong password in a row for an account from one client locks the account for that
  -- client: a login of theirs within the next 900 seconds that finds the lock as it was left, not
  -- deleted by a reset of the password, is refused with no effect, the right password included.
  -- Everything else in Redis may have changed meanwhile. This takes the four failures to be counted, no lock to be set, and the
  -- password to be looked at, not turned away by the cap on hashes.
  pub lockout :
      (e e' : AuthEnv) (ip username password username' password' : String) (n : ℕ) (v v' : Visit S)
      → v.redis_up ≡ true
      → redis.get e.now (account_locked_at (e.clean username) ip) v.redis ≡ none
      → redis.get e.now (account_locked (e.clean username)) v.redis ≡ none
      → redis.get e.now (failed_logins_at (e.clean username) ip) v.redis ≡ some (counter n)
      → 4 ≤ n
      → (check_credentials redis e (e.clean username) password v).0 ≡ ok none
      → e.now ≤ e'.now
      → e'.now < e.now + lock_seconds * second
      → e'.clean username' ≡ e.clean username
      → redis.get e'.now (account_locked_at (e.clean username) ip) v'.redis
        ≡ redis.get e'.now
            (account_locked_at (e.clean username) ip)
            (login redis jwt e ip username password v).1.redis
      → v'.redis_up ≡ true
      → login redis jwt e' ip username' password' v' ≡ (err forbidden, v')
  unfolding login check_lock login_result
  lockout e e' ip username password username' password' n v v' up free_at free counted many wrong
        later before same left up' =
      let mailbox : String = e.clean username in
      let v1 : Visit S = (check_credentials redis e mailbox password v).1 in
      let lock =
        failed_login-locks e e'.now n mailbox ip v1
          (check_credentials-Reads redis e e.now (failed_logins_at mailbox ip) (some (counter n))
            (λ q. cc) mailbox password v (up, counted))
          many later before in
      let failing : (login redis jwt e ip username password v).1
          ≡ (failed_login redis jwt e mailbox ip v1).1 =
        ground arith in
      locked_out e' ip username' password' v' up' (
        ap (λ m. redis.get e'.now (account_locked_at m ip) v'.redis) same
        ∙ left
        ∙ ap (λ (w : Visit S). redis.get e'.now (account_locked_at mailbox ip) w.redis) failing
        ∙ lock)
