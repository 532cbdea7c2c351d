-- ===== src/Accounts/Otp.antt =====
-- Registration and the verification of the mailbox, of app/routers/auth/users.py, and
-- `check_email_and_otp_rate_limiting` of app/core/redis.py.
use event_booking_ticketing.Auth.Login.{find_mailbox}
use event_booking_ticketing.Payments.Confirm.{is_text}
use event_booking_ticketing.Session.{
  raise, conflict, or_raise, bad_request, too_many_requests, raise_if, pure, ◌>>◌, ◌>>=◌, Handler,
}
use event_booking_ticketing.Redis.{rate_limit_email, otp_failed_attempts, RedisKey, second, Redis}
use event_booking_ticketing.Auth.Visit.{
  send_otp_email, enqueue, tell, commit_db, write_db, ask, read_db, run, Visit, AuthEnv,
}
use event_booking_ticketing.Model.{has_user_id, Db, customer, User}
use event_booking_ticketing.Common.{
  first, ◌==◌, leb, is_some, ◌&&◌, if◌then◌else◌, ltb, true, update, ◌∷◌, str_eq, false, ◌+◌, some,
  Bool, none, String, Option, ◌*◌, ℕ,
}

abbrev pub otp_expiry : ℕ
otp_expiry = 5 * 60 * second

abbrev pub otp_window : ℕ
otp_window = 300

-- `schema.UserCreate`, with the date of birth left out.
pub record UserCreate : Type 0 where
  pub name : String
  pub email : String
  pub phone_no : Option String
  pub password : String

pub data OtpStatus : Type 0 where
  already_verified verified_now code_sent : OtpStatus

abbrev pub has_phone : String → User → Bool
has_phone phone u = elim u.phone_no [ none ↦ false | some p ↦ str_eq p phone ]

-- `if user.phone_no` and another user has it.
abbrev pub is_phone_taken : Option String → Db → Bool
is_phone_taken none db = false
is_phone_taken (some phone) db = is_text phone && is_some (first (has_phone phone) db.users)

-- The unique key of `users.email`.
abbrev pub has_email : String → User → Bool
has_email mailbox u = str_eq u.email mailbox

abbrev pub insert_user : User → Db → Db
insert_user u db = record db { users = u ∷ db.users }

abbrev pub update_user_row : ℕ → (User → User) → Db → Db
update_user_row k f db = record db { users = update (has_user_id k) f db.users }

-- `verification_otp and hmac.compare_digest(verification_otp, otp)`
abbrev pub is_otp : Option String → String → Bool
is_otp none code = false
is_otp (some stored) code = is_text stored && str_eq stored code

-- `otp_expires_at and now > otp_expires_at`
abbrev pub is_otp_expired : AuthEnv → Option ℕ → Bool
is_otp_expired e none = false
is_otp_expired e (some expires_at) = ltb expires_at e.now

abbrev pub clear_otp : User → User
clear_otp u = record u { verification_otp = none; otp_expires_at = none }

abbrev pub set_otp : AuthEnv → User → User
set_otp e u = record u {
  verification_otp = some e.new_otp;
  otp_expires_at = some (e.now + otp_expiry);
}

unfoldable pub new_user : AuthEnv → ℕ → UserCreate → User
new_user e k req = record {
  id = k;
  name = req.name;
  email = e.clean req.email;
  phone_no = req.phone_no;
  role = customer;
  password_hash = e.hash req.password;
  is_verified = false;
  is_active = true;
  verification_otp = some e.new_otp;
  otp_expires_at = some (e.now + otp_expiry);
  seller_profile = none;
}

module _ {S : Type 0} (redis : Redis S) where
  -- `create_account`; `k` is the id that the table gives. What breaks a unique key is a conflict too,
  -- which the two queries see first, but for a stored mailbox that differs from its lower case.
  unfoldable pub create_account : AuthEnv → ℕ → UserCreate → Handler (Visit S) User
  create_account e k req = do
    let mailbox = e.clean req.email
    existing_user ← read_db (find_mailbox e mailbox)
    raise_if (is_some existing_user) conflict
    phone_taken ← read_db (is_phone_taken req.phone_no)
    raise_if phone_taken conflict
    email_taken ← read_db (λ db. is_some (first (has_email mailbox) db.users))
    raise_if email_taken conflict
    write_db (insert_user (new_user e k req))
    commit_db
    enqueue (send_otp_email mailbox e.new_otp)
    pure (new_user e k req)

  -- INCR, and EXPIRE with NX: the window starts with the first hit.
  unfoldable pub hit : AuthEnv → RedisKey → ℕ → Handler (Visit S) ℕ
  hit e k window_seconds = do
    n ← run (redis.incr e.now k)
    unbounded ← ask (redis.persists e.now k)
    if unbounded then tell (redis.expire e.now k window_seconds) else pure tt
    pure n

  unfoldable pub check_email_and_otp_rate_limiting :
      AuthEnv → String → String → ℕ → ℕ → Handler (Visit S) (Unit {0})
  check_email_and_otp_rate_limiting e mailbox action max_request window_seconds = do
    current_hits ← hit e (rate_limit_email (e.clean mailbox) action) window_seconds
    raise_if (ltb max_request current_hits) too_many_requests

  -- The counter of wrong codes.
  unfoldable pub count_wrong_code : AuthEnv → RedisKey → Handler (Visit S) ℕ
  count_wrong_code e k = do
    n ← run (redis.incr e.now k)
    if n == 1 then tell (redis.expire e.now k otp_window) else pure tt
    pure n

  -- The fifth wrong code makes the stored one useless.
  unfoldable pub wrong_code : AuthEnv → String → User → Handler (Visit S) OtpStatus
  wrong_code e mailbox user = do
    failed_count ← count_wrong_code e (otp_failed_attempts mailbox)
    if leb 5 failed_count
        then (do
          write_db (update_user_row user.id clear_otp)
          commit_db
          tell (redis.del (otp_failed_attempts mailbox)))
        else pure tt
    raise bad_request

  unfoldable pub activate : AuthEnv → String → User → Handler (Visit S) OtpStatus
  activate e mailbox user = do
    raise_if (is_otp_expired e user.otp_expires_at) bad_request
    write_db (update_user_row user.id (λ u. record (clear_otp u) { is_verified = true }))
    commit_db
    tell (redis.del (rate_limit_email mailbox "verify_otp"))
    tell (redis.del (otp_failed_attempts mailbox))
    pure verified_now

  unfoldable pub check_otp : AuthEnv → String → String → User → Handler (Visit S) OtpStatus
  check_otp e mailbox code user =
      if user.is_verified
      then pure already_verified
      else if is_otp user.verification_otp code
      then activate e mailbox user
      else wrong_code e mailbox user

  unfoldable pub verify_otp : AuthEnv → String → String → Handler (Visit S) OtpStatus
  verify_otp e address code = do
    let mailbox = e.clean address
    check_email_and_otp_rate_limiting e mailbox "verify_otp" 5 300
    found ← read_db (find_mailbox e mailbox)
    user ← or_raise found bad_request
    check_otp e mailbox code user

  unfoldable pub send_new_otp : AuthEnv → User → Handler (Visit S) OtpStatus
  send_new_otp e user = if user.is_verified then pure already_verified else (do
    write_db (update_user_row user.id (set_otp e))
    commit_db
    enqueue (send_otp_email user.email e.new_otp)
    pure code_sent)

  -- The reply does not tell whether the mailbox has an account.
  unfoldable pub resend_otp : AuthEnv → String → Handler (Visit S) OtpStatus
  resend_otp e address = do
    let mailbox = e.clean address
    check_email_and_otp_rate_limiting e mailbox "resend_otp" 1 120
    found ← read_db (find_mailbox e mailbox)
    elim found [ none ↦ pure code_sent | some user ↦ send_new_otp e user ]
