-- ===== src/Tests/Accounts.antt =====
-- The theorems on tokens, accounts and jobs at inputs where their hypotheses hold.
use event_booking_ticketing.Auth.Revoked.{logged_out_refused}
use event_booking_ticketing.Auth.Rotation.{refresh_once}
use event_booking_ticketing.Accounts.Reset.{reset_password_ends_sessions}
use event_booking_ticketing.Auth.Lockout.{lockout}
use event_booking_ticketing.Session.{forbidden, unauthorized, err}
use event_booking_ticketing.Auth.Sessions.{del_all, revoke_all_user_sessions}
use event_booking_ticketing.Auth.Guards.{get_optional_current_user-guest, as_guest}
use event_booking_ticketing.Worker.Drain.{failing_job_dies, rounds_drain}
use event_booking_ticketing.Redis.{
  locked, account_locked_at, second, RedisKey-discrete, counter, otp, active, failed_logins_at,
  reset_pwd_otp, session_key,
}
use event_booking_ticketing.Accounts.Otp.{hit, check_email_and_otp_rate_limiting}
use event_booking_ticketing.Auth.Logout.{
  end_session, cleanup_refresh_session, revoke_access, revoke_given, logout,
}
use event_booking_ticketing.Auth.Visit.{Visit, AuthEnv}
use event_booking_ticketing.Auth.Refresh.{rotate, take_session, refresh_token}
use event_booking_ticketing.Tests.Memory.{is_key, memory, Memory}
use event_booking_ticketing.Accounts.Password.{
  clear_lockouts, revoke_access_tokens, revoke_all, store_new_password, reset_password,
}
use event_booking_ticketing.Worker.{
  rpush_dead, rpush, other_text, job_text, Queues, has_handler, QueuedJob, rounds,
}
use event_booking_ticketing.Auth.Tokens.{
  create_fresh_token, create_access_token, get_current_user, blacklist_claims, add_blacklist_token,
  is_blacklisted, get_verified_user, is_token_blacklisted, is_unexpired, access, refresh,
  get_optional_current_user, Jwt, Payload,
}
use event_booking_ticketing.Model.{customer, User, Db}
use event_booking_ticketing.Auth.Login.{
  login, release_hash_slot, finish_hashing, open_refresh_session, take_hash_slot, acquire_hash_slot,
  check_credentials,
}
use event_booking_ticketing.Common.{
  inr, ◌∙◌, Bool, ap, refl, ◌+◌, sym, arith, inl, Bool-cases, ◌≡◌, true, [], ◌∷◌, false, some, none,
  if◌then◌else◌, str_eq, ℕ,
}

-- Tokens that are their claims.
pub plain-same :
    (t t' : ℕ) (token p p' : Payload) → some token ≡ some p → some token ≡ some p' → p ≡ p'
plain-same t t' token p p' h h' = cc

pub plain-decode :
    (now : ℕ) (token p : Payload)
    → (if is_unexpired now token then some token else none) ≡ some p
    → (some token ≡ some p) × (is_unexpired now p ≡ true)
plain-decode now token p h = elim (Bool-cases (is_unexpired now token)) [
  | inl q ↦
      let h' : some token ≡ some p =
        sym (ap (λ (b : Bool). if b then some token else none) q) ∙ h in
      let e : token ≡ p = cc in (h', ap (is_unexpired now) (sym e) ∙ q)
  | inr q ↦
      let h' : none ≡ some p = sym (ap (λ (b : Bool). if b then some token else none) q) ∙ h in cc
]

abbrev pub plain : Jwt Payload
plain = record {
  encode = λ p. p;
  decode = λ now p. if is_unexpired now p then some p else none;
  decode_any = λ now p. some p;
  decode-decode_any = λ now token p h. plain-decode now token p h;
  decode_any-same = λ t t' token p p' h h'. plain-same t t' token p p' h h';
}

abbrev pub at_time : ℕ → AuthEnv
at_time t = record {
  now = t;
  access_token_expire_minutes = 15;
  refresh_token_expire_days = 7;
  max_concurrent_auth_hashes = 10;
  clean = λ s. s;
  lower = λ s. s;
  verify_password = λ given stored. str_eq given stored;
  hash = λ s. s;
  access_jti = 100;
  refresh_jti = 200;
  new_otp = "123456";
  random_password = "random";
}

abbrev pub ann : User
ann = record {
  id = 7;
  name = "Ann";
  email = "ann@example.org";
  phone_no = none;
  role = customer;
  password_hash = "secret";
  is_verified = true;
  is_active = true;
  verification_otp = none;
  otp_expires_at = none;
  seller_profile = none;
}

abbrev pub accounts_db : Db
accounts_db = record {
  users = ann ∷ [];
  locations = [];
  services = [];
  tiers = [];
  items = [];
  bookings = [];
  payments = [];
  invoices = [];
  cancellations = [];
  reviews = [];
  next_location_id = 1;
  next_service_id = 1;
  next_tier_id = 1;
  next_item_id = 1;
  next_booking_id = 1;
  next_payment_id = 1;
  next_invoice_id = 1;
  next_cancellation_id = 1;
  next_review_id = 1;
}

abbrev pub visit : Memory → Visit Memory
visit m = record {
  db = accounts_db;
  saved = accounts_db;
  redis_up = true;
  redis = m;
  jobs = [];
  stale_cache = false;
}

-- At the time 1000 s Ann has a session with the `jti` 5, and an access token with the `jti` 6.
abbrev pub now : ℕ
now = 1000000000

abbrev pub cookie : Payload
cookie = record { sub = some 7; jti = some 5; type = some refresh; exp = some 5000; iat = none }

abbrev pub bearer : Payload
bearer = record {
  sub = some 7;
  jti = some 6;
  type = some access;
  exp = some 1400;
  iat = some 500000000;
}

abbrev pub with_session : Memory
with_session = memory.set now (session_key 7 5) active 4000 []

abbrev failing : Memory
failing = memory.set now (failed_logins_at "ann@example.org" "10.0.0.1") (counter 4) 900 []

abbrev with_code : Memory
with_code = memory.set now (reset_pwd_otp "ann@example.org") (otp "654321") 300 with_session

refresh_once_example :
    (refresh_token memory plain (at_time (now + second)) (some cookie) (
      visit
        (refresh_token memory plain (at_time now) (some cookie) (visit with_session)).1.redis)).0
    ≡ err unauthorized
unfolding refresh_token take_session rotate open_refresh_session is_key RedisKey-discrete
refresh_once_example =
    refresh_once memory plain (at_time now) (at_time (now + second)) cookie cookie
      (visit with_session)
      (visit (refresh_token memory plain (at_time now) (some cookie) (visit with_session)).1.redis)
      (record {
        access_token = create_access_token memory plain (at_time now) 7;
        refresh_token = create_fresh_token memory plain (at_time now) 7;
      })
      refl refl (λ q. cc) refl refl

logged_out_refused_example :
    (get_current_user memory plain (at_time (now + second)) bearer (
      visit
        (logout memory plain
          (at_time now)
          (some bearer)
          (some cookie)
          (visit with_session)).1.redis)).0
    ≡ err unauthorized
unfolding logout revoke_given revoke_access is_token_blacklisted is_blacklisted add_blacklist_token
    blacklist_claims cleanup_refresh_session end_session is_key RedisKey-discrete
logged_out_refused_example =
    logged_out_refused memory plain (at_time now) (at_time (now + second)) bearer (some cookie)
      bearer 6 1400 (visit with_session)
      (visit
        (logout memory plain (at_time now) (some bearer) (some cookie)
          (visit with_session)).1.redis)
      refl refl refl refl (omega arith) (inl (omega arith)) refl refl

get_optional_current_user-guest_example :
    get_optional_current_user memory plain (at_time now) (some bearer) (visit with_session) ≡ (
      as_guest (get_verified_user memory plain (at_time now) bearer (visit with_session)).0,
      visit with_session,
    )
get_optional_current_user-guest_example =
    get_optional_current_user-guest memory plain (at_time now) bearer (visit with_session)

lockout_example :
    login memory plain (at_time (now + second)) "10.0.0.1" "ann@example.org" "secret" (
      visit
        (login memory plain
          (at_time now)
          "10.0.0.1"
          "ann@example.org"
          "guess"
          (visit failing)).1.redis)
    ≡ (
      err forbidden,
      visit
          (login memory plain
            (at_time now)
            "10.0.0.1"
            "ann@example.org"
            "guess"
            (visit failing)).1.redis,
    )
unfolding check_credentials acquire_hash_slot take_hash_slot finish_hashing release_hash_slot is_key
    RedisKey-discrete
lockout_example =
    lockout memory plain (at_time now) (at_time (now + second)) "10.0.0.1" "ann@example.org" "guess"
      "ann@example.org" "secret" 4 (visit failing)
      (visit
        (login memory plain (at_time now) "10.0.0.1" "ann@example.org" "guess"
          (visit failing)).1.redis)
      refl refl refl refl (omega arith) refl (omega arith) (omega arith) refl refl refl

reset_password_ends_sessions_example :
    let s =
      (reset_password memory
        (at_time now)
        "ann@example.org"
        "654321"
        "new"
        (visit with_code)).1.redis in
    ((get_current_user memory plain (at_time (now + second)) bearer (visit s)).0 ≡ err unauthorized)
    × ((refresh_token memory plain (at_time (now + second)) (some cookie) (visit s)).0
        ≡ err unauthorized)
unfolding reset_password check_email_and_otp_rate_limiting hit store_new_password revoke_all
    revoke_all_user_sessions revoke_access_tokens clear_lockouts del_all is_key RedisKey-discrete
reset_password_ends_sessions_example =
    reset_password_ends_sessions memory plain (at_time now) (at_time (now + second))
      "ann@example.org" "654321" "new" ann (visit with_code)
      (visit
        (reset_password memory (at_time now) "ann@example.org" "654321" "new"
          (visit with_code)).1.redis)
      bearer cookie bearer cookie 500000000 1400 5 refl refl (omega arith) refl refl refl refl refl
      (omega arith) refl (omega arith) refl refl

abbrev locked_with_code : Memory
locked_with_code =
    memory.set now (account_locked_at "ann@example.org" "10.0.0.1") locked 900 with_code

abbrev invoice_job : QueuedJob
invoice_job = record { task = "send_invoice_email"; payload = "{}"; retries = 0 }

abbrev two_jobs : Queues
two_jobs = record { jobs = job_text invoice_job ∷ other_text "?" ∷ []; dead_letter = [] }

rounds_drain_example : (rounds (false ∷ true ∷ false ∷ false ∷ true ∷ []) two_jobs).jobs ≡ []
rounds_drain_example =
    rounds_drain (false ∷ true ∷ false ∷ false ∷ true ∷ []) two_jobs (omega arith)

failing_job_dies_example :
    rounds (false ∷ false ∷ false ∷ false ∷ []) (rpush (job_text invoice_job) two_jobs)
    ≡ rpush_dead (job_text (record invoice_job { retries = 3 })) two_jobs
unfolding has_handler
failing_job_dies_example = failing_job_dies invoice_job two_jobs refl refl
