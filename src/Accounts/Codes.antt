-- ===== src/Accounts/Codes.antt =====
-- What a code sent to a mailbox is good for, of `verify_otp` in app/routers/auth/users.py.
use event_booking_ticketing.Accounts.Revocation.{rate_limiting-db}
use event_booking_ticketing.Auth.Login.{has_mailbox, find_mailbox}
use event_booking_ticketing.Payments.Confirm.{is_text}
use event_booking_ticketing.Session.{Result-cases, Result, raise_if-state, ok}
use event_booking_ticketing.Auth.Visit.{Visit, AuthEnv}
use event_booking_ticketing.Accounts.Otp.{
  verify_otp, OtpStatus, count_wrong_code, activate, wrong_code, update_user_row, is_otp_expired,
  verified_now, check_otp, is_otp, hit, check_email_and_otp_rate_limiting, clear_otp,
}
use event_booking_ticketing.Model.{Db, has_user_id, User}
use event_booking_ticketing.Redis.{
  count_of, RedisValue, counter, otp_failed_attempts, rate_limit_email, RedisKey, Redis,
}
use event_booking_ticketing.Common.{
  first-true, sym, first-update, Option-cases, first, leb, ◌==◌, ◌+◌, arith, refl, ◌∙◌, none,
  str_eq, ap, false, inl, inr, ◌≤◌, and-right, Bool-cases, str_eq→eq, some, ◌≢◌, ◌≡◌, true, String,
  Option, ℕ,
}

-- The account once its mailbox is verified.
abbrev pub activated : User → User
activated u = record (clear_otp u) { is_verified = true }

is_otp-same : (o : Option String) (code : String) → is_otp o code ≡ true → o ≡ some code
is_otp-same none code h = cc
is_otp-same (some stored) code h =
    let same : stored ≡ code =
      str_eq→eq stored code (and-right (is_text stored) (str_eq stored code) h) in
    ap some same

find_mailbox-same :
    (e e' : AuthEnv) (m m' : String) (db : Db)
    → m' ≡ m
    → e'.lower ≡ e.lower
    → find_mailbox e' m' db ≡ find_mailbox e m db
find_mailbox-same e e' m m' db same_mailbox same_lower =
    ap (λ (l : String → String). first (λ (u : User). str_eq (l u.email) m') db.users) same_lower
    ∙ ap (λ n. find_mailbox e n db) same_mailbox

module _ {S : Type 0} (redis : Redis S) where
  rate_limiting-up :
      (e : AuthEnv) (mailbox action : String) (n w : ℕ) (v : Visit S)
      → (check_email_and_otp_rate_limiting redis e mailbox action n w v).1.redis_up ≡ v.redis_up
  unfolding check_email_and_otp_rate_limiting hit
  rate_limiting-up e mailbox action n w v =
      let key : RedisKey = rate_limit_email (e.clean mailbox) action in
      elim (Bool-cases v.redis_up) [
        | inr down ↦ rw down refl
        | inl up ↦ elim (Bool-cases (redis.persists e.now key (redis.incr e.now key v.redis).1)) [
          | inl q ↦ rw (up, q) (ap (λ (w : Visit S). w.redis_up) (raise_if-state _ _ _))
          | inr q ↦ rw (up, q) (ap (λ (w : Visit S). w.redis_up) (raise_if-state _ _ _))
        ]
      ]

  rate_limiting-get :
      (e : AuthEnv) (j : RedisKey) (mailbox action : String) (n w : ℕ) (v : Visit S)
      → j ≢ rate_limit_email (e.clean mailbox) action
      → redis.get e.now j (check_email_and_otp_rate_limiting redis e mailbox action n w v).1.redis
        ≡ redis.get e.now j v.redis
  unfolding check_email_and_otp_rate_limiting hit
  rate_limiting-get e j mailbox action n w v ne =
      let key : RedisKey = rate_limit_email (e.clean mailbox) action in
      let counted : S = (redis.incr e.now key v.redis).1 in
      let same : redis.get e.now j counted ≡ redis.get e.now j v.redis =
        redis.get-incr_other e.now e.now j key v.redis ne in
      let read : Visit S → Option RedisValue = λ (x : Visit S). redis.get e.now j x.redis in
      elim (Bool-cases v.redis_up) [
        | inr down ↦ rw down refl
        | inl up ↦ elim (Bool-cases (redis.persists e.now key counted)) [
          | inl q ↦
              rw (up, q)
                (ap read (raise_if-state _ _ _)
                  ∙ redis.get-expire_other e.now e.now j key w counted ne
                  ∙ same)
          | inr q ↦ rw (up, q) (ap read (raise_if-state _ _ _) ∙ same)
        ]
      ]

  wrong_code-raises :
      (e : AuthEnv) (mailbox : String) (user : User) (st : OtpStatus) (v : Visit S)
      → (wrong_code redis e mailbox user v).0 ≢ ok st
  unfolding wrong_code
  wrong_code-raises e mailbox user st v h =
      let counted : Result ℕ × Visit S = count_wrong_code redis e (otp_failed_attempts mailbox) v in
      elim (Result-cases counted.0) [
        | inr (f, q) ↦ ground arith
        | inl (n, q) ↦ elim (Bool-cases (leb 5 n)) [
          | inr few ↦ ground arith
          | inl many ↦ elim (Bool-cases counted.1.redis_up) [
            | inl up ↦ ground arith
            | inr down ↦ ground arith
          ]
        ]
      ]

  activate-ok :
      (e : AuthEnv) (mailbox : String) (user : User) (v : Visit S)
      → (activate redis e mailbox user v).0 ≡ ok verified_now
      → (is_otp_expired e user.otp_expires_at ≡ false)
        × ((activate redis e mailbox user v).1.saved ≡ update_user_row user.id activated v.db)
  unfolding activate
  activate-ok e mailbox user v h = elim (Bool-cases (is_otp_expired e user.otp_expires_at)) [
    | inl late ↦ absurd (ground arith)
    | inr fresh ↦ elim (Bool-cases v.redis_up) [
      | inl up ↦ (fresh, rw (fresh, up) refl)
      | inr down ↦ (fresh, rw (fresh, down) refl)
    ]
  ]

  check_otp-ok :
      (e : AuthEnv) (mailbox code : String) (user : User) (v : Visit S)
      → (check_otp redis e mailbox code user v).0 ≡ ok verified_now
      → (is_otp user.verification_otp code ≡ true)
        × (is_otp_expired e user.otp_expires_at ≡ false)
        × ((check_otp redis e mailbox code user v).1.saved ≡ update_user_row user.id activated v.db)
  unfolding check_otp
  check_otp-ok e mailbox code user v h = elim (Bool-cases user.is_verified) [
    | inl old ↦ absurd (ground arith)
    | inr new ↦ elim (Bool-cases (is_otp user.verification_otp code)) [
      | inr wrong ↦ absurd (ground (arith, wrong_code-raises e mailbox user verified_now v))
      | inl right ↦
          let h' : (activate redis e mailbox user v).0 ≡ ok verified_now = ground arith in
          let done : check_otp redis e mailbox code user v ≡ activate redis e mailbox user v =
            rw (new, right) refl in
          let (fresh, kept) = activate-ok e mailbox user v h' in
          (right, fresh, ap (λ (x : Result OtpStatus × Visit S). x.1.saved) done ∙ kept)
    ]
  ]

  -- The fifth wrong code clears the stored one in the committed database.
  check_otp-voids :
      (e : AuthEnv) (n : ℕ) (mailbox code : String) (user : User) (v : Visit S)
      → v.redis_up ≡ true
      → redis.get e.now (otp_failed_attempts mailbox) v.redis ≡ some (counter n)
      → 4 ≤ n
      → user.is_verified ≡ false
      → is_otp user.verification_otp code ≡ false
      → (check_otp redis e mailbox code user v).1.saved ≡ update_user_row user.id clear_otp v.db
  unfolding check_otp wrong_code count_wrong_code
  check_otp-voids e n mailbox code user v up counted many new wrong =
      let key : RedisKey = otp_failed_attempts mailbox in
      let fifth : (redis.incr e.now key v.redis).0 ≡ n + 1 =
        redis.incr-count e.now key v.redis ∙ ap (λ c. count_of c + 1) counted in
      let not_first : (n + 1 == 1) ≡ false = ground arith in
      let enough : leb 5 (n + 1) ≡ true = ground arith in
      rw (new, wrong, up, fifth, not_first, enough) refl

  -- The handler, once the mailbox may be tried and has an account.
  verify_otp-check :
      (e : AuthEnv) (address code : String) (user : User) (v v1 : Visit S)
      → check_email_and_otp_rate_limiting redis e (e.clean address) "verify_otp" 5 300 v
        ≡ (ok tt, v1)
      → find_mailbox e (e.clean address) v1.db ≡ some user
      → verify_otp redis e address code v ≡ check_otp redis e (e.clean address) code user v1
  unfolding verify_otp
  verify_otp-check e address code user v v1 h found = rw (h, found) refl

  -- A mailbox is verified only by its code: if the reply is that it is verified now, then its
  -- account has that very code, which has not expired, and the committed database is the one before
  -- with the account verified and without a code.
  pub verify_otp_proves :
      (e : AuthEnv) (address code : String) (v : Visit S)
      → (verify_otp redis e address code v).0 ≡ ok verified_now
      → (user : User) × (find_mailbox e (e.clean address) v.db ≡ some user)
        × (user.verification_otp ≡ some code)
        × (is_otp_expired e user.otp_expires_at ≡ false)
        × ((verify_otp redis e address code v).1.saved ≡ update_user_row user.id activated v.db)
  unfolding verify_otp
  verify_otp_proves e address code v h =
      let mailbox : String = e.clean address in
      let limited : Result (Unit {0}) × Visit S =
        check_email_and_otp_rate_limiting redis e mailbox "verify_otp" 5 300 v in
      let same : limited.1.db ≡ v.db = rate_limiting-db redis e mailbox "verify_otp" 5 300 v in
      elim (Result-cases limited.0) [
        | inr (f, q) ↦ absurd (ground arith)
        | inl (_, q) ↦ elim (Option-cases (find_mailbox e mailbox limited.1.db)) [
          | inl unknown ↦ absurd (ground arith)
          | inr (user, found) ↦
              let done : verify_otp redis e address code v
                  ≡ check_otp redis e mailbox code user limited.1 =
                verify_otp-check e address code user v limited.1 (λ i. (q i, limited.1)) found in
              let (right, fresh, kept) =
                check_otp-ok e mailbox code user limited.1
                  (ap (λ (x : Result OtpStatus × Visit S). x.0) (sym done) ∙ h) in
              (
                user,
                ap (find_mailbox e mailbox) (sym same) ∙ found,
                is_otp-same user.verification_otp code right,
                fresh,
                ap (λ (x : Result OtpStatus × Visit S). x.1.saved) done
                    ∙ kept
                    ∙ ap (update_user_row user.id activated) same,
              )
        ]
      ]

  -- An account without a code is not verified by any.
  cleared_refused :
      (e : AuthEnv) (address code : String) (user : User) (v : Visit S)
      → find_mailbox e (e.clean address) v.db ≡ some user
      → user.verification_otp ≡ none
      → (verify_otp redis e address code v).0 ≢ ok verified_now
  cleared_refused e address code user v found cleared h =
      let (user', found', has_code, _, _) = verify_otp_proves e address code v h in
      let whose : some user ≡ some user' = sym found ∙ found' in
      let is_user : user ≡ user' = cc in
      let absent : none ≡ some code =
        sym cleared ∙ ap (λ (u : User). u.verification_otp) is_user ∙ has_code in
      cc

  -- The fifth wrong code in a row voids the code of the account: on the database that is committed,
  -- no code at all verifies the mailbox any more. This takes Redis to be reached, four failures to
  -- be counted, the attempt to be within the limit, and the account to be the row of its id.
  pub otp_guesses_void :
      (e e' : AuthEnv) (address address' code code' : String) (user : User) (n : ℕ) (v v' : Visit S)
      → v.redis_up ≡ true
      → redis.get e.now (otp_failed_attempts (e.clean address)) v.redis ≡ some (counter n)
      → 4 ≤ n
      → (check_email_and_otp_rate_limiting redis e (e.clean address) "verify_otp" 5 300 v).0 ≡ ok tt
      → find_mailbox e (e.clean address) v.db ≡ some user
      → first (has_user_id user.id) v.db.users ≡ some user
      → user.is_verified ≡ false
      → user.verification_otp ≢ some code
      → v'.db ≡ (verify_otp redis e address code v).1.saved
      → e'.clean address' ≡ e.clean address
      → e'.lower ≡ e.lower
      → (verify_otp redis e' address' code' v').0 ≢ ok verified_now
  otp_guesses_void e e' address address' code code' user n v v' up counted many within found row new
        wrong left same_mailbox same_lower h =
      let mailbox : String = e.clean address in
      let v1 : Visit S =
        (check_email_and_otp_rate_limiting redis e mailbox "verify_otp" 5 300 v).1 in
      let same : v1.db ≡ v.db = rate_limiting-db redis e mailbox "verify_otp" 5 300 v in
      let done : verify_otp redis e address code v ≡ check_otp redis e mailbox code user v1 =
        verify_otp-check e address code user v v1 (λ i. (within i, v1))
          (ap (find_mailbox e mailbox) same ∙ found) in
      let no_match : is_otp user.verification_otp code ≡ false =
        elim (Bool-cases (is_otp user.verification_otp code)) [
          | inr q ↦ q
          | inl q ↦ absurd (wrong (is_otp-same user.verification_otp code q))
        ] in
      let voided : v'.db ≡ update_user_row user.id clear_otp v.db =
        left
        ∙ ap (λ (x : Result OtpStatus × Visit S). x.1.saved) done
        ∙ check_otp-voids e n mailbox code user v1
            (rate_limiting-up e mailbox "verify_otp" 5 300 v ∙ up)
            (rate_limiting-get e (otp_failed_attempts mailbox) mailbox "verify_otp" 5 300 v
                (λ q. cc)
              ∙ counted)
            many new no_match
        ∙ ap (update_user_row user.id clear_otp) same in
      let mailbox_user : find_mailbox e mailbox v'.db ≡ some (clear_otp user) =
        ap (find_mailbox e mailbox) voided
        ∙ first-update (has_mailbox e mailbox) (has_user_id user.id) clear_otp v.db.users user found
            row (first-true (has_mailbox e mailbox) v.db.users user found) in
      cleared_refused e' address' code' (clear_otp user) v'
        (find_mailbox-same e e' (e.clean address) (e'.clean address') v'.db same_mailbox same_lower
          ∙ mailbox_user)
        refl h
