-- ===== src/Accounts/Revocation.antt =====
-- What a new password leaves of the sessions and tokens of the account.
use event_booking_ticketing.Accounts.Otp.{
  count_wrong_code, hit, update_user_row, check_email_and_otp_rate_limiting,
}
use event_booking_ticketing.Auth.Login.{find_mailbox}
use event_booking_ticketing.Session.{
  Handler, Result, Result-cases, ◌>>◌, too_many_requests, raise_if, ok,
}
use event_booking_ticketing.Model.{Db, User}
use event_booking_ticketing.Auth.Tokens.{minutes_in_seconds}
use event_booking_ticketing.Auth.Revocation.{get-del_all-none, get-del_scanned}
use event_booking_ticketing.Auth.Sessions.{is_session_of, revoke_all_user_sessions, del_all}
use event_booking_ticketing.Accounts.Password.{
  void_reset_code, otp_text, reset_password, wrong_reset_code, is_lockout_of, clear_lockouts,
  store_new_password, revoke_access_tokens, revoke_all,
}
use event_booking_ticketing.Auth.Visit.{Visit, AuthEnv}
use event_booking_ticketing.Redis.{
  rate_limit_email, failed_logins, account_locked, reset_otp_failed_attempts, reset_pwd_otp, second,
  timestamp, until, user_revoked_at, Listed, session_key, RedisKey, Redis,
}
use event_booking_ticketing.Common.{
  str_eq, Option-cases, ap, sym, subst, ltb, false, ◌≢◌, arith, Bool, String, Bool-cases, some,
  ==-refl, refl, [], ◌*◌, inl, ◌∙◌, ◌+◌, ◌≤◌, inr, true, ◌∷◌, none, List, ◌≡◌, ℕ,
}

module _ {S : Type 0} (redis : Redis S) where
  -- Every session of the user is gone, and `user_revoked_at` is set.
  abbrev pub IsCut : AuthEnv → ℕ → ℕ → ℕ → S → Type 0
  IsCut e user_id k t s =
      (redis.get t (session_key user_id k) s ≡ none)
      × (redis.get t (user_revoked_at user_id) s
          ≡ until (e.now + minutes_in_seconds e.access_token_expire_minutes * second) t
              (some (timestamp e.now)))

  pub revoke_all-IsCut :
      (e : AuthEnv) (user_id k t : ℕ) (v : Visit S)
      → v.redis_up ≡ true
      → e.now ≤ t
      → IsCut e user_id k t (revoke_all redis e user_id v).1.redis
  unfolding revoke_all revoke_all_user_sessions revoke_access_tokens
  revoke_all-IsCut e user_id k t v up later = rw up (
    redis.get-set_other e.now t (session_key user_id k) (user_revoked_at user_id) (timestamp e.now)
          _ _ (λ q. cc)
        ∙ get-del_scanned redis e.now t (is_session_of user_id) (session_key user_id k) v.redis
            later (==-refl user_id),
    redis.get-set_self e.now t (user_revoked_at user_id) (timestamp e.now) _ _ later,
  )

  -- Deleting a list of keys leaves a key alone that is not on it.
  get-del_all_other :
      (t : ℕ) (k : RedisKey) (ks : List RedisKey) (s : S)
      → ¬ Listed k ks
      → redis.get t k (del_all redis ks s) ≡ redis.get t k s
  unfolding del_all
  get-del_all_other t k [] s ne = refl
  get-del_all_other t k (j ∷ js) s ne =
      get-del_all_other t k js (redis.del j s) (λ h. ne (inr h))
      ∙ redis.get-del_other t k j s (λ h. ne (inl h))

  -- The keys of the lockout and of the code are neither.
  clear_lockouts-IsCut :
      (e : AuthEnv) (mailbox : String) (user_id k t : ℕ) (v : Visit S)
      → v.redis_up ≡ true
      → IsCut e user_id k t v.redis
      → IsCut e user_id k t (clear_lockouts redis e mailbox v).1.redis
  unfolding clear_lockouts
  clear_lockouts-IsCut e mailbox user_id k t v up (gone, set) =
      let scanned : List RedisKey = redis.scan e.now (is_lockout_of mailbox) v.redis in
      let s1 : S = del_all redis scanned v.redis in
      let listed : List RedisKey =
        reset_pwd_otp mailbox
        ∷ reset_otp_failed_attempts mailbox
        ∷ account_locked mailbox
        ∷ failed_logins mailbox
        ∷ [] in
      let key : RedisKey = user_revoked_at user_id in
      rw up (
        get-del_all-none redis t (session_key user_id k) listed s1
            (get-del_all-none redis t (session_key user_id k) scanned v.redis gone),
        get-del_all_other t key listed s1 (λ h. elim h [
          | inl q ↦ cc
          | inr r ↦ elim r [
            | inl q ↦ cc
            | inr r' ↦ elim r' [
              | inl q ↦ cc
              | inr r'' ↦ elim r'' [ inl q ↦ cc | inr none_left ↦ none_left ]
            ]
          ]
        ])
            ∙ get-del_all_other t key scanned v.redis
                (λ h. cc (redis.scan-fits e.now (is_lockout_of mailbox) key v.redis h))
            ∙ set,
      )

  pub revoke_all-up :
      (e : AuthEnv) (user_id : ℕ) (v : Visit S)
      → (revoke_all redis e user_id v).1.redis_up ≡ v.redis_up
  unfolding revoke_all revoke_all_user_sessions revoke_access_tokens
  revoke_all-up e user_id v = elim (Bool-cases v.redis_up) [
    | inl up ↦ rw up refl
    | inr down ↦ rw down refl
  ]

  revoke_all-reached :
      (e : AuthEnv) (user_id : ℕ) (v : Visit S)
      → (revoke_all redis e user_id v).0 ≡ ok tt
      → v.redis_up ≡ true
  unfolding revoke_all revoke_all_user_sessions revoke_access_tokens
  revoke_all-reached e user_id v h = ground arith

  -- Storing the password that succeeds ends with the clearing of the lockouts.
  pub store_new_password-clear :
      (e : AuthEnv) (mailbox password : String) (user : User) (v : Visit S)
      → (store_new_password redis e mailbox password v).0 ≡ ok tt
      → find_mailbox e mailbox v.db ≡ some user
      → (v2 : Visit S) × (v2.redis_up ≡ true)
        × (store_new_password redis e mailbox password v
            ≡ clear_lockouts redis e mailbox (revoke_all redis e user.id v2).1)
  unfolding store_new_password
  store_new_password-clear e mailbox password user v h found =
      let db' : Db =
        update_user_row user.id (λ u. record u { password_hash = e.hash password }) v.db in
      let v2 : Visit S = record v { db = db'; saved = db' } in
      let stored : store_new_password redis e mailbox password v
          ≡ (revoke_all redis e user.id >> clear_lockouts redis e mailbox) v2 =
        rw found refl in
      elim (Result-cases (revoke_all redis e user.id v2).0) [
        | inr (f, q) ↦ absurd (ground arith)
        | inl (_, q) ↦ (v2, revoke_all-reached e user.id v2 q, stored ∙ (ground arith))
      ]

  store_new_password-IsCut :
      (e : AuthEnv) (mailbox password : String) (user : User) (k t : ℕ) (v : Visit S)
      → (store_new_password redis e mailbox password v).0 ≡ ok tt
      → find_mailbox e mailbox v.db ≡ some user
      → e.now ≤ t
      → IsCut e user.id k t (store_new_password redis e mailbox password v).1.redis
  store_new_password-IsCut e mailbox password user k t v h found later =
      let (v2, up, rest) = store_new_password-clear e mailbox password user v h found in
      subst (λ (x : Result (Unit {0}) × Visit S). IsCut e user.id k t x.1.redis) (sym rest)
        (clear_lockouts-IsCut e mailbox user.id k t (revoke_all redis e user.id v2).1
          (revoke_all-up e user.id v2 ∙ up) (revoke_all-IsCut e user.id k t v2 up later))

  raise_if-db : (test : Bool) (v : Visit S) → (raise_if test too_many_requests v).1.db ≡ v.db
  raise_if-db true v = refl
  raise_if-db false v = refl

  pub rate_limiting-db :
      (e : AuthEnv) (mailbox action : String) (n w : ℕ) (v : Visit S)
      → (check_email_and_otp_rate_limiting redis e mailbox action n w v).1.db ≡ v.db
  unfolding check_email_and_otp_rate_limiting hit
  rate_limiting-db e mailbox action n w v =
      let key : RedisKey = rate_limit_email (e.clean mailbox) action in
      elim (Bool-cases v.redis_up) [
        | inr down ↦ rw down refl
        | inl up ↦ elim (Bool-cases (redis.persists e.now key (redis.incr e.now key v.redis).1)) [
          | inl q ↦ rw (up, q) (raise_if-db (ltb n (redis.incr e.now key v.redis).0) _)
          | inr q ↦ rw (up, q) (raise_if-db (ltb n (redis.incr e.now key v.redis).0) _)
        ]
      ]

  wrong_reset_code-raises :
      (e : AuthEnv) (mailbox : String) (v : Visit S)
      → (wrong_reset_code redis e mailbox v).0 ≢ ok tt
  unfolding wrong_reset_code
  wrong_reset_code-raises e mailbox v h =
      let counted : Result ℕ × Visit S =
        count_wrong_code redis e (reset_otp_failed_attempts mailbox) v in
      elim (Result-cases counted.0) [
        | inr (f, q) ↦ ground arith
        | inl (n, q) ↦ elim (Result-cases (void_reset_code redis e mailbox n counted.1).0) [
          | inl (_, r) ↦ ground arith
          | inr (f, r) ↦ ground arith
        ]
      ]

  -- A reset that succeeds has stored the password of the account.
  pub reset_password-store :
      (e : AuthEnv) (address code password : String) (v : Visit S)
      → (reset_password redis e address code password v).0 ≡ ok tt
      → (v1 : Visit S) × (v1.db ≡ v.db)
        × (reset_password redis e address code password v
            ≡ store_new_password redis e (e.clean address) password v1)
  unfolding reset_password
  reset_password-store e address code password v h =
      let mailbox : String = e.clean address in
      let limited : Handler (Visit S) (Unit {0}) =
        check_email_and_otp_rate_limiting redis e mailbox "reset_password_attempts" 5 300 in
      let v1 : Visit S = (limited v).1 in
      elim (Result-cases (limited v).0) [
        | inr (f, q) ↦ absurd (ground arith)
        | inl (_, q) ↦ elim (Bool-cases v1.redis_up) [
          | inr down ↦ absurd (ground arith)
          | inl up ↦
              elim (Option-cases (otp_text (redis.get e.now (reset_pwd_otp mailbox) v1.redis))) [
                | inl no_code ↦ absurd (ground arith)
                | inr (stored, r) ↦ elim (Bool-cases (str_eq stored code)) [
                  | inr wrong ↦ absurd (ground (arith, wrong_reset_code-raises e mailbox v1))
                  | inl right ↦ (
                    v1,
                    rate_limiting-db e mailbox "reset_password_attempts" 5 300 v,
                    ground arith,
                  )
                ]
              ]
        ]
      ]

  pub reset_password-IsCut :
      (e : AuthEnv) (address code password : String) (user : User) (k t : ℕ) (v : Visit S)
      → (reset_password redis e address code password v).0 ≡ ok tt
      → find_mailbox e (e.clean address) v.db ≡ some user
      → e.now ≤ t
      → IsCut e user.id k t (reset_password redis e address code password v).1.redis
  reset_password-IsCut e address code password user k t v h found later =
      let (v1, same, done) = reset_password-store e address code password v h in
      subst (λ (x : Result (Unit {0}) × Visit S). IsCut e user.id k t x.1.redis) (sym done)
        (store_new_password-IsCut e (e.clean address) password user k t v1
          (ap (λ (x : Result (Unit {0}) × Visit S). x.0) (sym done) ∙ h)
          (ap (find_mailbox e (e.clean address)) same ∙ found) later)
