-- ===== src/Auth/Slots.antt =====
-- What the counters of failures and of hashes leave alone.
use event_booking_ticketing.Session.{>>=-keeps, unhandled, pure, Handler, Result, err, ok}
use event_booking_ticketing.Auth.Visit.{on_exception, Visit, AuthEnv}
use event_booking_ticketing.Auth.Login.{
  finish_hashing, acquire_hash_slot, check_credentials, release_hash_slot, take_hash_slot,
  failure_window, count_failure,
}
use event_booking_ticketing.Redis.{RedisValue, auth_hash, count_of, RedisKey, Redis}
use event_booking_ticketing.Common.{
  ltb, Bool, if-cases, false, Option, ◌∙◌, ◌||◌, refl, ◌==◌, inl, inr, Bool-cases, ◌+◌, true, arith,
  ◌≡◌, ◌≢◌, String, ℕ,
}

module _ {S : Type 0} (redis : Redis S) where
  -- Counting a failure leaves every other key alone.
  count_failure-other :
      (e : AuthEnv) (t : ℕ) (j k : RedisKey) (v : Visit S)
      → j ≢ k
      → redis.get t j (count_failure redis e k v).1.redis ≡ redis.get t j v.redis
  unfolding count_failure
  count_failure-other e t j k v ne =
      let other = redis.get-incr_other e.now t j k v.redis ne in
      elim (Bool-cases v.redis_up) [
        | inr down ↦ rw down refl
        | inl up ↦ elim (Bool-cases ((redis.incr e.now k v.redis).0 == 1)) [
          | inl q ↦ rw (up, q) (redis.get-expire_other e.now t j k failure_window _ ne ∙ other)
          | inr q ↦ rw (up, q) other
        ]
      ]

  pub count_failure-count :
      (e : AuthEnv) (k : RedisKey) (v : Visit S)
      → v.redis_up ≡ true
      → (count_failure redis e k v).0 ≡ ok (count_of (redis.get e.now k v.redis) + 1)
  unfolding count_failure
  count_failure-count e k v up = ground (arith, redis.incr-count e.now k v.redis)

  pub count_failure-up :
      (e : AuthEnv) (k : RedisKey) (v : Visit S)
      → (count_failure redis e k v).1.redis_up ≡ v.redis_up
  unfolding count_failure
  count_failure-up e k v = elim (Bool-cases v.redis_up) [
    | inr down ↦ rw down refl
    | inl up ↦ elim (Bool-cases ((redis.incr e.now k v.redis).0 == 1)) [
      | inl q ↦ rw (up, q) refl
      | inr q ↦ rw (up, q) refl
    ]
  ]

  take_hash_slot-other :
      (e : AuthEnv) (t : ℕ) (j : RedisKey) (v : Visit S)
      → j ≢ auth_hash
      → redis.get t j (take_hash_slot redis e v).1.redis ≡ redis.get t j v.redis
  unfolding take_hash_slot
  take_hash_slot-other e t j v ne =
      let s : S = (redis.incr e.now auth_hash v.redis).1 in
      let other = redis.get-incr_other e.now t j auth_hash v.redis ne in
      elim (Bool-cases v.redis_up) [
        | inr down ↦ rw down refl
        | inl up ↦
            elim (Bool-cases
              (((redis.incr e.now auth_hash v.redis).0 == 1) || redis.persists e.now auth_hash s)) [
                | inl q ↦ rw (up, q) (redis.get-expire_other e.now t j auth_hash 10 s ne ∙ other)
                | inr q ↦ rw (up, q) other
              ]
      ]

  release_hash_slot-other :
      (e : AuthEnv) (t : ℕ) (j : RedisKey) (v : Visit S)
      → j ≢ auth_hash
      → redis.get t j (release_hash_slot redis e v).1.redis ≡ redis.get t j v.redis
  unfolding release_hash_slot
  release_hash_slot-other e t j v ne =
      let s : S = (redis.decr e.now auth_hash v.redis).1 in
      let other = redis.get-decr_other e.now t j auth_hash v.redis ne in
      elim (Bool-cases v.redis_up) [
        | inr down ↦ rw down refl
        | inl up ↦ elim (Bool-cases ((redis.decr e.now auth_hash v.redis).0 == 0)) [
          | inl q ↦ rw (up, q) (redis.get-del_other t j auth_hash s ne ∙ other)
          | inr q ↦ rw (up, q) other
        ]
      ]

  take_hash_slot-up :
      (e : AuthEnv) (v : Visit S) → (take_hash_slot redis e v).1.redis_up ≡ v.redis_up
  unfolding take_hash_slot
  take_hash_slot-up e v =
      let s : S = (redis.incr e.now auth_hash v.redis).1 in
      elim (Bool-cases v.redis_up) [
        | inr down ↦ rw down refl
        | inl up ↦
            elim (Bool-cases
              (((redis.incr e.now auth_hash v.redis).0 == 1) || redis.persists e.now auth_hash s)) [
                | inl q ↦ rw (up, q) refl
                | inr q ↦ rw (up, q) refl
              ]
      ]

  release_hash_slot-up :
      (e : AuthEnv) (v : Visit S) → (release_hash_slot redis e v).1.redis_up ≡ v.redis_up
  unfolding release_hash_slot
  release_hash_slot-up e v = elim (Bool-cases v.redis_up) [
    | inr down ↦ rw down refl
    | inl up ↦ elim (Bool-cases ((redis.decr e.now auth_hash v.redis).0 == 0)) [
      | inl q ↦ rw (up, q) refl
      | inr q ↦ rw (up, q) refl
    ]
  ]

  -- Redis is there, and a key has a value.
  abbrev pub Reads : ℕ → RedisKey → Option RedisValue → Visit S → Type 0
  Reads t j x v = (v.redis_up ≡ true) × (redis.get t j v.redis ≡ x)

  on_exception-keeps {ℓ} :
      {A : Type ℓ} (K : Visit S → Type 0) (r : Result A × Visit S) (h : Handler (Visit S) A)
      → K r.1
      → ((v : Visit S) → K v → K (h v).1)
      → K (on_exception r h).1
  on_exception-keeps K (ok a, v) h kept go = kept
  on_exception-keeps K (err unhandled, v) h kept go = go v kept
  on_exception-keeps K (err f, v) h kept go = kept

  module _ (e : AuthEnv) (t : ℕ) (j : RedisKey) (x : Option RedisValue) (ne : j ≢ auth_hash) where
    release_hash_slot-Reads :
        (v : Visit S) → Reads t j x v → Reads t j x (release_hash_slot redis e v).1
    release_hash_slot-Reads v r =
        (release_hash_slot-up e v ∙ r.0, release_hash_slot-other e t j v ne ∙ r.1)

    acquire_hash_slot-Reads :
        (v : Visit S) → Reads t j x v → Reads t j x (acquire_hash_slot redis e v).1
    unfolding acquire_hash_slot
    acquire_hash_slot-Reads v r =
        on_exception-keeps (Reads t j x) _ (pure false)
          (>>=-keeps (Reads t j x) (Reads t j x) (take_hash_slot redis e) _ v
            (take_hash_slot-up e v ∙ r.0, take_hash_slot-other e t j v ne ∙ r.1) (λ s' h. h)
            (λ n s' h.
              if-cases (λ (m : Handler (Visit S) Bool). Reads t j x (m s').1)
                (ltb e.max_concurrent_auth_hashes n)
                (λ q.
                  >>=-keeps (Reads t j x) (Reads t j x) (release_hash_slot redis e) _ s'
                    (release_hash_slot-Reads s' h) (λ s'' h'. h') (λ a s'' h'. h'))
                (λ q. h)))
          (λ v' h. h)

    pub check_credentials-Reads :
        (mailbox password : String) (v : Visit S)
        → Reads t j x v
        → Reads t j x (check_credentials redis e mailbox password v).1
    unfolding check_credentials finish_hashing
    check_credentials-Reads mailbox password v r =
        >>=-keeps (Reads t j x) (Reads t j x) (acquire_hash_slot redis e) _ v
          (acquire_hash_slot-Reads v r) (λ s' h. h)
          (λ acquired s' h.
            >>=-keeps (Reads t j x) (Reads t j x) (finish_hashing redis e acquired) _ s'
              (if-cases (λ (m : Handler (Visit S) (Unit {0})). Reads t j x (m s').1) acquired
                (λ q.
                  on_exception-keeps (Reads t j x) _ (pure tt) (release_hash_slot-Reads s' h)
                    (λ v' h'. h'))
                (λ q. h))
              (λ s'' h'. h') (λ a s'' h'. h'))
