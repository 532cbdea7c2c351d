-- ===== src/Cache.antt =====
-- app/core/cache.py: the cache of the responses on events, and its invalidation.
pub mod Coherence
pub mod Reads
pub mod Invalidation
pub mod Changes
pub mod Announced
pub mod Sellers
use event_booking_ticketing.Auth.Sessions.{del_all}
use event_booking_ticketing.Limiter.{holds_token}
use event_booking_ticketing.Auth.Visit.{run, ask, tell, attempt, Visit}
use event_booking_ticketing.Session.{pure, ◌>>◌, ok, ◌>>=◌, Handler}
use event_booking_ticketing.Redis.{
  lock_token, cache_lock, json, services_list, cache, service_detail, service_seats, RedisValue,
  CacheKey, RedisKey, Redis,
}
use event_booking_ticketing.Common.{
  [], is_some, false, take, none, ◌&&◌, true, ◌∷◌, some, if◌then◌else◌, String, List, Bool, Option,
  ℕ,
}

-- `make_service_detail_cache_key` and `make_service_seats_cache_key`
abbrev pub make_service_detail_cache_key : ℕ → CacheKey
make_service_detail_cache_key k = service_detail k

abbrev pub make_service_seats_cache_key : ℕ → CacheKey
make_service_seats_cache_key k = service_seats k

-- The text under a key of the cache, where nothing else is ever stored.
abbrev pub text_of : Option RedisValue → Option String
text_of (some (json text)) = some text
text_of _ = none

-- The patterns `cache:services:list:*` and `cache:services:*`.
abbrev pub is_list_key : RedisKey → Bool
is_list_key (cache (services_list _)) = true
is_list_key _ = false

abbrev pub is_cache_key : RedisKey → Bool
is_cache_key (cache _) = true
is_cache_key _ = false

-- `try: ... finally: ...`, where the second part raises nothing.
abbrev pub always {ℓ} : {S : Type 0} {A : Type ℓ} → Handler S A → (S → S) → Handler S A
always m last s = ((m s).0, last (m s).1)

abbrev pub lock_timeout_seconds : ℕ
lock_timeout_seconds = 5

abbrev pub direct_keys : ℕ → List RedisKey
direct_keys k =
    cache (make_service_detail_cache_key k) ∷ cache (make_service_seats_cache_key k) ∷ []

module _ {S : Type 0} (redis : Redis S) where
  -- It fails open: an error of Redis is a miss.
  unfoldable pub get_cached : ℕ → CacheKey → Handler (Visit S) (Option String)
  get_cached now key = attempt (ask (λ s. text_of (redis.get now (cache key) s))) (pure none)

  unfoldable pub set_cached : ℕ → CacheKey → String → ℕ → Handler (Visit S) Bool
  set_cached now key value ttl =
      attempt (do tell (redis.set now (cache key) (json value) ttl); pure true) (pure false)

  -- `lua_release`
  unfoldable pub release_leader : ℕ → CacheKey → ℕ → Visit S → Visit S
  release_leader now key token v =
      if v.redis_up && holds_token redis token (redis.get now (cache_lock key) v.redis)
      then record v { redis = redis.del (cache_lock key) v.redis }
      else v

  -- The request that has the lock computes the response and stores it. The flag is a hit.
  unfoldable pub compute_as_leader :
      ℕ → CacheKey → Handler (Visit S) String → ℕ → ℕ → Handler (Visit S) (String × Bool)
  compute_as_leader now key compute_func ttl token =
      always (do text ← compute_func; set_cached now key text ttl; pure (text, false))
        (release_leader now key token)

  -- The others look again, at the times and on the states of the server that they find: until there
  -- is a response, or the lock is gone, or the rounds are over.
  unfoldable pub wait_for_leader : CacheKey → List (ℕ × S) → Handler (Visit S) (Option String)
  wait_for_leader key [] v = (ok none, v)
  wait_for_leader key ((t, s) ∷ polls) v =
      let rest = wait_for_leader key polls (record v { redis = s }) in
      if v.redis_up
      then elim (text_of (redis.get t (cache key) s)) [
        | some text ↦ (ok (some text), record v { redis = s })
        | none ↦
            if is_some (redis.get t (cache_lock key) s)
            then rest
            else (ok none, record v { redis = s })
      ]
      else (ok none, record v { redis = s })

  unfoldable pub compute_after_wait :
      Handler (Visit S) String → Option String → Handler (Visit S) (String × Bool)
  compute_after_wait compute_func (some text) = pure (text, true)
  compute_after_wait compute_func none = do text ← compute_func; pure (text, false)

  -- `int(lock_timeout_seconds / wait_interval)` rounds at most.
  unfoldable pub compute_or_wait :
      ℕ
      → CacheKey
      → Handler (Visit S) String
      → ℕ
      → ℕ
      → List (ℕ × S)
      → Bool
      → Handler (Visit S) (String × Bool)
  compute_or_wait now key compute_func ttl token polls true =
      compute_as_leader now key compute_func ttl token
  compute_or_wait now key compute_func ttl token polls false = do
    found ← wait_for_leader key (take 100 polls)
    compute_after_wait compute_func found

  unfoldable pub read_or_compute :
      ℕ
      → CacheKey
      → Handler (Visit S) String
      → ℕ
      → ℕ
      → List (ℕ × S)
      → Option String
      → Handler (Visit S) (String × Bool)
  read_or_compute now key compute_func ttl token polls (some text) = pure (text, true)
  read_or_compute now key compute_func ttl token polls none = do
    is_leader ←
        attempt (run (redis.set_nx now (cache_lock key) (lock_token token) lock_timeout_seconds))
          (pure true)
    compute_or_wait now key compute_func ttl token polls is_leader

  unfoldable pub get_or_compute_cached :
      ℕ
      → CacheKey
      → Handler (Visit S) String
      → ℕ
      → ℕ
      → List (ℕ × S)
      → Handler (Visit S) (String × Bool)
  get_or_compute_cached now key compute_func ttl token polls = do
    cached ← get_cached now key
    read_or_compute now key compute_func ttl token polls cached

  -- The numbers of deleted keys, which only the log reads, are left out.
  unfoldable pub invalidate_pattern : ℕ → (RedisKey → Bool) → Handler (Visit S) (Unit {0})
  invalidate_pattern now pattern_fits =
      attempt (tell (λ s. del_all redis (redis.scan now pattern_fits s) s)) (pure tt)

  unfoldable pub invalidate_services_cache : ℕ → Option ℕ → Handler (Visit S) (Unit {0})
  invalidate_services_cache now none = attempt (invalidate_pattern now is_cache_key) (pure tt)
  invalidate_services_cache now (some k) =
      attempt (do tell (del_all redis (direct_keys k)); invalidate_pattern now is_list_key)
        (pure tt)

  -- The client of its own that the sweeper uses runs the same commands.
  unfoldable pub invalidate_services_cache_sync : ℕ → Option ℕ → Handler (Visit S) (Unit {0})
  invalidate_services_cache_sync now none =
      attempt (tell (λ s. del_all redis (redis.scan now is_cache_key s) s)) (pure tt)
  invalidate_services_cache_sync now (some k) =
      attempt
        (do
          tell (del_all redis (direct_keys k))
          tell (λ s. del_all redis (redis.scan now is_list_key s) s))
        (pure tt)
