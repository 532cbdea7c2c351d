-- ===== src/Redis.antt =====
-- app/core/redis.py and the client of Redis: the keys and the values that the program keeps there,
-- and what it relies on of the server, which is a parameter.
use event_booking_ticketing.Common.{
  false, is_some, String-discrete, true, ◌≢◌, ◌*◌, [], ◌⊎◌, ◌+◌, none, ◌≡◌, ◌≤◌, ltb, ◌∷◌,
  if◌then◌else◌, some, Bool, String, List, ℕ, Option,
}
use mathlib.Core.HLevel.{Discrete}
use native.Mathlib.Decide.{ℕ_discrete}

-- The keys of the cache: a search by its digest, an event and its seats by the id.
pub data CacheKey : Type 0 where
  services_list : String → CacheKey
  service_detail service_seats : ℕ → CacheKey

-- The keys, one constructor for each f-string. A session, and what became of a refresh token, go by
-- the id of the user and the `jti` of the token; the lockout goes by the address of the mailbox, and
-- by that and the client's IP. Texts that different constructors print are taken to differ, which
-- they do where a mailbox holds no colon. `cache` are the keys under `cache:services:`, and
-- `cache_lock` are these behind `lock:`.
pub data RedisKey : Type 0 where
  session_key rotated rotated_grace : ℕ → ℕ → RedisKey
  blacklist user_revoked_at : ℕ → RedisKey
  account_locked failed_logins : String → RedisKey
  account_locked_at failed_logins_at : String → String → RedisKey
  otp_failed_attempts reset_pwd_otp reset_otp_failed_attempts : String → RedisKey
  rate_limit rate_limit_email : String → String → RedisKey
  auth_hash hold_sweeper_leader : RedisKey
  lock : String → RedisKey
  cache cache_lock : CacheKey → RedisKey

-- "active", "locked" and "revoked"; a counter; a one-time password; a time; a `jti`; the token of a
-- lock; a response that is cached.
pub data RedisValue : Type 0 where
  active locked revoked : RedisValue
  counter timestamp jti lock_token : ℕ → RedisValue
  otp json : String → RedisValue

CacheKey-discrete : Discrete CacheKey
unfolding ℕ_discrete String-discrete
CacheKey-discrete = hlevel (ℕ_discrete, String-discrete)

unfoldable pub RedisKey-discrete : Discrete RedisKey
unfolding ℕ_discrete String-discrete CacheKey-discrete
RedisKey-discrete = hlevel (ℕ_discrete, String-discrete, CacheKey-discrete)

abbrev pub second : ℕ
second = 1000000

-- What INCR reads: 0 where the key is missing.
abbrev pub count_of : Option RedisValue → ℕ
count_of (some (counter n)) = n
count_of _ = 0

-- A value that is alive until a time.
abbrev pub until : ℕ → ℕ → Option RedisValue → Option RedisValue
until deadline t v = if ltb t deadline then v else none

abbrev pub Listed : RedisKey → List RedisKey → Type 0
Listed k [] = ⊥
Listed k (j ∷ js) = (k ≡ j) ⊎ Listed k js

-- A server with the states `S`. The first argument of a command is the time at which it runs, and
-- lifetimes are in seconds.
pub record Redis (S : Type 0) : Type 0 where
  -- GET
  pub get : ℕ → RedisKey → S → Option RedisValue
  -- SET key value EX seconds
  pub set : ℕ → RedisKey → RedisValue → ℕ → S → S
  -- INCR, whose reply is the new count
  pub incr : ℕ → RedisKey → S → ℕ × S
  -- DECR, whose reply is the new count, or 0 for one that is not positive
  pub decr : ℕ → RedisKey → S → ℕ × S
  -- A TTL below 0: the key has no lifetime
  pub persists : ℕ → RedisKey → S → Bool
  -- EXPIRE
  pub expire : ℕ → RedisKey → ℕ → S → S
  -- DEL
  pub del : RedisKey → S → S
  -- The keys that SCAN finds with a pattern
  pub scan : ℕ → (RedisKey → Bool) → S → List RedisKey
  -- A key that is set can be read until its lifetime is over.
  pub get-set_self :
      (now t : ℕ) (k : RedisKey) (v : RedisValue) (ex : ℕ) (s : S)
      → now ≤ t
      → get t k (set now k v ex s) ≡ until (now + ex * second) t (some v)
  pub get-incr_self :
      (now : ℕ) (k : RedisKey) (s : S)
      → get now k (incr now k s).1 ≡ some (counter (count_of (get now k s) + 1))
  pub incr-count : (now : ℕ) (k : RedisKey) (s : S) → (incr now k s).0 ≡ count_of (get now k s) + 1
  -- INCR keeps the lifetime of a counter: it is gone when the counter would have been.
  pub get-incr_later :
      (now t n : ℕ) (k : RedisKey) (s : S)
      → now ≤ t
      → get t k s ≡ some (counter n)
      → get t k (incr now k s).1 ≡ some (counter (n + 1))
  pub get-expire_self :
      (now t : ℕ) (k : RedisKey) (v : RedisValue) (ex : ℕ) (s : S)
      → now ≤ t
      → get now k s ≡ some v
      → get t k (expire now k ex s) ≡ until (now + ex * second) t (some v)
  pub get-del_self : (t : ℕ) (k : RedisKey) (s : S) → get t k (del k s) ≡ none
  -- A key that is there keeps its lifetime under INCR, and has one after EXPIRE.
  pub persists-incr :
      (now : ℕ) (k : RedisKey) (v : RedisValue) (s : S)
      → get now k s ≡ some v
      → persists now k (incr now k s).1 ≡ persists now k s
  pub persists_later :
      (now t : ℕ) (k : RedisKey) (v : RedisValue) (s : S)
      → now ≤ t
      → get t k s ≡ some v
      → persists t k s ≡ persists now k s
  -- SET with NX and EX: the key is set if it is not there, and the reply tells whether it was set.
  pub set_nx : ℕ → RedisKey → RedisValue → ℕ → S → Bool × S
  pub set_nx-set :
      (now : ℕ) (k : RedisKey) (v : RedisValue) (ex : ℕ) (s : S)
      → set_nx now k v ex s
        ≡ (if is_some (get now k s) then (false, s) else (true, set now k v ex s))
  -- A command changes no other key.
  pub get-set_other :
      (now t : ℕ) (j k : RedisKey) (v : RedisValue) (ex : ℕ) (s : S)
      → j ≢ k
      → get t j (set now k v ex s) ≡ get t j s
  pub get-incr_other :
      (now t : ℕ) (j k : RedisKey) (s : S) → j ≢ k → get t j (incr now k s).1 ≡ get t j s
  pub get-decr_other :
      (now t : ℕ) (j k : RedisKey) (s : S) → j ≢ k → get t j (decr now k s).1 ≡ get t j s
  pub get-expire_other :
      (now t : ℕ) (j k : RedisKey) (ex : ℕ) (s : S)
      → j ≢ k
      → get t j (expire now k ex s) ≡ get t j s
  pub get-del_other : (t : ℕ) (j k : RedisKey) (s : S) → j ≢ k → get t j (del k s) ≡ get t j s
  -- Keys vanish with time, and do not come back.
  pub get_earlier :
      (t t' : ℕ) (k : RedisKey) (v : RedisValue) (s : S)
      → t ≤ t'
      → get t' k s ≡ some v
      → get t k s ≡ some v
  -- SCAN finds only what the pattern fits, and misses no key that is there.
  pub scan-fits :
      (t : ℕ) (p : RedisKey → Bool) (k : RedisKey) (s : S) → Listed k (scan t p s) → p k ≡ true
  pub scan-complete :
      (t : ℕ) (p : RedisKey → Bool) (k : RedisKey) (v : RedisValue) (s : S)
      → p k ≡ true
      → get t k s ≡ some v
      → Listed k (scan t p s)
