-- ===== src/Cache/Coherence.antt =====
-- The cached details of the events, and the database that they were read from.
use event_booking_ticketing.Cache.{text_of}
use event_booking_ticketing.Catalog.Search.{ServiceOut, fetch_detail}
use event_booking_ticketing.Model.{Db}
use event_booking_ticketing.Redis.{
  revoked, second, locked, active, until, otp, jti, timestamp, counter, lock_token, json,
  service_detail, cache_lock, cache, CacheKey, RedisValue, Redis,
}
use event_booking_ticketing.Discovery.{Wire}
use event_booking_ticketing.Common.{
  subst, ◌*◌, ◌+◌, refl, inr, ==→eq, inl, ◌==◌, is_some, arith, Bool-cases, ◌∙◌, sym, some, none,
  ◌≡◌, ap, ◌≤◌, String, Option, ℕ,
}

pub text_of-json : (o : Option RedisValue) (x : String) → text_of o ≡ some x → o ≡ some (json x)
text_of-json (some (json y)) x h = ground arith
text_of-json none x h = cc
text_of-json (some active) x h = cc
text_of-json (some locked) x h = cc
text_of-json (some revoked) x h = cc
text_of-json (some (counter n)) x h = cc
text_of-json (some (timestamp n)) x h = cc
text_of-json (some (jti n)) x h = cc
text_of-json (some (lock_token n)) x h = cc
text_of-json (some (otp y)) x h = cc

abbrev pub dumped : Wire → Option ServiceOut → Option String
dumped w none = none
dumped w (some o) = some (w.dump_service o)

-- The response on an event, from the database alone.
unfoldable pub detail_text : Wire → ℕ → Db → Option String
detail_text w k db = dumped w (fetch_detail k db)

module _ {S : Type 0} (redis : Redis S) (w : Wire) where
  -- What the cache holds of an event is what the database says of it.
  abbrev pub IsFresh : ℕ → Db → S → Type 0
  IsFresh t db s =
      (k : ℕ) (x : String)
      → text_of (redis.get t (cache (service_detail k)) s) ≡ some x
      → detail_text w k db ≡ some x

  pub IsFresh-later : (t t' : ℕ) (db : Db) (s : S) → t ≤ t' → IsFresh t db s → IsFresh t' db s
  IsFresh-later t t' db s later fresh k x h = fresh k x (
      ap text_of
        (redis.get_earlier t t' (cache (service_detail k)) (json x) s later (text_of-json _ x h)))

  -- A command on another kind of key.
  IsFresh-same :
      (t : ℕ) (db : Db) (s s' : S)
      → ((k : ℕ)
          → redis.get t (cache (service_detail k)) s' ≡ redis.get t (cache (service_detail k)) s)
      → IsFresh t db s
      → IsFresh t db s'
  IsFresh-same t db s s' same fresh k x h = fresh k x (ap text_of (sym (same k)) ∙ h)

  pub IsFresh-set_nx :
      (now : ℕ) (db : Db) (key : CacheKey) (token ex : ℕ) (s : S)
      → IsFresh now db s
      → IsFresh now db (redis.set_nx now (cache_lock key) (lock_token token) ex s).1
  IsFresh-set_nx now db key token ex s fresh =
      let set : S = redis.set now (cache_lock key) (lock_token token) ex s in
      IsFresh-same now db s (redis.set_nx now (cache_lock key) (lock_token token) ex s).1
        (λ k. elim (Bool-cases (is_some (redis.get now (cache_lock key) s))) [
          | inl held ↦ rw (redis.set_nx-set now (cache_lock key) (lock_token token) ex s, held) refl
          | inr free ↦
              rw (redis.set_nx-set now (cache_lock key) (lock_token token) ex s, free)
                (redis.get-set_other now now (cache (service_detail k)) (cache_lock key)
                  (lock_token token) ex s (λ q. cc))
        ])
        fresh

  pub IsFresh-del_lock :
      (t : ℕ) (db : Db) (key : CacheKey) (s : S)
      → IsFresh t db s
      → IsFresh t db (redis.del (cache_lock key) s)
  IsFresh-del_lock t db key s =
      IsFresh-same t db s (redis.del (cache_lock key) s)
        (λ k. redis.get-del_other t (cache (service_detail k)) (cache_lock key) s (λ q. cc))

  -- The response of the database, stored.
  pub IsFresh-set :
      (now : ℕ) (db : Db) (k : ℕ) (text : String) (ttl : ℕ) (s : S)
      → detail_text w k db ≡ some text
      → IsFresh now db s
      → IsFresh now db (redis.set now (cache (service_detail k)) (json text) ttl s)
  IsFresh-set now db k text ttl s read fresh j x h = elim (Bool-cases (j == k)) [
    | inl same ↦
        let e : j ≡ k = ==→eq j k same in
        let stored : text_of (until (now + ttl * second) now (some (json text))) ≡ some x =
          ap text_of (
            sym (
              redis.get-set_self now now (cache (service_detail k)) (json text) ttl s
                (omega arith)))
          ∙ subst
              (λ i.
                text_of (
                  redis.get now (cache (service_detail i))
                    (redis.set now (cache (service_detail k)) (json text) ttl s))
                ≡ some x)
              e h in
        subst (λ i. detail_text w i db ≡ some x) (sym e) (read ∙ ground arith)
    | inr other ↦ fresh j x (
        ap text_of (
          sym (
            redis.get-set_other now now (cache (service_detail j)) (cache (service_detail k))
              (json text) ttl s (λ q. ground arith)))
        ∙ h)
  ]
