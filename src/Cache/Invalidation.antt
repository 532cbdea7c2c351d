-- ===== src/Cache/Invalidation.antt =====
-- What an invalidation leaves in the cache.
use event_booking_ticketing.Auth.Revocation.{get-del_all, get-del_scanned}
use event_booking_ticketing.Cache.Coherence.{text_of-json, detail_text, IsFresh}
use event_booking_ticketing.Auth.Visit.{Visit}
use event_booking_ticketing.Model.{Db}
use event_booking_ticketing.Discovery.{Wire}
use event_booking_ticketing.Auth.Sessions.{del_all}
use event_booking_ticketing.Cache.{
  text_of, is_list_key, is_cache_key, direct_keys, invalidate_pattern, invalidate_services_cache,
  invalidate_services_cache_sync,
}
use event_booking_ticketing.Redis.{
  json, service_detail, cache, RedisKey-discrete, RedisValue, RedisKey, Redis,
}
use event_booking_ticketing.Common.{
  ==→eq, ap, ◌==◌, arith, refl, inr, ◌≢◌, inl, Bool-cases, true, Option, [], ◌∙◌, sym, none, ◌∷◌,
  some, ◌≡◌, List, ℕ,
}

module _ {S : Type 0} (redis : Redis S) where
  -- The invalidation of the sweeper, with a client of its own, does what the other one does, whether
  -- or not Redis can be reached.
  pub invalidate_services_cache_sync-same :
      (now : ℕ) (service_id : Option ℕ) (v : Visit S)
      → invalidate_services_cache_sync redis now service_id v
        ≡ invalidate_services_cache redis now service_id v
  unfolding invalidate_services_cache_sync invalidate_services_cache invalidate_pattern
  invalidate_services_cache_sync-same now none v = elim (Bool-cases v.redis_up) [
    | inl up ↦ rw up refl
    | inr down ↦ rw down refl
  ]
  invalidate_services_cache_sync-same now (some k) v = elim (Bool-cases v.redis_up) [
    | inl up ↦ rw up refl
    | inr down ↦ rw down refl
  ]

  -- What is there after some deletions was there before.
  get-del_all-some :
      (t : ℕ) (k : RedisKey) (v : RedisValue) (ks : List RedisKey) (s : S)
      → redis.get t k (del_all redis ks s) ≡ some v
      → redis.get t k s ≡ some v
  unfolding del_all
  get-del_all-some t k v [] s h = h
  get-del_all-some t k v (j ∷ ks) s h =
      let before : redis.get t k (redis.del j s) ≡ some v =
        get-del_all-some t k v ks (redis.del j s) h in
      elim (RedisKey-discrete k j) [
        | yes p ↦
            let gone : redis.get t k (redis.del j s) ≡ none = rw p (redis.get-del_self t j s) in cc
        | no p ↦ sym (redis.get-del_other t k j s p) ∙ before
      ]

  module _ (w : Wire) where
    -- A change of one event, and the invalidation that follows it, leave the cache fresh.
    pub IsFresh-invalidated :
        (now k : ℕ) (db : Db) (v : Visit S)
        → v.redis_up ≡ true
        → ((j : ℕ) → j ≢ k → detail_text w j v.saved ≡ detail_text w j db)
        → IsFresh redis w now db v.redis
        → IsFresh redis w now v.saved (invalidate_services_cache redis now (some k) v).1.redis
    unfolding invalidate_services_cache invalidate_pattern del_all
    IsFresh-invalidated now k db v up same fresh j x =
        let s1 : S = del_all redis (direct_keys k) v.redis in
        let s2 : S = del_all redis (redis.scan now is_list_key s1) s1 in
        rw up λ h.
          let held : redis.get now (cache (service_detail j)) s1 ≡ some (json x) =
            get-del_all-some now (cache (service_detail j)) (json x) (redis.scan now is_list_key s1)
              s1 (text_of-json _ x h) in
          elim (Bool-cases (j == k)) [
            | inl q ↦
                let gone : redis.get now (cache (service_detail j)) s1 ≡ none =
                  get-del_all redis now (cache (service_detail j)) (direct_keys k) v.redis
                    (inl (ap (λ i. cache (service_detail i)) (==→eq j k q))) in
                cc
            | inr q ↦
                same j (λ e. ground arith)
                ∙ fresh j x (
                    ap text_of (
                      get-del_all-some now (cache (service_detail j)) (json x) (direct_keys k)
                        v.redis held))
          ]

    -- The invalidation of the whole cache leaves it fresh, whatever was changed.
    pub IsFresh-emptied :
        (now : ℕ) (v : Visit S)
        → v.redis_up ≡ true
        → IsFresh redis w now v.saved (invalidate_services_cache redis now none v).1.redis
    unfolding invalidate_services_cache invalidate_pattern
    IsFresh-emptied now v up j x = rw up λ h.
        let gone =
          get-del_scanned redis now now is_cache_key (cache (service_detail j)) v.redis
            (omega arith) refl in
        let there = text_of-json _ x h in cc
