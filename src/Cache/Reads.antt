-- ===== src/Cache/Reads.antt =====
-- A read through the cache and a read of the database.
use event_booking_ticketing.Limiter.{holds_token}
use event_booking_ticketing.Catalog.Search.{fetch_detail}
use event_booking_ticketing.Cache.Coherence.{
  IsFresh-set_nx, IsFresh-set, IsFresh-del_lock, IsFresh-later, IsFresh, detail_text,
}
use event_booking_ticketing.Auth.Visit.{run, attempt, Visit}
use event_booking_ticketing.Model.{Db}
use event_booking_ticketing.Cache.{
  lock_timeout_seconds, read_or_compute, get_or_compute_cached, get_cached, compute_after_wait,
  compute_or_wait, set_cached, compute_as_leader, release_leader, text_of, wait_for_leader,
}
use event_booking_ticketing.Discovery.{get_service_by_id, fetch_detail_text, Wire}
use event_booking_ticketing.Redis.{
  lock_token, json, CacheKey, cache_lock, cache, service_detail, Redis,
}
use event_booking_ticketing.Session.{pure, ok, not_found, err, Result}
use event_booking_ticketing.Common.{
  sym, subst, false, true, ◌&&◌, arith, refl, ◌∙◌, Option-cases, inl, inr, Bool-cases, is_some, ◌≤◌,
  zero, ◌∷◌, [], none, suc, take, some, List, ◌≡◌, Bool, String, Option, ℕ,
}

-- The response without the flag that tells a hit.
abbrev pub answer : Result (String × Bool) → Result String
answer (ok (text, hit)) = ok text
answer (err f) = err f

-- What the endpoint of one event answers with no cache.
abbrev pub answer_of : Option String → Result String
answer_of none = err not_found
answer_of (some text) = ok text

module _ {S : Type 0} (redis : Redis S) (w : Wire) where
  -- The server as a waiting request finds it, up to a time.
  abbrev pub AllFresh : ℕ → Db → List (ℕ × S) → Type 0
  AllFresh last db [] = Unit
  AllFresh last db ((t, s) ∷ polls) = (t ≤ last) × IsFresh redis w t db s × AllFresh last db polls

  AllFresh-take :
      (n last : ℕ) (db : Db) (polls : List (ℕ × S))
      → AllFresh last db polls
      → AllFresh last db (take n polls)
  AllFresh-take zero last db polls h = tt
  AllFresh-take (suc n) last db [] h = tt
  AllFresh-take (suc n) last db ((t, s) ∷ polls) h = (h.0, h.1, AllFresh-take n last db polls h.2)

  -- The outcome of a read: the answer of the database, and a cache as fresh as before.
  abbrev pub IsRead : ℕ → ℕ → Visit S → Result (String × Bool) × Visit S → Type 0
  IsRead last k v r =
      (answer r.0 ≡ answer_of (detail_text w k v.db))
      × IsFresh redis w last v.db r.1.redis
      × (r.1.saved ≡ v.saved)

  abbrev IsFound : ℕ → ℕ → Visit S → Result (Option String) × Visit S → Type 0
  IsFound last k v r =
      (found : Option String) × (r.0 ≡ ok found)
      × ((x : String) → found ≡ some x → detail_text w k v.db ≡ some x)
      × IsFresh redis w last v.db r.1.redis
      × (r.1.saved ≡ v.saved)
      × (r.1.db ≡ v.db)

  wait-IsFound :
      (last k : ℕ) (polls : List (ℕ × S)) (v : Visit S)
      → AllFresh last v.db polls
      → IsFresh redis w last v.db v.redis
      → IsFound last k v (wait_for_leader redis (service_detail k) polls v)
  unfolding wait_for_leader
  wait-IsFound last k [] v all fresh = (none, refl, λ x h. cc, fresh, refl, refl)
  wait-IsFound last k ((t, s) ∷ polls) v all fresh =
      let fresh' : IsFresh redis w last v.db s = IsFresh-later redis w t last v.db s all.0 all.1 in
      let text : Option String = text_of (redis.get t (cache (service_detail k)) s) in
      let held : Bool = is_some (redis.get t (cache_lock (service_detail k)) s) in
      let rest = wait-IsFound last k polls (record v { redis = s }) all.2 fresh' in
      elim (Bool-cases v.redis_up) [
        | inr down ↦ rw down (none, refl, λ x h. cc, fresh', refl, refl)
        | inl up ↦ elim (Option-cases text) [
          | inr (x, q) ↦ rw (up, q) (some x, refl, λ y h. all.1 k y (q ∙ h), fresh', refl, refl)
          | inl q ↦ elim (Bool-cases held) [
            | inl waiting ↦ rw (up, q, waiting) rest
            | inr gone ↦ rw (up, q, gone) (none, refl, λ x h. cc, fresh', refl, refl)
          ]
        ]
      ]

  -- The computation reads the database, and changes nothing.
  fetch_detail_text_lem :
      (k : ℕ) (v : Visit S) → fetch_detail_text redis w k v ≡ (answer_of (detail_text w k v.db), v)
  unfolding fetch_detail_text detail_text
  fetch_detail_text_lem k v = elim (Option-cases (fetch_detail k v.db)) [
    | inl q ↦ ground arith
    | inr (o, q) ↦ ground arith
  ]

  release_leader-IsFresh :
      (now k token : ℕ) (db : Db) (v : Visit S)
      → IsFresh redis w now db v.redis
      → IsFresh redis w now db (release_leader redis now (service_detail k) token v).redis
        × ((release_leader redis now (service_detail k) token v).saved ≡ v.saved)
  unfolding release_leader
  release_leader-IsFresh now k token db v fresh =
      let key : CacheKey = service_detail k in
      elim (Bool-cases
        (v.redis_up && holds_token redis token (redis.get now (cache_lock key) v.redis))) [
          | inl q ↦ rw q (IsFresh-del_lock redis w now db key v.redis fresh, refl)
          | inr q ↦ rw q (fresh, refl)
        ]

  set_cached-IsFresh :
      (now k ttl : ℕ) (text : String) (v : Visit S)
      → detail_text w k v.db ≡ some text
      → IsFresh redis w now v.db v.redis
      → (b : Bool) × (v' : Visit S) × (set_cached redis now (service_detail k) text ttl v
          ≡ (ok b, v'))
        × IsFresh redis w now v.db v'.redis
        × (v'.saved ≡ v.saved)
        × (v'.db ≡ v.db)
  unfolding set_cached
  set_cached-IsFresh now k ttl text v read fresh = elim (Bool-cases v.redis_up) [
    | inl up ↦
        let s' : S = redis.set now (cache (service_detail k)) (json text) ttl v.redis in
        (
          true,
          record v { redis = s' },
          (rw up refl),
          IsFresh-set redis w now v.db k text ttl v.redis read fresh,
          refl,
          refl,
        )
    | inr down ↦ (false, v, (rw down refl), fresh, refl, refl)
  ]

  pub compute_as_leader-IsRead :
      (now k ttl token : ℕ) (v : Visit S)
      → IsFresh redis w now v.db v.redis
      → IsRead now k v
          (compute_as_leader redis now (service_detail k) (fetch_detail_text redis w k) ttl token v)
  unfolding compute_as_leader
  compute_as_leader-IsRead now k ttl token v fresh = elim (Option-cases (detail_text w k v.db)) [
    | inl q ↦
        let kept = release_leader-IsFresh now k token v.db v fresh in
        rw (fetch_detail_text_lem k v, q) (refl, kept.0, kept.1)
    | inr (x, q) ↦
        let (b, v', done, fresh', saved, db) = set_cached-IsFresh now k ttl x v q fresh in
        let kept = release_leader-IsFresh now k token v.db v' fresh' in
        let go : compute_as_leader redis now (service_detail k) (fetch_detail_text redis w k) ttl
              token v
            ≡ (ok (x, false), release_leader redis now (service_detail k) token v') =
          rw (fetch_detail_text_lem k v, q, done) refl in
        subst (IsRead now k v) (sym go) (rw q (refl, kept.0, kept.1 ∙ saved))
  ]

  compute_or_wait-IsRead :
      (now last k ttl token : ℕ) (polls : List (ℕ × S)) (leader : Bool) (v : Visit S)
      → now ≤ last
      → AllFresh last v.db polls
      → IsFresh redis w now v.db v.redis
      → IsRead last k v (
          compute_or_wait redis now
            (service_detail k)
            (fetch_detail_text redis w k)
            ttl
            token
            polls
            leader
            v)
  unfolding compute_or_wait compute_after_wait
  compute_or_wait-IsRead now last k ttl token polls true v later all fresh =
      let read = compute_as_leader-IsRead now k ttl token v fresh in
      (read.0, IsFresh-later redis w now last v.db _ later read.1, read.2)
  compute_or_wait-IsRead now last k ttl token polls false v later all fresh =
      let m : Result (Option String) × Visit S =
        wait_for_leader redis (service_detail k) (take 100 polls) v in
      let (found, reply, right, fresh', saved, db) =
        wait-IsFound last k (take 100 polls) v (AllFresh-take 100 last v.db polls all)
          (IsFresh-later redis w now last v.db v.redis later fresh) in
      elim (Option-cases found) [
        | inr (x, q) ↦ rw (reply, q, right x q) (refl, fresh', saved)
        | inl q ↦ elim (Option-cases (detail_text w k v.db)) [
          | inl r ↦ rw (reply, q, fetch_detail_text_lem k m.1, db, r) (refl, fresh', saved)
          | inr (x, r) ↦ rw (reply, q, fetch_detail_text_lem k m.1, db, r) (refl, fresh', saved)
        ]
      ]

  get_cached-IsFound :
      (now k : ℕ) (v : Visit S)
      → IsFresh redis w now v.db v.redis
      → (found : Option String) × (get_cached redis now (service_detail k) v ≡ (ok found, v))
        × ((x : String) → found ≡ some x → detail_text w k v.db ≡ some x)
  unfolding get_cached
  get_cached-IsFound now k v fresh = elim (Bool-cases v.redis_up) [
    | inl up ↦ (
      text_of (redis.get now (cache (service_detail k)) v.redis),
      (rw up refl),
      λ x h. fresh k x h,
    )
    | inr down ↦ (none, (rw down refl), λ x h. cc)
  ]

  -- The attempt to take the lock.
  leads-IsFresh :
      (now k token : ℕ) (v : Visit S)
      → IsFresh redis w now v.db v.redis
      → (leader : Bool) × (s' : S) × (attempt
            (run (
              redis.set_nx now
                (cache_lock (service_detail k))
                (lock_token token)
                lock_timeout_seconds))
            (pure true)
            v
          ≡ (ok leader, record v { redis = s' }))
        × IsFresh redis w now v.db s'
  leads-IsFresh now k token v fresh =
      let m : Bool × S =
        redis.set_nx now (cache_lock (service_detail k)) (lock_token token) lock_timeout_seconds
          v.redis in
      elim (Bool-cases v.redis_up) [
        | inl up ↦ (
          m.0,
          m.1,
          (rw up refl),
          IsFresh-set_nx redis w now v.db (service_detail k) token lock_timeout_seconds v.redis
              fresh,
        )
        | inr down ↦ (true, v.redis, (rw down refl), fresh)
      ]

  -- A read of an event through the cache answers what the committed database says of it at that
  -- moment, or that there is no such event: on a hit, as the request that fills the cache, as one
  -- that waits for another to do so, and without Redis. It leaves a fresh cache fresh.
  pub get_service_by_id-IsRead :
      (now last k token : ℕ) (polls : List (ℕ × S)) (v : Visit S)
      → now ≤ last
      → AllFresh last v.db polls
      → IsFresh redis w now v.db v.redis
      → IsRead last k v (get_service_by_id redis w now k token polls v)
  unfolding get_service_by_id get_or_compute_cached read_or_compute
  get_service_by_id-IsRead now last k token polls v later all fresh =
      let (found, reply, right) = get_cached-IsFound now k v fresh in
      elim (Option-cases found) [
        | inr (x, q) ↦
            rw (reply, q, right x q)
              (refl, IsFresh-later redis w now last v.db v.redis later fresh, refl)
        | inl q ↦
            let (leader, s', asked, fresh') = leads-IsFresh now k token v fresh in
            rw (reply, q, asked)
              (compute_or_wait-IsRead now last k w.cache_services_ttl token polls leader
                (record v { redis = s' }) later all fresh')
      ]
