-- ===== src/Limiter/Window.antt =====
-- The requests that pass in a window.
use event_booking_ticketing.Limiter.{asked_at, limit_requests, admitted}
use event_booking_ticketing.Session.{too_many_requests, err, is_ok, Result, ok}
use event_booking_ticketing.Auth.Visit.{AuthEnv, Visit}
use event_booking_ticketing.Accounts.Otp.{hit}
use event_booking_ticketing.Redis.{rate_limit, count_of, counter, RedisKey, Redis}
use event_booking_ticketing.Common.{
  inr, inl, ◌-◌, ltb, length, Bool-cases, leb, if◌then◌else◌, String, Bool, refl, sym, subst, arith,
  ap, ◌∙◌, false, some, ◌+◌, [], true, ◌<◌, ◌≡◌, ◌≤◌, ◌∷◌, List, ℕ,
}

abbrev pub AllWithin : ℕ → ℕ → List ℕ → Type 0
AllWithin start deadline [] = Unit
AllWithin start deadline (t ∷ ts) = (start ≤ t) × (t < deadline) × AllWithin t deadline ts

module _ {S : Type 0} (redis : Redis S) where
  -- A counter that stands at a number until a deadline, and has a lifetime.
  pub record IsCounting (k : RedisKey) (n start deadline : ℕ) (v : Visit S) : Type 0 where
    pub reachable : v.redis_up ≡ true
    pub counted : (t : ℕ) → start ≤ t → t < deadline → redis.get t k v.redis ≡ some (counter n)
    pub bounded : (t : ℕ) → start ≤ t → t < deadline → redis.persists t k v.redis ≡ false

  -- A hit counts one more, and starts no new window.
  hit-IsCounting :
      (e : AuthEnv) (k : RedisKey) (n w start deadline : ℕ) (v : Visit S)
      → start ≤ e.now
      → e.now < deadline
      → IsCounting k n start deadline v
      → ((hit redis e k w v).0 ≡ ok (n + 1))
        × IsCounting k (n + 1) e.now deadline (hit redis e k w v).1
  unfolding hit
  hit-IsCounting e k n w start deadline v later before c =
      let s' : S = (redis.incr e.now k v.redis).1 in
      let here : redis.get e.now k v.redis ≡ some (counter n) = c.counted e.now later before in
      let v' : Visit S = record v { redis = s' } in
      let up : v.redis_up ≡ true = c.reachable in
      let kept : redis.persists e.now k s' ≡ false =
        redis.persists-incr e.now k (counter n) v.redis here ∙ c.bounded e.now later before in
      let reply : (redis.incr e.now k v.redis).0 ≡ n + 1 =
        redis.incr-count e.now k v.redis ∙ ap (λ o. count_of o + 1) here in
      let done : hit redis e k w v ≡ (ok (redis.incr e.now k v.redis).0, v') = rw (up, kept) refl in
      let more : (t : ℕ) → e.now ≤ t → t < deadline → redis.get t k s' ≡ some (counter (n + 1)) =
        λ t now_le before'.
          redis.get-incr_later e.now t n k v.redis now_le
            (c.counted t (omega (arith, later, now_le)) before') in
      (
        ap (λ (x : Result ℕ × Visit S). x.0) done ∙ ap ok reply,
        subst (λ (x : Result ℕ × Visit S). IsCounting k (n + 1) e.now deadline x.1) (sym done)
            (record {
              reachable = up;
              counted = more;
              bounded = λ t now_le before'.
                  redis.persists_later e.now t k (counter (n + 1)) s' now_le (more t now_le before')
                  ∙ kept;
            }),
      )

  limit_requests-count :
      (e : AuthEnv) (limit : ℕ) (closed : Bool) (ip path : String) (w n start deadline : ℕ)
      (v : Visit S)
      → start ≤ e.now
      → e.now < deadline
      → IsCounting (rate_limit ip path) n start deadline v
      → (is_ok (limit_requests redis e limit closed ip path w v).0 ≡ leb (n + 1) limit)
        × IsCounting
            (rate_limit ip path)
            (n + 1)
            e.now
            deadline
            (limit_requests redis e limit closed ip path w v).1
  unfolding limit_requests
  limit_requests-count e limit closed ip path w n start deadline v later before c =
      let (reply, more) =
        hit-IsCounting e (rate_limit ip path) n w start deadline v later before c in
      let v1 : Visit S = (hit redis e (rate_limit ip path) w v).1 in
      elim (Bool-cases (ltb limit (n + 1))) [
        | inl over ↦
            let r : limit_requests redis e limit closed ip path w v ≡ (err too_many_requests, v1) =
              rw (reply, over) refl in
            (
              ap (λ (x : Result (Unit {0}) × Visit S). is_ok x.0) r ∙ ground arith,
              subst
                  (λ (x : Result (Unit {0}) × Visit S).
                    IsCounting (rate_limit ip path) (n + 1) e.now deadline x.1)
                  (sym r) more,
            )
        | inr within ↦
            let r : limit_requests redis e limit closed ip path w v ≡ (ok tt, v1) =
              rw (reply, within) refl in
            (
              ap (λ (x : Result (Unit {0}) × Visit S). is_ok x.0) r ∙ ground arith,
              subst
                  (λ (x : Result (Unit {0}) × Visit S).
                    IsCounting (rate_limit ip path) (n + 1) e.now deadline x.1)
                  (sym r) more,
            )
      ]

  -- Of the requests of one address for one path, in the order of their times and before the window
  -- that counts them is over, as many pass as the limit leaves room for beyond those already
  -- counted, and no more.
  pub admitted_within :
      (e : AuthEnv) (limit : ℕ) (closed : Bool) (ip path : String) (w n start deadline : ℕ)
      (ts : List ℕ) (v : Visit S)
      → IsCounting (rate_limit ip path) n start deadline v
      → AllWithin start deadline ts
      → admitted redis e limit closed ip path w ts v
        ≡ (if leb (length ts) (limit - n) then length ts else limit - n)
  unfolding admitted
  admitted_within e limit closed ip path w n start deadline [] v c h = ground arith
  admitted_within e limit closed ip path w n start deadline (t ∷ ts) v c h =
      let (passes, more) =
        limit_requests-count (asked_at t e) limit closed ip path w n start deadline v h.0 h.1 c in
      let v1 : Visit S = (limit_requests redis (asked_at t e) limit closed ip path w v).1 in
      ground (arith, admitted_within e limit closed ip path w (n + 1) t deadline ts v1 more h.2)
