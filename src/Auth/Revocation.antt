-- ===== src/Auth/Revocation.antt =====
-- What `revoke_all_user_sessions`, a rotation and a logout leave in Redis.
use event_booking_ticketing.Auth.Sessions.{del_all}
use event_booking_ticketing.Redis.{RedisKey-discrete, Listed, RedisKey, Redis}
use event_booking_ticketing.Common.{
  inr, ◌∙◌, inl, Option-cases, [], ◌∷◌, true, ◌≤◌, none, List, Bool, ◌≡◌, ℕ,
}

module _ {S : Type 0} (redis : Redis S) where
  get-del_none :
      (t : ℕ) (k j : RedisKey) (s : S)
      → redis.get t k s ≡ none
      → redis.get t k (redis.del j s) ≡ none
  get-del_none t k j s h = elim (RedisKey-discrete k j) [
    | yes p ↦ rw p (redis.get-del_self t j s)
    | no p ↦ redis.get-del_other t k j s p ∙ h
  ]

  pub get-del_all-none :
      (t : ℕ) (k : RedisKey) (ks : List RedisKey) (s : S)
      → redis.get t k s ≡ none
      → redis.get t k (del_all redis ks s) ≡ none
  unfolding del_all
  get-del_all-none t k [] s h = h
  get-del_all-none t k (j ∷ js) s h =
      get-del_all-none t k js (redis.del j s) (get-del_none t k j s h)

  pub get-del_all :
      (t : ℕ) (k : RedisKey) (ks : List RedisKey) (s : S)
      → Listed k ks
      → redis.get t k (del_all redis ks s) ≡ none
  unfolding del_all
  get-del_all t k [] s h = absurd h
  get-del_all t k (j ∷ js) s (inl p) =
      get-del_all-none t k js (redis.del j s) (rw p (redis.get-del_self t j s))
  get-del_all t k (j ∷ js) s (inr h) = get-del_all t k js (redis.del j s) h

  -- A key that SCAN's pattern fits is gone, then and later.
  pub get-del_scanned :
      (now t : ℕ) (p : RedisKey → Bool) (k : RedisKey) (s : S)
      → now ≤ t
      → p k ≡ true
      → redis.get t k (del_all redis (redis.scan now p s) s) ≡ none
  get-del_scanned now t p k s later fits = elim (Option-cases (redis.get t k s)) [
    | inl gone ↦ get-del_all-none t k (redis.scan now p s) s gone
    | inr (v, there) ↦
        get-del_all t k (redis.scan now p s) s
          (redis.scan-complete now p k v s fits (redis.get_earlier now t k v s later there))
  ]
