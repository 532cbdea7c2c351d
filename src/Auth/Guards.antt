-- ===== src/Auth/Guards.antt =====
-- The guards of the endpoints, and their tests on the user.
use event_booking_ticketing.Auth.Visit.{AuthEnv, Visit}
use event_booking_ticketing.Model.{User}
use event_booking_ticketing.Auth.Tokens.{
  optional_claims, optional_payload, find_user, is_before, claimed_user, Payload, get_current_user,
  get_verified_user, get_optional_current_user, is_blacklisted, optional_user, Jwt,
}
use event_booking_ticketing.Session.{unhandled, err, ok, Result}
use event_booking_ticketing.Redis.{blacklist, user_revoked_at, Redis}
use event_booking_ticketing.Common.{
  ◌∙◌, ap, true, is_some, false, Bool, Bool-cases, ◌⊎◌, inr, refl, inl, Option-cases, none, arith,
  some, ◌≡◌, Option, ℕ,
}

-- What a guest endpoint makes of the answer of a guard: a refusal is a guest, and an exception of
-- Redis stays one.
abbrev pub as_guest : Result User → Result (Option User)
as_guest (ok user) = ok (some user)
as_guest (err unhandled) = err unhandled
as_guest (err f) = ok none

module _ {S T : Type 0} (redis : Redis S) (jwt : Jwt T) where
  is_blacklisted-cases :
      (now : ℕ) (k : Option ℕ) (v : Visit S)
      → (is_blacklisted redis jwt now k v ≡ (err unhandled, v))
        ⊎ ((listed : Bool) × (is_blacklisted redis jwt now k v ≡ (ok listed, v)))
  unfolding is_blacklisted
  is_blacklisted-cases now none v = inr (false, refl)
  is_blacklisted-cases now (some k) v = elim (Bool-cases v.redis_up) [
    | inl up ↦ inr (is_some (redis.get now (blacklist k) v.redis), rw up refl)
    | inr down ↦ inl (rw down refl)
  ]

  pub is_blacklisted-answers :
      (now : ℕ) (k : Option ℕ) (v : Visit S)
      → v.redis_up ≡ true
      → (listed : Bool) × (is_blacklisted redis jwt now k v ≡ (ok listed, v))
  unfolding is_blacklisted
  is_blacklisted-answers now none v up = (false, refl)
  is_blacklisted-answers now (some k) v up =
      (is_some (redis.get now (blacklist k) v.redis), rw up refl)

  optional_user-guest :
      (e : AuthEnv) (token : T) (p : Payload) (user_id : ℕ) (v : Visit S)
      → jwt.decode e.now token ≡ some p
      → claimed_user p ≡ some user_id
      → optional_user redis jwt e p user_id v
        ≡ (as_guest (get_verified_user redis jwt e token v).0, v)
  unfolding optional_user get_verified_user get_current_user
  optional_user-guest e token p user_id v text claimed = elim (is_blacklisted-cases e.now p.jti v) [
    | inl raised ↦ rw (text, claimed, raised) refl
    | inr (true, q) ↦ rw (text, claimed, q) refl
    | inr (false, q) ↦ elim (Bool-cases v.redis_up) [
      | inr down ↦ rw (text, claimed, q, down) refl
      | inl up ↦
          elim (Bool-cases (is_before p.iat (redis.get e.now (user_revoked_at user_id) v.redis))) [
            | inl before ↦ rw (text, claimed, q, up, before) refl
            | inr since ↦ elim (Option-cases (find_user user_id v.saved)) [
              | inl gone ↦ rw (text, claimed, q, up, since, gone) refl
              | inr (user, found) ↦ ground arith
            ]
          ]
    ]
  ]

  -- An endpoint open to guests takes a request with a token as the user that `get_verified_user`
  -- accepts, and as a guest where that refuses; neither has an effect.
  pub get_optional_current_user-guest :
      (e : AuthEnv) (token : T) (v : Visit S)
      → get_optional_current_user redis jwt e (some token) v
        ≡ (as_guest (get_verified_user redis jwt e token v).0, v)
  unfolding get_optional_current_user optional_payload optional_claims get_verified_user
      get_current_user
  get_optional_current_user-guest e token v = elim (Option-cases (jwt.decode e.now token)) [
    | inl q ↦ rw q refl
    | inr (p, q) ↦ elim (Option-cases (claimed_user p)) [
      | inl c ↦ rw (q, c) refl
      | inr (user_id, c) ↦
          ap (λ (o : Option Payload). optional_payload redis jwt e o v) q
          ∙ ap (λ (o : Option ℕ). optional_claims redis jwt e p o v) c
          ∙ optional_user-guest e token p user_id v q c
    ]
  ]
