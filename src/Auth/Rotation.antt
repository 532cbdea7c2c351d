-- ===== src/Auth/Rotation.antt =====
-- A refresh token is used up by the refresh that it pays for.
use event_booking_ticketing.Session.{ok, unauthorized, err}
use event_booking_ticketing.Auth.Visit.{Visit, AuthEnv}
use event_booking_ticketing.Auth.Sessions.{revoke_all_user_sessions}
use event_booking_ticketing.Auth.Login.{Grant, open_refresh_session}
use event_booking_ticketing.Auth.Refresh.{
  grace_seconds, refresh_claims, refresh_token, take_session, refuse_stale, rotate,
}
use event_booking_ticketing.Auth.Tokens.{Payload, days_in_seconds, find_user, usable, Jwt}
use event_booking_ticketing.Redis.{rotated_grace, jti, rotated, active, session_key, Redis}
use event_booking_ticketing.Common.{
  ap, is_some, Bool-cases, ◌∙◌, some, inr, inl, arith, Option-cases, none, true, ◌≡◌, ◌≢◌, ℕ,
}

module _ {S T : Type 0} (redis : Redis S) (jwt : Jwt T) where
  -- The writes of a rotation leave the sessions of another `jti` alone.
  rotated-other :
      (e : AuthEnv) (t u k w : ℕ) (s : S)
      → k ≢ e.refresh_jti
      → let week = days_in_seconds e.refresh_token_expire_days in
        redis.get t (session_key u k) (
          redis.set e.now (rotated_grace w k) (jti e.refresh_jti) grace_seconds (
            redis.set e.now
              (rotated w k)
              (jti e.refresh_jti)
              week
              (redis.set e.now (session_key w e.refresh_jti) active week s)))
        ≡ redis.get t (session_key u k) s
  rotated-other e t u k w s fresh =
      redis.get-set_other e.now t (session_key u k) (rotated_grace w k) (jti e.refresh_jti)
        grace_seconds _ (λ q. cc)
      ∙ redis.get-set_other e.now t (session_key u k) (rotated w k) (jti e.refresh_jti) _ _
          (λ q. cc)
      ∙ redis.get-set_other e.now t (session_key u k) (session_key w e.refresh_jti) active _ s
          (λ q. fresh (cc))

  -- Another `jti` has no session, before and after.
  rotate-gone :
      (e : AuthEnv) (t u k w : ℕ) (v : Visit S)
      → k ≢ e.refresh_jti
      → redis.get t (session_key u k) v.redis ≡ none
      → redis.get t (session_key u k) (rotate redis jwt e w k v).1.redis ≡ none
  unfolding rotate open_refresh_session
  rotate-gone e t u k w v fresh gone = elim (Option-cases (usable (find_user w v.db))) [
    | inl q ↦ rw q gone
    | inr (user, q) ↦ elim (Bool-cases v.redis_up) [
      | inl up ↦ rw (q, up) (rotated-other e t u k user.id v.redis fresh ∙ gone)
      | inr down ↦ rw (q, down) gone
    ]
  ]

  refuse_stale-err :
      (e : AuthEnv) (u k : ℕ) (v : Visit S)
      → v.redis_up ≡ true
      → (refuse_stale redis jwt e u k v).0 ≡ err unauthorized
  unfolding refuse_stale revoke_all_user_sessions
  refuse_stale-err e u k v up = ground arith

  take_session-gone :
      (e : AuthEnv) (t u k : ℕ) (v : Visit S)
      → v.redis_up ≡ true
      → redis.get t (session_key u k) (take_session redis jwt e u k v).1.redis ≡ none
  unfolding take_session
  take_session-gone e t u k v up = ground (arith, redis.get-del_self t (session_key u k) v.redis)

  -- Without a session the token is refused.
  pub gone-refused :
      (e : AuthEnv) (token : T) (p : Payload) (u k : ℕ) (v : Visit S)
      → (t : ℕ) → jwt.decode_any t token ≡ some p
      → refresh_claims p ≡ some (u, k)
      → redis.get e.now (session_key u k) v.redis ≡ none
      → v.redis_up ≡ true
      → (refresh_token redis jwt e (some token) v).0 ≡ err unauthorized
  unfolding refresh_token take_session
  gone-refused e token p u k v t text claims gone up =
      elim (Option-cases (jwt.decode e.now token)) [
        | inl q ↦ rw q
        | inr (p', q) ↦
            let same : p ≡ p' =
              jwt.decode_any-same t e.now token p p' text
                (jwt.decode-decode_any e.now token p' q).0 in
            ground (
              arith,
              refuse_stale-err e u k (record v { redis = redis.del (session_key u k) v.redis }),
            )
      ]

  claims-jti : (p : Payload) (u k : ℕ) → refresh_claims p ≡ some (u, k) → p.jti ≡ some k
  claims-jti p u k h = ground arith

  -- A refresh that succeeds had a session of the token to take, and leaves none.
  refreshed :
      (e : AuthEnv) (token : T) (p : Payload) (v : Visit S) (g : Grant T) (t : ℕ)
      → (refresh_token redis jwt e (some token) v).0 ≡ ok g
      → jwt.decode e.now token ≡ some p
      → p.jti ≢ some e.refresh_jti
      → (u : ℕ) × (k : ℕ) × (refresh_claims p ≡ some (u, k))
        × (redis.get t (session_key u k) (refresh_token redis jwt e (some token) v).1.redis ≡ none)
  unfolding refresh_token take_session
  refreshed e token p v g t h text fresh = elim (Option-cases (refresh_claims p)) [
    | inl q ↦ absurd (ground arith)
    | inr ((u, k), q) ↦ elim (Bool-cases v.redis_up) [
      | inr down ↦ absurd (ground arith)
      | inl up ↦
          let v1 : Visit S = record v { redis = redis.del (session_key u k) v.redis } in
          elim (Bool-cases (is_some (redis.get e.now (session_key u k) v.redis))) [
            | inr stale ↦ absurd (ground (arith, refuse_stale-err e u k v1))
            | inl there ↦ (
              u,
              k,
              q,
              ground (
                arith,
                rotate-gone e t u k u v1 (λ same. fresh (claims-jti p u k q ∙ ap some same))
                    (redis.get-del_self t (session_key u k) v.redis),
              ),
            )
          ]
    ]
  ]

  -- A refresh token is good for one refresh: once that has succeeded, the same token is refused,
  -- whoever presents it and whenever, even if its first use is still within the grace window. This
  -- takes the `jti` of the token that was issued in its place to be another.
  pub refresh_once :
      (e e' : AuthEnv) (token : T) (p : Payload) (v v' : Visit S) (g : Grant T)
      → (refresh_token redis jwt e (some token) v).0 ≡ ok g
      → jwt.decode e.now token ≡ some p
      → p.jti ≢ some e.refresh_jti
      → v'.redis ≡ (refresh_token redis jwt e (some token) v).1.redis
      → v'.redis_up ≡ true
      → (refresh_token redis jwt e' (some token) v').0 ≡ err unauthorized
  refresh_once e e' token p v v' g h text fresh left up =
      let (u, k, claims, gone) = refreshed e token p v g e'.now h text fresh in
      gone-refused e' token p u k v' e.now (jwt.decode-decode_any e.now token p text).0 claims
        (ap (redis.get e'.now (session_key u k)) left ∙ gone) up
