-- ===== src/Auth/Revoked.antt =====
-- What a logout does to the access token.
use event_booking_ticketing.Auth.Visit.{attempt, ask, on_exception, Visit, AuthEnv}
use event_booking_ticketing.Auth.Logout.{
  revoke_given, logout, revoke_access, session_claims, cleanup_refresh_session, end_session,
}
use event_booking_ticketing.Session.{
  unauthorized, Result-cases, service_unavailable, err, ok, raise, HttpError, Result,
}
use event_booking_ticketing.Auth.Tokens.{
  claimed_user, get_current_user, is_blacklisted, is_token_blacklisted, blacklist_seconds, Payload,
  blacklist_claims, add_blacklist_token, Jwt,
}
use event_booking_ticketing.Redis.{revoked, session_key, until, blacklist, second, Redis}
use event_booking_ticketing.Common.{
  sym, is_some, Bool-cases, ◌∙◌, ap, refl, none, inr, inl, Option-cases, true, arith, ◌⊎◌, some,
  ◌<◌, ◌*◌, ◌≡◌, ◌≤◌, Option, ◌+◌, ℕ,
}

module _ {S T : Type 0} (redis : Redis S) (jwt : Jwt T) where
  -- The end of a session is no matter of the blacklist.
  end_session-other :
      (t k : ℕ) (claims : Option (ℕ × ℕ)) (v : Visit S)
      → redis.get t (blacklist k) (end_session redis jwt claims v).1.redis
        ≡ redis.get t (blacklist k) v.redis
  unfolding end_session
  end_session-other t k none v = refl
  end_session-other t k (some (u, j)) v =
      ground (arith, redis.get-del_other t (blacklist k) (session_key u j) v.redis (λ q. cc))

  on_exception-redis {ℓ} :
      {A : Type ℓ} (r : Result A × Visit S) (f : HttpError) → (on_exception r (raise f)).1 ≡ r.1
  on_exception-redis (ok a, s) f = refl
  on_exception-redis (err g, s) f = ground arith

  cleanup-other :
      (e : AuthEnv) (t k : ℕ) (cookie : Option T) (v : Visit S)
      → redis.get t (blacklist k) (cleanup_refresh_session redis jwt e cookie v).1.redis
        ≡ redis.get t (blacklist k) v.redis
  unfolding cleanup_refresh_session
  cleanup-other e t k none v = refl
  cleanup-other e t k (some token) v = elim (Option-cases (jwt.decode e.now token)) [
    | inl q ↦ rw (q, cleanup_refresh_session)
    | inr (p, q) ↦
        rw (q, cleanup_refresh_session)
          (ap (λ (x : Visit S). redis.get t (blacklist k) x.redis)
              (on_exception-redis (end_session redis jwt (session_claims p) v) service_unavailable)
            ∙ end_session-other t k (session_claims p) v)
  ]

  blacklist_claims-sets :
      (now exp k t : ℕ) (v : Visit S)
      → 0 < exp
      → now ≤ t
      → v.redis_up ≡ true
      → redis.get t (blacklist k) (blacklist_claims redis jwt now (some exp) (some k) v).1.redis
        ≡ until (now + blacklist_seconds now exp * second) t (some revoked)
  unfolding blacklist_claims
  blacklist_claims-sets now exp k t v alive later up = ground (
    arith,
    redis.get-set_self now t (blacklist k) revoked (blacklist_seconds now exp) v.redis later,
  )

  add_blacklist-sets :
      (e : AuthEnv) (token : T) (p : Payload) (k exp t : ℕ) (v : Visit S)
      → jwt.decode e.now token ≡ some p
      → p.jti ≡ some k
      → p.exp ≡ some exp
      → e.now < exp * second
      → e.now ≤ t
      → v.redis_up ≡ true
      → redis.get t (blacklist k) (add_blacklist_token redis jwt e token v).1.redis
        ≡ until (e.now + blacklist_seconds e.now exp * second) t (some revoked)
  unfolding add_blacklist_token
  add_blacklist-sets e token p k exp t v text named ends alive later up =
      rw (text, add_blacklist_token)
        (ap
            (λ (o : Option ℕ).
              redis.get t (blacklist k) (blacklist_claims redis jwt e.now o p.jti v).1.redis)
            ends
          ∙ ap
              (λ (o : Option ℕ).
                redis.get t (blacklist k) (blacklist_claims redis jwt e.now (some exp) o v).1.redis)
              named
          ∙ blacklist_claims-sets e.now exp k t v (omega arith) later up)

  -- Every time but the last second of the token is covered.
  abbrev pub IsCovered : ℕ → ℕ → Type 0
  IsCovered t exp = (t + second ≤ exp * second) ⊎ (exp * second ≤ t)

  blacklist_seconds_enough :
      (now t exp : ℕ)
      → t + second ≤ exp * second
      → now ≤ t
      → t < now + blacklist_seconds now exp * second
  blacklist_seconds_enough now t exp h later = ground arith

  module _ (e : AuthEnv) (token : T) (p : Payload) (k exp t : ℕ)
      (text : jwt.decode e.now token ≡ some p) (named : p.jti ≡ some k) (ends : p.exp ≡ some exp)
      (alive : e.now < exp * second) (later : e.now ≤ t) where
    abbrev IsListed : Visit S → Type 0
    IsListed v =
        redis.get t (blacklist k) v.redis
        ≡ until (e.now + blacklist_seconds e.now exp * second) t (some revoked)

    is_token_blacklisted-eq :
        (v : Visit S)
        → is_token_blacklisted redis jwt e token v
          ≡ ask (λ s. is_some (redis.get e.now (blacklist k) s)) v
    unfolding is_token_blacklisted is_blacklisted
    is_token_blacklisted-eq v =
        rw ((jwt.decode-decode_any e.now token p text).0, is_token_blacklisted)
          (ap (λ (o : Option ℕ). is_blacklisted redis jwt e.now o v) named)

    -- A revocation that succeeds found the token unlisted.
    revoke_access-adds :
        (cookie : Option T) (v : Visit S)
        → (revoke_access redis jwt e token cookie v).0 ≡ ok tt
        → (v.redis_up ≡ true)
          × (revoke_access redis jwt e token cookie v
              ≡ attempt (add_blacklist_token redis jwt e token) (raise service_unavailable) v)
    unfolding revoke_access
    revoke_access-adds cookie v h = elim (Bool-cases v.redis_up) [
      | inr down ↦ absurd (ground (arith, is_token_blacklisted-eq v))
      | inl up ↦ elim (Bool-cases (is_some (redis.get e.now (blacklist k) v.redis))) [
        | inl listed ↦ elim (Result-cases (cleanup_refresh_session redis jwt e cookie v).0) [
          | inl (a, q) ↦ absurd (ground (arith, is_token_blacklisted-eq v))
          | inr (f, q) ↦ absurd (ground (arith, is_token_blacklisted-eq v))
        ]
        | inr fresh ↦ (up, ground (arith, is_token_blacklisted-eq v))
      ]
    ]

    logout-lists :
        (cookie : Option T) (v : Visit S)
        → (logout redis jwt e (some token) cookie v).0 ≡ ok tt
        → IsListed (logout redis jwt e (some token) cookie v).1
    unfolding logout revoke_given
    logout-lists cookie v h =
        let r : Result (Unit {0}) × Visit S = revoke_access redis jwt e token cookie v in
        elim (Result-cases r.0) [
          | inr (f, q) ↦ absurd (ground arith)
          | inl (_, q) ↦
              let (up, same) = revoke_access-adds cookie v q in
              let finished : logout redis jwt e (some token) cookie v
                  ≡ cleanup_refresh_session redis jwt e cookie r.1 =
                ground arith in
              ap (λ (x : Result (Unit {0}) × Visit S). redis.get t (blacklist k) x.1.redis) finished
              ∙ cleanup-other e t k cookie r.1
              ∙ ap (λ (x : Result (Unit {0}) × Visit S). redis.get t (blacklist k) x.1.redis) same
              ∙ ap (λ (x : Visit S). redis.get t (blacklist k) x.redis)
                  (on_exception-redis (add_blacklist_token redis jwt e token v) service_unavailable)
              ∙ add_blacklist-sets e token p k exp t v text named ends alive later up
        ]

  -- A token on the blacklist is refused.
  listed_refused :
      (e : AuthEnv) (token : T) (p : Payload) (k : ℕ) (v : Visit S) (t : ℕ)
      → jwt.decode_any t token ≡ some p
      → p.jti ≡ some k
      → v.redis_up ≡ true
      → redis.get e.now (blacklist k) v.redis ≡ some revoked
      → (get_current_user redis jwt e token v).0 ≡ err unauthorized
  unfolding get_current_user
  listed_refused e token p k v t text named up listed =
      elim (Option-cases (jwt.decode e.now token)) [
        | inl q ↦ rw q
        | inr (p', q) ↦
            let same : p ≡ p' =
              jwt.decode_any-same t e.now token p p' text
                (jwt.decode-decode_any e.now token p' q).0 in
            let found : is_blacklisted redis jwt e.now p'.jti v ≡ (ok true, v) =
              ap (λ (o : Option ℕ). is_blacklisted redis jwt e.now o v)
                (ap (λ (y : Payload). y.jti) (sym same) ∙ named)
              ∙ unfold is_blacklisted in (ground arith) in
            elim (Option-cases (claimed_user p')) [
              | inl none_claimed ↦ ground arith
              | inr (user_id, claimed) ↦ ground arith
            ]
      ]

  pub expired_refused :
      (e : AuthEnv) (token : T) (p : Payload) (exp : ℕ) (v : Visit S) (t : ℕ)
      → jwt.decode_any t token ≡ some p
      → p.exp ≡ some exp
      → exp * second ≤ e.now
      → (get_current_user redis jwt e token v).0 ≡ err unauthorized
  unfolding get_current_user
  expired_refused e token p exp v t text ends over = elim (Option-cases (jwt.decode e.now token)) [
    | inl q ↦ rw q
    | inr (p', q) ↦
        let (text', alive) = jwt.decode-decode_any e.now token p' q in
        let same : p ≡ p' = jwt.decode_any-same t e.now token p p' text text' in
        absurd (ground arith)
  ]

  -- After a logout that succeeds, the access token that it was made with is refused at all later
  -- times but those within a second before it expires, when its entry in Redis may be gone.
  pub logged_out_refused :
      (e e' : AuthEnv) (token : T) (cookie : Option T) (p : Payload) (k exp : ℕ) (v v' : Visit S)
      → (logout redis jwt e (some token) cookie v).0 ≡ ok tt
      → jwt.decode e.now token ≡ some p
      → p.jti ≡ some k
      → p.exp ≡ some exp
      → e.now ≤ e'.now
      → IsCovered e'.now exp
      → v'.redis ≡ (logout redis jwt e (some token) cookie v).1.redis
      → v'.redis_up ≡ true
      → (get_current_user redis jwt e' token v').0 ≡ err unauthorized
  logged_out_refused e e' token cookie p k exp v v' h text named ends later covered left up =
      let (text_any, alive) = jwt.decode-decode_any e.now token p text in
      elim covered [
        | inr over ↦ expired_refused e' token p exp v' e.now text_any ends over
        | inl before ↦
            let kept =
              logout-lists e token p k exp e'.now text named ends (ground arith) later cookie v h in
            listed_refused e' token p k v' e.now text_any named up (
              ap (redis.get e'.now (blacklist k)) left
              ∙ kept
              ∙ ground (arith, blacklist_seconds_enough e.now e'.now exp before later))
      ]
