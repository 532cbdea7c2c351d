-- ===== src/Accounts/Reset.antt =====
-- `reset_password`, and the tokens that were issued before.
use event_booking_ticketing.Accounts.Revocation.{IsCut, reset_password-IsCut}
use event_booking_ticketing.Auth.Rotation.{gone-refused}
use event_booking_ticketing.Auth.Revoked.{expired_refused}
use event_booking_ticketing.Auth.Refresh.{refresh_token, refresh_claims}
use event_booking_ticketing.Auth.Guards.{is_blacklisted-answers}
use event_booking_ticketing.Auth.Login.{find_mailbox}
use event_booking_ticketing.Session.{unauthorized, err, ok}
use event_booking_ticketing.Model.{User}
use event_booking_ticketing.Auth.Tokens.{
  claimed_user, is_before, Payload, get_current_user, Jwt, minutes_in_seconds,
}
use event_booking_ticketing.Accounts.Password.{reset_password}
use event_booking_ticketing.Auth.Visit.{Visit, AuthEnv}
use event_booking_ticketing.Redis.{second, timestamp, user_revoked_at, Redis}
use event_booking_ticketing.Common.{
  subst, ltb→le, Option, ◌<◌, Option-cases, ap, sym, ltb, arith, String, Bool-cases, some, refl,
  ◌*◌, inl, ◌∙◌, ◌+◌, ◌≤◌, inr, true, ◌≡◌, ℕ,
}

module _ {S T : Type 0} (redis : Redis S) (jwt : Jwt T) where
  -- A token that was issued before its user's tokens were revoked is refused.
  revoked_refused :
      (e : AuthEnv) (token : T) (p : Payload) (user_id issued revoked_at : ℕ) (v : Visit S) (t : ℕ)
      → jwt.decode_any t token ≡ some p
      → p.sub ≡ some user_id
      → p.iat ≡ some issued
      → issued < revoked_at
      → v.redis_up ≡ true
      → redis.get e.now (user_revoked_at user_id) v.redis ≡ some (timestamp revoked_at)
      → (get_current_user redis jwt e token v).0 ≡ err unauthorized
  unfolding get_current_user
  revoked_refused e token p user_id issued revoked_at v t text named since before up set =
      elim (Option-cases (jwt.decode e.now token)) [
        | inl q ↦ rw q refl
        | inr (p', q) ↦
            let same : p ≡ p' =
              jwt.decode_any-same t e.now token p p' text
                (jwt.decode-decode_any e.now token p' q).0 in
            let stale : is_before p'.iat (some (timestamp revoked_at)) ≡ true =
              ap (λ (y : Payload). is_before y.iat (some (timestamp revoked_at))) (sym same)
              ∙ ap (λ (o : Option ℕ). is_before o (some (timestamp revoked_at))) since
              ∙ ground arith in
            let named' : p'.sub ≡ some user_id = ap (λ (y : Payload). y.sub) (sym same) ∙ named in
            elim (Option-cases (claimed_user p')) [
              | inl c ↦ rw (q, c) refl
              | inr (k, c) ↦
                  let (listed, answer) = is_blacklisted-answers redis jwt e.now p'.jti v up in
                  let whose : user_id ≡ k = ground arith in
                  let stale_k : is_before p'.iat (redis.get e.now (user_revoked_at k) v.redis)
                      ≡ true =
                    ap (λ n. is_before p'.iat (redis.get e.now (user_revoked_at n) v.redis))
                      (sym whose)
                    ∙ ap (is_before p'.iat) set
                    ∙ stale in
                  elim (Bool-cases listed) [
                    | inl yes_listed ↦ rw (q, c, answer, yes_listed) refl
                    | inr not_listed ↦ rw (q, c, answer, not_listed, up, stale_k) refl
                  ]
            ]
      ]

  -- What refuses the tokens of an account whose sessions and access tokens were revoked.
  pub IsCut-refused :
      (e e' : AuthEnv) (user_id : ℕ) (v' : Visit S) (token cookie : T) (p claims : Payload)
      (issued exp k : ℕ)
      → IsCut redis e user_id k e'.now v'.redis
      → v'.redis_up ≡ true
      → jwt.decode_any e.now token ≡ some p
      → p.sub ≡ some user_id
      → p.iat ≡ some issued
      → issued < e.now
      → p.exp ≡ some exp
      → exp * second ≤ issued + minutes_in_seconds e.access_token_expire_minutes * second
      → jwt.decode_any e.now cookie ≡ some claims
      → refresh_claims claims ≡ some (user_id, k)
      → ((get_current_user redis jwt e' token v').0 ≡ err unauthorized)
        × ((refresh_token redis jwt e' (some cookie) v').0 ≡ err unauthorized)
  IsCut-refused e e' user_id v' token cookie p claims issued exp k cut up text named since before
        ends lifetime text' owner =
      (
        elim (Bool-cases
            (ltb e'.now (e.now + minutes_in_seconds e.access_token_expire_minutes * second))) [
              | inl within ↦
                  revoked_refused e' token p user_id issued e.now v' e.now text named since before
                    up (cut.1 ∙ (rw within refl))
              | inr over ↦
                  expired_refused redis jwt e' token p exp v' e.now text ends
                    (omega (arith, lifetime, ltb→le _ _ over))
            ],
        gone-refused redis jwt e' cookie claims user_id k v' e.now text' owner cut.0 up,
      )

  -- A password reset that succeeds ends every session of the account and every access token that
  -- was issued before it, with a lifetime of at most the setting's: from then on the one is refused
  -- by the guards of the endpoints, and no refresh token of the user is good for another.
  pub reset_password_ends_sessions :
      (e e' : AuthEnv) (address code password : String) (user : User) (v v' : Visit S)
      (token cookie : T) (p claims : Payload) (issued exp k : ℕ)
      → (reset_password redis e address code password v).0 ≡ ok tt
      → find_mailbox e (e.clean address) v.db ≡ some user
      → e.now ≤ e'.now
      → v'.redis ≡ (reset_password redis e address code password v).1.redis
      → v'.redis_up ≡ true
      → jwt.decode_any e.now token ≡ some p
      → p.sub ≡ some user.id
      → p.iat ≡ some issued
      → issued < e.now
      → p.exp ≡ some exp
      → exp * second ≤ issued + minutes_in_seconds e.access_token_expire_minutes * second
      → jwt.decode_any e.now cookie ≡ some claims
      → refresh_claims claims ≡ some (user.id, k)
      → ((get_current_user redis jwt e' token v').0 ≡ err unauthorized)
        × ((refresh_token redis jwt e' (some cookie) v').0 ≡ err unauthorized)
  reset_password_ends_sessions e e' address code password user v v' token cookie p claims issued exp
        k h found later left up text named since before ends lifetime text' owner =
      IsCut-refused e e' user.id v' token cookie p claims issued exp k
        (subst (IsCut redis e user.id k e'.now) (sym left)
          (reset_password-IsCut redis e address code password user k e'.now v h found later))
        up text named since before ends lifetime text' owner
