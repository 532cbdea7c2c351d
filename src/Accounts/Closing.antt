-- ===== src/Accounts/Closing.antt =====
-- What `delete_user` and `update_user` leave of the sessions and tokens of the account.
use event_booking_ticketing.Accounts.Otp.{update_user_row}
use event_booking_ticketing.Accounts.Reset.{IsCut-refused}
use event_booking_ticketing.Auth.Refresh.{refresh_token, refresh_claims}
use event_booking_ticketing.Auth.Tokens.{get_current_user, minutes_in_seconds, Payload, Jwt}
use event_booking_ticketing.Accounts.Revocation.{revoke_all-IsCut, IsCut}
use event_booking_ticketing.Session.{
  Result-cases, pure, unauthorized, unhandled, err, bind_result, Result, ◌>>◌, Handler, ok,
}
use event_booking_ticketing.Model.{Db, has_user_id, User}
use event_booking_ticketing.Auth.Sessions.{revoke_all_user_sessions}
use event_booking_ticketing.Auth.Visit.{stale, Visit, AuthEnv}
use event_booking_ticketing.Accounts.Profile.{
  update_user, is_confirmed_by, is_phone_changed, updated_user, change_email, is_email_changed,
  UserUpdate, update_found_user, retire_user, has_event_booking, is_active_status, is_booking_of,
  delete_user, delete_found,
}
use event_booking_ticketing.Accounts.Password.{revoke_access_tokens, revoke_all}
use event_booking_ticketing.Redis.{second, Redis}
use event_booking_ticketing.Common.{
  not, ◌||◌, ◌==◌, is_some, if◌then◌else◌, refl, ◌∙◌, ◌+◌, ap, sym, ◌*◌, ◌<◌, ◌&&◌, some, subst,
  first, true, any, Option-cases, Bool, arith, inr, inl, Bool-cases, ◌≤◌, ◌≡◌, String, ℕ,
}

module _ {S : Type 0} (redis : Redis S) where
  revoke_then-IsCut {ℓ} :
      {A : Type ℓ} (e : AuthEnv) (user_id k t : ℕ) (next : Handler (Visit S) A) (a : A)
      (v : Visit S)
      → ((w : Visit S) → (next w).1.redis ≡ w.redis)
      → ((revoke_all redis e user_id >> next) v).0 ≡ ok a
      → e.now ≤ t
      → IsCut redis e user_id k t ((revoke_all redis e user_id >> next) v).1.redis
  revoke_then-IsCut e user_id k t next a v same h later = elim (Bool-cases v.redis_up) [
    | inl up ↦
        let w : Visit S = (revoke_all redis e user_id v).1 in
        let done : revoke_all redis e user_id v ≡ (ok tt, w) =
          unfold revoke_all revoke_all_user_sessions revoke_access_tokens in rw up refl in
        subst
          (λ (x : Result (Unit {0}) × Visit S).
            IsCut redis e user_id k t (bind_result x.0 (λ _. next) x.1).1.redis)
          (sym done)
          (subst (IsCut redis e user_id k t) (sym (same w))
            (revoke_all-IsCut redis e user_id k t v up later))
    | inr down ↦
        let failed : revoke_all redis e user_id v ≡ (err unhandled, v) =
          unfold revoke_all revoke_all_user_sessions in rw down refl in
        absurd (unfold revoke_all in (ground arith))
  ]

  delete_found-IsCut :
      (e : AuthEnv) (label : String) (id : ℕ) (user current_user : User) (k t : ℕ) (v : Visit S)
      → (delete_found redis e label id user current_user v).0 ≡ ok tt
      → e.now ≤ t
      → IsCut redis e id k t (delete_found redis e label id user current_user v).1.redis
  unfolding delete_found
  delete_found-IsCut e label id user current_user k t v h later =
      let active : Bool =
        any (λ b. is_booking_of user.id b && is_active_status b.status) v.db.bookings in
      let sold : Bool =
        has_event_booking (λ b. is_active_status b.status) user.seller_profile v.db in
      let db' : Db = retire_user e label user (any (is_booking_of user.id) v.db.bookings) v.db in
      let v' : Visit S = record v { db = db'; saved = db' } in
      let next : Handler (Visit S) (Unit {0}) =
        if is_some user.seller_profile then stale else pure tt in
      elim (Bool-cases (user.id == current_user.id)) [
        | inr other ↦ absurd (ground arith)
        | inl own ↦ elim (Bool-cases active) [
          | inl q ↦ absurd (ground arith)
          | inr free ↦ elim (Bool-cases sold) [
            | inl q ↦ absurd (ground arith)
            | inr unsold ↦
                let go : delete_found redis e label id user current_user v
                    ≡ (revoke_all redis e id >> next) v' =
                  rw (own, free, unsold) refl in
                subst (λ (x : Result (Unit {0}) × Visit S). IsCut redis e id k t x.1.redis) (sym go)
                  (revoke_then-IsCut e id k t next tt v' (λ w. ground arith)
                    (ap (λ (x : Result (Unit {0}) × Visit S). x.0) (sym go) ∙ h) later)
          ]
        ]
      ]

  delete_user-IsCut :
      (e : AuthEnv) (label : String) (id : ℕ) (current_user : User) (k t : ℕ) (v : Visit S)
      → (delete_user redis e label id current_user v).0 ≡ ok tt
      → e.now ≤ t
      → IsCut redis e id k t (delete_user redis e label id current_user v).1.redis
  unfolding delete_user
  delete_user-IsCut e label id current_user k t v h later =
      elim (Option-cases (first (has_user_id id) v.db.users)) [
        | inl q ↦ absurd (ground arith)
        | inr (user, q) ↦
            let go : delete_user redis e label id current_user v
                ≡ delete_found redis e label id user current_user v =
              rw q refl in
            subst (λ (x : Result (Unit {0}) × Visit S). IsCut redis e id k t x.1.redis) (sym go)
              (delete_found-IsCut e label id user current_user k t v
                (ap (λ (x : Result (Unit {0}) × Visit S). x.0) (sym go) ∙ h) later)
      ]

  update_found_user-IsCut :
      (e : AuthEnv) (u : UserUpdate) (user current_user changed : User) (k t : ℕ) (v : Visit S)
      → (update_found_user redis e u user current_user v).0 ≡ ok changed
      → (is_some u.password || is_email_changed e u user) ≡ true
      → e.now ≤ t
      → IsCut redis e user.id k t (update_found_user redis e u user current_user v).1.redis
  unfolding update_found_user
  update_found_user-IsCut e u user current_user changed k t v h secret later =
      let email_changed : Bool = is_email_changed e u user in
      let mail : Handler (Visit S) (Unit {0}) =
        if email_changed then change_email redis e u user else pure tt in
      let v1 : Visit S = (mail v).1 in
      let db' : Db = update_user_row user.id (updated_user e u email_changed) v1.db in
      let v2 : Visit S = record v1 { db = db'; saved = db' } in
      let next : Handler (Visit S) User = pure (updated_user e u email_changed user) in
      elim (Bool-cases (user.id == current_user.id)) [
        | inr other ↦ absurd (ground arith)
        | inl own ↦ elim (Result-cases (mail v).0) [
          | inr (f, q) ↦ absurd (ground arith)
          | inl (_, q) ↦ elim (Bool-cases (is_phone_changed u.phone_no user v1.db)) [
            | inl taken ↦ absurd (ground arith)
            | inr free ↦
                elim (Bool-cases
                  (is_some u.password && not (is_confirmed_by e u.current_password user))) [
                    | inl unproved ↦ absurd (ground arith)
                    | inr proved ↦
                        let go : update_found_user redis e u user current_user v
                            ≡ (revoke_all redis e user.id >> next) v2 =
                          rw (own, q, free, proved, secret) refl in
                        subst (λ (x : Result User × Visit S). IsCut redis e user.id k t x.1.redis)
                          (sym go)
                          (revoke_then-IsCut e user.id k t next changed v2 (λ w. refl)
                            (ap (λ (x : Result User × Visit S). x.0) (sym go) ∙ h) later)
                  ]
          ]
        ]
      ]

  module _ {T : Type 0} (jwt : Jwt T) where
    -- Who deletes an account ends every session of it and every access token that was issued
    -- before, with a lifetime of at most the setting's: from then on the one is refused by the
    -- guards of the endpoints, and no refresh token of the account is good for another.
    pub delete_user_ends_sessions :
        (e e' : AuthEnv) (label : String) (id : ℕ) (current_user : User) (v v' : Visit S)
        (token cookie : T) (p claims : Payload) (issued exp k : ℕ)
        → (delete_user redis e label id current_user v).0 ≡ ok tt
        → e.now ≤ e'.now
        → v'.redis ≡ (delete_user redis e label id current_user v).1.redis
        → v'.redis_up ≡ true
        → jwt.decode_any e.now token ≡ some p
        → p.sub ≡ some id
        → p.iat ≡ some issued
        → issued < e.now
        → p.exp ≡ some exp
        → exp * second ≤ issued + minutes_in_seconds e.access_token_expire_minutes * second
        → jwt.decode_any e.now cookie ≡ some claims
        → refresh_claims claims ≡ some (id, k)
        → ((get_current_user redis jwt e' token v').0 ≡ err unauthorized)
          × ((refresh_token redis jwt e' (some cookie) v').0 ≡ err unauthorized)
    delete_user_ends_sessions e e' label id current_user v v' token cookie p claims issued exp k h
          later left up text named since before ends lifetime text' owner =
        IsCut-refused redis jwt e e' id v' token cookie p claims issued exp k
          (subst (IsCut redis e id k e'.now) (sym left)
            (delete_user-IsCut e label id current_user k e'.now v h later))
          up text named since before ends lifetime text' owner

    -- Who changes the password or the mailbox of an account ends every session of it and every
    -- access token that was issued before, with a lifetime of at most the setting's: from then on
    -- the one is refused by the guards of the endpoints, and no refresh token of the account is good
    -- for another.
    pub update_user_ends_sessions :
        (e e' : AuthEnv) (u : UserUpdate) (id : ℕ) (user current_user changed : User)
        (v v' : Visit S) (token cookie : T) (p claims : Payload) (issued exp k : ℕ)
        → (update_user redis e id u current_user v).0 ≡ ok changed
        → first (has_user_id id) v.db.users ≡ some user
        → (is_some u.password || is_email_changed e u user) ≡ true
        → e.now ≤ e'.now
        → v'.redis ≡ (update_user redis e id u current_user v).1.redis
        → v'.redis_up ≡ true
        → jwt.decode_any e.now token ≡ some p
        → p.sub ≡ some user.id
        → p.iat ≡ some issued
        → issued < e.now
        → p.exp ≡ some exp
        → exp * second ≤ issued + minutes_in_seconds e.access_token_expire_minutes * second
        → jwt.decode_any e.now cookie ≡ some claims
        → refresh_claims claims ≡ some (user.id, k)
        → ((get_current_user redis jwt e' token v').0 ≡ err unauthorized)
          × ((refresh_token redis jwt e' (some cookie) v').0 ≡ err unauthorized)
    unfolding update_user
    update_user_ends_sessions e e' u id user current_user changed v v' token cookie p claims issued
          exp k h found secret later left up text named since before ends lifetime text' owner =
        let go : update_user redis e id u current_user v
            ≡ update_found_user redis e u user current_user v =
          rw found refl in
        let cut : IsCut redis e user.id k e'.now v'.redis =
          subst (IsCut redis e user.id k e'.now)
            (sym (left ∙ ap (λ (x : Result User × Visit S). x.1.redis) go))
            (update_found_user-IsCut e u user current_user changed k e'.now v
              (ap (λ (x : Result User × Visit S). x.0) (sym go) ∙ h) secret later) in
        IsCut-refused redis jwt e e' user.id v' token cookie p claims issued exp k cut up text named
          since before ends lifetime text' owner
