-- ===== src/Limiter/Exclusion.antt =====
-- One holder of a lock at a time.
use event_booking_ticketing.Limiter.{release, acquire}
use event_booking_ticketing.Redis.{RedisKey, second, lock_token, lock, Redis}
use event_booking_ticketing.Common.{
  true, inr, ap, sym, Option, subst, inl, is_some, arith, ◌∙◌, Bool-cases, ◌≢◌, false, ◌*◌, refl,
  ◌+◌, some, none, [], ◌≡◌, ◌<◌, ◌≤◌, String, ◌∷◌, List, ℕ,
}

abbrev pub AllBefore : ℕ → List ℕ → Type 0
AllBefore deadline [] = Unit
AllBefore deadline (t ∷ ts) = (t < deadline) × AllBefore deadline ts

abbrev pub AllFrom : ℕ → List ℕ → Type 0
AllFrom start [] = Unit
AllFrom start (t ∷ ts) = (start ≤ t) × AllFrom start ts

module _ {S : Type 0} (redis : Redis S) where
  -- The lock is held with a token until a deadline.
  abbrev pub IsHeld : String → ℕ → ℕ → ℕ → S → Type 0
  IsHeld lock_key token start deadline s =
      (t : ℕ) → start ≤ t → t < deadline → redis.get t (lock lock_key) s ≡ some (lock_token token)

  acquire-IsHeld :
      (lock_key : String) (token ex : ℕ) (ts : List ℕ) (s : S) (t u : ℕ)
      → (acquire redis lock_key token ex ts s).0 ≡ some t
      → t ≤ u
      → u < t + ex * second
      → redis.get u (lock lock_key) (acquire redis lock_key token ex ts s).1
        ≡ some (lock_token token)
  unfolding acquire
  acquire-IsHeld lock_key token ex [] s t u h later before = cc
  acquire-IsHeld lock_key token ex (w ∷ ts) s t u h later before =
      let key : RedisKey = lock lock_key in
      let reply = redis.set_nx-set w key (lock_token token) ex s in
      elim (Bool-cases (is_some (redis.get w key s))) [
        | inl held ↦
            let nx : redis.set_nx w key (lock_token token) ex s ≡ (false, s) =
              reply ∙ (rw held refl) in
            let passed : acquire redis lock_key token ex (w ∷ ts) s
                ≡ acquire redis lock_key token ex ts s =
              rw nx refl in
            subst (λ (x : Option ℕ × S). redis.get u key x.1 ≡ some (lock_token token)) (sym passed)
              (acquire-IsHeld lock_key token ex ts s t u
                (ap (λ (x : Option ℕ × S). x.0) (sym passed) ∙ h) later before)
        | inr free ↦
            let s' : S = redis.set w key (lock_token token) ex s in
            let nx : redis.set_nx w key (lock_token token) ex s ≡ (true, s') =
              reply ∙ (rw free refl) in
            let taken : acquire redis lock_key token ex (w ∷ ts) s ≡ (some w, s') = rw nx refl in
            let now : w ≡ t = ground arith in
            subst (λ (x : Option ℕ × S). redis.get u key x.1 ≡ some (lock_token token)) (sym taken)
              (redis.get-set_self w u key (lock_token token) ex s (ground arith) ∙ ground arith)
      ]

  -- While it is held, another token does not take it.
  acquire-refused :
      (lock_key : String) (token other start deadline ex : ℕ) (ts : List ℕ) (s : S)
      → IsHeld lock_key token start deadline s
      → AllFrom start ts
      → AllBefore deadline ts
      → acquire redis lock_key other ex ts s ≡ (none, s)
  unfolding acquire
  acquire-refused lock_key token other start deadline ex [] s held from before = refl
  acquire-refused lock_key token other start deadline ex (t ∷ ts) s held from before =
      let nx : redis.set_nx t (lock lock_key) (lock_token other) ex s ≡ (false, s) =
        redis.set_nx-set t (lock lock_key) (lock_token other) ex s
        ∙ (rw (held t from.0 before.0) refl) in
      rw nx (acquire-refused lock_key token other start deadline ex ts s held from.1 before.1)

  -- Who takes the distributed lock has it for its lifetime: in that time nobody else's attempts
  -- succeed or change anything, and nobody else's release frees it.
  pub lock_exclusive :
      (lock_key : String) (token other ex ex' t now : ℕ) (ts us : List ℕ) (s : S)
      → (acquire redis lock_key token ex ts s).0 ≡ some t
      → other ≢ token
      → AllFrom t us
      → AllBefore (t + ex * second) us
      → t ≤ now
      → now < t + ex * second
      → let s' = (acquire redis lock_key token ex ts s).1 in
        (acquire redis lock_key other ex' us s' ≡ (none, s'))
        × (release redis now lock_key other s' ≡ s')
  unfolding release
  lock_exclusive lock_key token other ex ex' t now ts us s h ne from before later within =
      let held = acquire-IsHeld lock_key token ex ts s t in
      (
        acquire-refused lock_key token other t (t + ex * second) ex' us
            (acquire redis lock_key token ex ts s).1 (λ u later' before'. held u h later' before')
            from before,
        ground (arith, held now h later within),
      )
