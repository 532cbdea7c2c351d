-- ===== src/Sweeper/Leader.antt =====
-- `run_hold_sweeper_loop` of app/core/tasks.py: the rounds of the workers, of which one at a time
-- sweeps.
use event_booking_ticketing.Sweeper.{released_expired_holds}
use event_booking_ticketing.Session.{pure, open_session, ◌>>=◌, ok, Handler}
use event_booking_ticketing.Auth.Visit.{run, attempt, Visit}
use event_booking_ticketing.Gateway.{Stripe}
use event_booking_ticketing.Env.{Env}
use event_booking_ticketing.Redis.{RedisValue, second, lock_token, hold_sweeper_leader, Redis}
use event_booking_ticketing.Common.{
  refl, inr, inl, Bool-cases, false, arith, ap, some, ◌∙◌, ◌*◌, ◌+◌, ◌<◌, if◌then◌else◌, ◌≤◌, none,
  true, ◌≡◌, ℕ,
}

abbrev pub leader_seconds : ℕ
leader_seconds = 50

module _ {S : Type 0} (redis : Redis S) where
  -- The sweep works in a session of its own. The invalidations that end it, which delete keys of the
  -- cache only, are left out here.
  unfoldable pub sweep_saved : Env → Stripe → Handler (Visit S) (Unit {0})
  sweep_saved e stripe v =
      (ok tt, record v { saved = (released_expired_holds e stripe (open_session v.saved)).saved })

  -- A round of a worker. What it raises is logged.
  unfoldable pub sweep_round : Env → Stripe → ℕ → Handler (Visit S) (Unit {0})
  sweep_round e stripe worker_id =
      attempt
        (do
          acquired ←
              run (redis.set_nx e.now hold_sweeper_leader (lock_token worker_id) leader_seconds)
          if acquired then sweep_saved e stripe else pure tt)
        (pure tt)

  -- A round that no worker was leader at starts a lease of 50 seconds: whoever's round it is, no
  -- other round within it sweeps or changes anything.
  pub sweep_round_once :
      (e e' : Env) (stripe stripe' : Stripe) (worker other : ℕ) (v v' : Visit S)
      → v.redis_up ≡ true
      → redis.get e.now hold_sweeper_leader v.redis ≡ none
      → v'.redis ≡ (sweep_round e stripe worker v).1.redis
      → e.now ≤ e'.now
      → e'.now < e.now + leader_seconds * second
      → ((sweep_round e stripe worker v).1.saved
          ≡ (released_expired_holds e stripe (open_session v.saved)).saved)
        × (sweep_round e' stripe' other v' ≡ (ok tt, v'))
  unfolding sweep_round sweep_saved
  sweep_round_once e e' stripe stripe' worker other v v' up free left later within =
      let token : RedisValue = lock_token worker in
      let set : S = redis.set e.now hold_sweeper_leader token leader_seconds v.redis in
      let taken : redis.set_nx e.now hold_sweeper_leader token leader_seconds v.redis
          ≡ (true, set) =
        redis.set_nx-set e.now hold_sweeper_leader token leader_seconds v.redis ∙ (rw free refl) in
      let left' : v'.redis ≡ set = left ∙ (rw (up, taken) refl) in
      let held : redis.get e'.now hold_sweeper_leader v'.redis ≡ some token =
        ap (redis.get e'.now hold_sweeper_leader) left'
        ∙ redis.get-set_self e.now e'.now hold_sweeper_leader token leader_seconds v.redis later
        ∙ ground arith in
      let refused : redis.set_nx e'.now hold_sweeper_leader (lock_token other) leader_seconds
            v'.redis
          ≡ (false, v'.redis) =
        redis.set_nx-set e'.now hold_sweeper_leader (lock_token other) leader_seconds v'.redis
        ∙ (rw held refl) in
      (
        rw (up, taken) refl,
        elim (Bool-cases v'.redis_up) [
          | inl up' ↦ rw (up', refused) refl
          | inr down ↦ rw down refl
        ],
      )
