-- ===== src/Sweeper/Progress.antt =====
-- What a sweep brings about.
use event_booking_ticketing.Session.{Result, Both, Session}
use event_booking_ticketing.Sweeper.{
  is_expired, is_candidate, sweep_booking, sweep_one, sweep_caught, needs_stripe, release_expired,
  sweep_settled, sweep_payment,
}
use event_booking_ticketing.Model.{
  is_pending, has_payment_id, is_available, is_succeeded, Payment, canceled, pays_for,
  has_booking_id, available, set_status, IntentId, InventoryItems, Booking, Db,
}
use event_booking_ticketing.Env.{Env}
use event_booking_ticketing.Payments.Changes.{release_booking, set_payment_status}
use event_booking_ticketing.Gateway.{answered, Stripe}
use event_booking_ticketing.Common.{
  sym, subst, Option, Bool-cases, refl, [], inr, update, arith, inl, some, ◌∷◌, not, none,
  Option-cases, ◌&&◌, ◌⊎◌, mem, true, false, first, Bool, any, ◌≡◌, List, ℕ,
}

-- Stripe cancels every intent that it is asked to cancel.
abbrev pub CancelsAll : Stripe → Type 0
CancelsAll stripe = (pid : IntentId) → stripe.cancel pid ≡ answered tt

abbrev pub is_settled : Option Payment → Bool
is_settled none = false
is_settled (some p) = is_succeeded p.status

-- The payment of a booking has SUCCEEDED.
abbrev pub is_paid : ℕ → Db → Bool
is_paid k db = is_settled (first (pays_for k) db.payments)

-- Every seat of a list is AVAILABLE.
abbrev pub is_taken_of : List ℕ → InventoryItems → Bool
is_taken_of ids i = mem i.id ids && not (is_available i.status)

abbrev pub AreFree : List ℕ → Db → Type 0
AreFree ids db = any (is_taken_of ids) db.items ≡ false

settled-update :
    (k n : ℕ) (ps : List Payment)
    → is_settled (first (pays_for k) ps) ≡ false
    → is_settled
        (first (pays_for k) (update (has_payment_id n) (λ p. record p { status = canceled }) ps))
      ≡ false
settled-update k n [] h = refl
settled-update k n (p ∷ ps) h = ground (arith, settled-update k n ps)

pub is_paid-set_canceled :
    (k n : ℕ) (db : Db)
    → is_paid k db ≡ false
    → is_paid k (set_payment_status canceled n db) ≡ false
unfolding set_payment_status
is_paid-set_canceled k n db = settled-update k n db.payments

pub set_status-free :
    (ids : List ℕ) (items : List InventoryItems)
    → any (is_taken_of ids) (set_status available ids items) ≡ false
set_status-free ids [] = refl
set_status-free ids (i ∷ items) = ground (arith, set_status-free ids items)

pub set_status-kept :
    (ids freed : List ℕ) (items : List InventoryItems)
    → any (is_taken_of ids) items ≡ false
    → any (is_taken_of ids) (set_status available freed items) ≡ false
set_status-kept ids freed [] h = refl
set_status-kept ids freed (i ∷ items) h = ground (arith, set_status-kept ids freed items)

module _ (e : Env) (stripe : Stripe) (cancels : CancelsAll stripe) where
  -- A booking that is due is released, and that is committed, or it is paid and left alone.
  abbrev pub IsSwept : Booking → Session → Session → Type 0
  IsSwept b s s' =
      ((is_paid b.id s.db ≡ true) × (s'.db ≡ s.db) × (s'.saved ≡ s.saved))
      ⊎ ((db1 : Db) × ((db1 ≡ s.db) ⊎ ((n : ℕ) × (db1 ≡ set_payment_status canceled n s.db)))
          × (s'.db ≡ release_booking b db1)
          × (s'.saved ≡ release_booking b db1))

  pub sweep_payment-IsSwept :
      (b : Booking) (s : Session)
      → IsSwept b s (sweep_payment e stripe b (first (pays_for b.id) s.db.payments) s).1
  unfolding sweep_payment sweep_settled release_expired
  sweep_payment-IsSwept b s = elim (Option-cases (first (pays_for b.id) s.db.payments)) [
    | inl q ↦ rw q (inr (s.db, inl refl, refl, refl))
    | inr (p, q) ↦ elim (Bool-cases (needs_stripe p)) [
      | inr a ↦ rw (q, a) (inr (s.db, inl refl, refl, refl))
      | inl a ↦ elim (Bool-cases (is_succeeded p.status)) [
        | inl c ↦ rw (q, a, c) (inl (refl, refl, refl))
        | inr c ↦
            rw (q, a, c, cancels p.stripe_payment_intent_id)
              (inr (set_payment_status canceled p.id s.db, inr (p.id, refl), refl, refl))
      ]
    ]
  ]

  -- A property that the cancelling of a payment and the release of a booking keep.
  abbrev pub KeptBy : (Db → Type 0) → Booking → Type 0
  KeptBy P b =
      ((n : ℕ) (db : Db) → P db → P (set_payment_status canceled n db))
      × ((db : Db) → P db → P (release_booking b db))

  swept-Both :
      (P : Db → Type 0) (b : Booking) (s s' : Session)
      → KeptBy P b
      → IsSwept b s s'
      → Both P s
      → Both P s'
  swept-Both P b s s' kept (inl (paid, db, saved)) h = record {
    seen = subst P (sym db) h.seen;
    kept = subst P (sym saved) h.kept;
  }
  swept-Both P b s s' kept (inr (db1, inl same, db, saved)) h =
      let p : P (release_booking b db1) = kept.1 db1 (subst P (sym same) h.seen) in
      record { seen = subst P (sym db) p; kept = subst P (sym saved) p }
  swept-Both P b s s' kept (inr (db1, inr (n, same), db, saved)) h =
      let p : P (release_booking b db1) = kept.1 db1 (subst P (sym same) (kept.0 n s.db h.seen)) in
      record { seen = subst P (sym db) p; kept = subst P (sym saved) p }

  sweep_one-Both :
      (P : Db → Type 0) (n : ℕ) (s : Session)
      → ((b : Booking)
          → first (has_booking_id n) s.db.bookings ≡ some b
          → is_candidate e b ≡ true
          → KeptBy P b)
      → Both P s
      → Both P (sweep_one e stripe n s).1
  unfolding sweep_one sweep_booking
  sweep_one-Both P n s kept h = elim (Option-cases (first (has_booking_id n) s.db.bookings)) [
    | inl q ↦ rw q h
    | inr (b, q) ↦ elim (Bool-cases (is_pending b.status && is_expired e b)) [
      | inr fresh ↦ rw (q, fresh) h
      | inl due ↦
          let m : Result (Option ℕ) × Session =
            sweep_payment e stripe b (first (pays_for b.id) s.db.payments) s in
          rw (q, due) (swept-Both P b s m.1 (kept b q due) (sweep_payment-IsSwept b s) h)
    ]
  ]

  -- The step of the sweep for one id.
  pub sweep_caught-Both :
      (P : Db → Type 0) (n : ℕ) (affected : List ℕ) (s : Session)
      → ((b : Booking)
          → first (has_booking_id n) s.db.bookings ≡ some b
          → is_candidate e b ≡ true
          → KeptBy P b)
      → Both P s
      → Both P (sweep_caught e stripe n (affected, s)).1
  unfolding sweep_caught
  sweep_caught-Both P n affected s kept h = ground (arith, sweep_one-Both P n s kept h)
