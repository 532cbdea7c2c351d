-- ===== src/Kept/Sweep.antt =====
-- Properties that a sweep of the expired holds keeps.
use event_booking_ticketing.Kept.Confirm.{confirm_booking_and_invoice-Both}
use event_booking_ticketing.Session.{ok, Both, Session}
use event_booking_ticketing.Sweeper.{
  is_candidate, candidate_ids, sweep_all, sweep_caught, released_expired_holds, is_expired,
  sweep_settled, sweep_booking, sweep_payment, sweep_one, settle_late, late_refund_reason,
  late_refund_reply, release_expired, refund_late,
}
use event_booking_ticketing.Payments.Changes.{
  confirm_booking, insert_cancellation, record_cancellation, set_payment_status, release_booking,
}
use event_booking_ticketing.Payments.Confirm.{
  still_fits_capacity, service_of, fits_capacity, can_confirm_late_in_mode,
}
use event_booking_ticketing.Gateway.{cancels_intent, Reply-cases, Stripe}
use event_booking_ticketing.Env.{Env}
use event_booking_ticketing.Kept.Basics.{
  Claimed, fits_capacity-Claim, Claim, found_by_id, SameStock, claim-cases, recorded_once, Ready,
  Step, Stable,
}
use event_booking_ticketing.Model.{
  pays_for, is_pending, has_booking_id, auto_refund_key, canceled, IntentId, slot_capacity, Payment,
  unit_assigned, Services, BookingMode, Booking, Db,
}
use event_booking_ticketing.Common.{
  [], List, none, ◌&&◌, ◌∷◌, Bool-cases, ℕ, false, Option, Option-cases, true, some, refl, first,
  inr, inl, arith, ◌≡◌,
}

module _ {P : Db → Type 0} (stable : Stable P) (e : Env) (stripe : Stripe) where
  can_confirm_late_in_mode-state :
      (mode : BookingMode) (b : Booking) (service : Services) (s : Session)
      → (can_confirm_late_in_mode mode e b service s).1 ≡ s
  unfolding can_confirm_late_in_mode still_fits_capacity
  can_confirm_late_in_mode-state unit_assigned b service s = refl
  can_confirm_late_in_mode-state slot_capacity b service s = ground arith

  can_confirm_late_in_mode-Claim :
      (mode : BookingMode) (b : Booking) (service : Services) (s : Session)
      → (can_confirm_late_in_mode mode e b service s).0 ≡ ok true
      → Claim mode e b service s.db
  unfolding can_confirm_late_in_mode still_fits_capacity fits_capacity
  can_confirm_late_in_mode-Claim unit_assigned b service s h = ground arith
  can_confirm_late_in_mode-Claim slot_capacity b service s h = fits_capacity-Claim e b service s h

  module _ (b : Booking) (db0 : Db) (releases : Step P db0 (release_booking b)) where
    release_expired-Both : (s : Session) → Ready P db0 s → Both P (release_expired b s).1
    unfolding release_expired
    release_expired-Both s h = ground (arith, releases s.db h.0)

    refund_late-Both :
        (p : Payment) (s : Session) → Ready P db0 s → Both P (refund_late stripe b p s).1
    unfolding refund_late late_refund_reply release_expired set_payment_status record_cancellation
        insert_cancellation
    refund_late-Both p s h =
        let pid : IntentId = p.stripe_payment_intent_id in
        let db1 : Db = record_cancellation b.id p.amount late_refund_reason s.db in
        let db2 : Db = set_payment_status canceled p.id db1 in
        elim (Reply-cases (stripe.refund pid p.amount (auto_refund_key pid))) [
          | inl (done, q) ↦
              rw (q, late_refund_reply)
                (ground (
                  arith,
                  recorded_once stable b.id p.amount late_refund_reason s.db,
                  stable.status_set canceled p.id db1,
                  releases db2,
                ))
          | inr (f, q) ↦ rw (q, late_refund_reply) (ground arith)
        ]

    settle_late-Both :
        (p : Payment) (s : Session)
        → Ready P db0 s
        → (Claimed e b s.db → Step P db0 (confirm_booking b))
        → Both P (settle_late e stripe b p s).1
    unfolding settle_late
    settle_late-Both p s h confirms = elim (Option-cases (service_of b s.db)) [
      | inl q ↦ ground arith
      | inr (service, q) ↦
          elim (claim-cases (can_confirm_late_in_mode service.booking_mode e b service s).0) [
            | inl c ↦ ground (
              arith,
              can_confirm_late_in_mode-state service.booking_mode b service s,
              confirm_booking_and_invoice-Both stable e b db0
                  (confirms
                    (service, q, can_confirm_late_in_mode-Claim service.booking_mode b service s c))
                  false p s,
            )
            | inr c ↦ ground (
              arith,
              can_confirm_late_in_mode-state service.booking_mode b service s,
              refund_late-Both p s,
            )
          ]
    ]

  -- What the sweep of one booking needs: the booking is found, PENDING and expired.
  abbrev pub SweepSteps : Session → Type 0
  SweepSteps s =
      (b : Booking)
      → first (has_booking_id b.id) s.db.bookings ≡ some b
      → is_candidate e b ≡ true
      → Step P s.db (release_booking b) × (Claimed e b s.db → Step P s.db (confirm_booking b))

  sweep_payment-Both :
      (b : Booking) (p : Option Payment) (s : Session)
      → Step P s.db (release_booking b) × (Claimed e b s.db → Step P s.db (confirm_booking b))
      → Both P s
      → Both P (sweep_payment e stripe b p s).1
  unfolding sweep_payment sweep_settled set_payment_status
  sweep_payment-Both b none s steps h =
      release_expired-Both b s.db steps.0 s ((refl, refl, refl, refl), h)
  sweep_payment-Both b (some p) s steps h =
      let pid : IntentId = p.stripe_payment_intent_id in
      let asked : Session = record s { sent = cancels_intent pid ∷ s.sent } in
      let db1 : Db = set_payment_status canceled p.id s.db in
      let same : SameStock s.db s.db = (refl, refl, refl, refl) in
      ground (
        arith,
        release_expired-Both b s.db steps.0 s (same, h),
        stable.status_set canceled p.id s.db,
        release_expired-Both b s.db steps.0 (record asked { db = db1 }),
        settle_late-Both b s.db steps.0 p asked (same, record { seen = h.seen; kept = h.kept })
            steps.1,
      )

  sweep_one-Both :
      (k : ℕ) (s : Session) → SweepSteps s → Both P s → Both P (sweep_one e stripe k s).1
  unfolding sweep_one sweep_booking
  sweep_one-Both k s steps h = elim (Option-cases (first (has_booking_id k) s.db.bookings)) [
    | inl q ↦ rw q h
    | inr (b, q) ↦ rw q (elim (Bool-cases (is_pending b.status && is_expired e b)) [
      | inl due ↦ rw due (
          sweep_payment-Both b (first (pays_for b.id) s.db.payments) s
            (steps b (found_by_id k b s.db.bookings q) due) h)
      | inr kept ↦ rw kept h
    ])
  ]

  sweep_caught-Both :
      (k : ℕ) (acc : List ℕ × Session)
      → SweepSteps acc.1
      → Both P acc.1
      → Both P (sweep_caught e stripe k acc).1
  unfolding sweep_caught
  sweep_caught-Both k (affected, s) steps h = ground (arith, sweep_one-Both k s steps h)

  module _ (steps : (s : Session) → P s.db → SweepSteps s) where
    sweep_all-Both :
        (ks : List ℕ) (acc : List ℕ × Session) → Both P acc.1 → Both P (sweep_all e stripe ks acc).1
    unfolding sweep_all
    sweep_all-Both [] acc h = h
    sweep_all-Both (k ∷ ks) acc h =
        sweep_all-Both ks (sweep_caught e stripe k acc)
          (sweep_caught-Both k acc (steps acc.1 h.seen) h)

    pub released_expired_holds-Both :
        (s : Session) → Both P s → Both P (released_expired_holds e stripe s)
    unfolding released_expired_holds
    released_expired_holds-Both s h =
        let kept : Both P (sweep_all e stripe (candidate_ids e s.db) ([], s)).1 =
          sweep_all-Both (candidate_ids e s.db) ([], s) h in
        record { seen = kept.seen; kept = kept.kept }
