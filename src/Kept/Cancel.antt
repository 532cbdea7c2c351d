-- ===== src/Kept/Cancel.antt =====
-- Properties that a cancellation by the customer keeps.
use event_booking_ticketing.Env.{Env}
use event_booking_ticketing.Payments.Changes.{release_booking, set_payment_status}
use event_booking_ticketing.Session.{>>=-keeps, Both, Session}
use event_booking_ticketing.Payments.Cancel.{
  reason_text, reverse_booking, conclude_cancellation, cancel_booking_and_refund, refund_reply,
  cancel_reply, reverse_payment, cancel_open_intent, refund_confirmed, refund_paid,
}
use event_booking_ticketing.Gateway.{Reply-cases, Stripe}
use event_booking_ticketing.Kept.Basics.{found_by_id, Step, Ready, Stable}
use event_booking_ticketing.Model.{
  is_cancelled, pays_for, has_booking_id, User, refund_booking_key, canceled, Payment, Booking, Db,
}
use event_booking_ticketing.Common.{
  false, refl, Option-cases, first, String, inr, none, inl, ◌≡◌, some, arith, Option, ℕ,
}

module _ {P : Db → Type 0} (stable : Stable P) (stripe : Stripe) (db0 : Db) where
  refund_paid-state :
      (k : ℕ) (p : Payment) (s : Session)
      → let s' = (refund_paid stripe k p s).1 in (s'.db ≡ s.db) × (s'.saved ≡ s.saved)
  unfolding refund_paid refund_reply
  refund_paid-state k p s =
      elim (Reply-cases
        (stripe.refund p.stripe_payment_intent_id p.amount (refund_booking_key k))) [
          | inl (done, q) ↦ ground arith
          | inr (f, q) ↦ ground arith
        ]

  refund_confirmed-Ready :
      (k : ℕ) (p : Option Payment) (s : Session)
      → Ready P db0 s
      → Ready P db0 (refund_confirmed stripe k p s).1
  unfolding refund_confirmed set_payment_status
  refund_confirmed-Ready k none s h = h
  refund_confirmed-Ready k (some p) s h =
      ground (arith, refund_paid-state k p s, stable.status_set canceled p.id s.db)

  cancel_open_intent-Ready :
      (p : Option Payment) (s : Session)
      → Ready P db0 s
      → Ready P db0 (cancel_open_intent stripe p s).1
  unfolding cancel_open_intent cancel_reply set_payment_status
  cancel_open_intent-Ready none s h = h
  cancel_open_intent-Ready (some p) s h =
      elim (Reply-cases (stripe.cancel p.stripe_payment_intent_id)) [
        | inl (done, q) ↦ ground (arith, stable.status_set canceled p.id s.db)
        | inr (f, q) ↦ ground arith
      ]

  pub reverse_payment-Ready :
      (b : Booking) (p : Option Payment) (s : Session)
      → Ready P db0 s
      → Ready P db0 (reverse_payment stripe b p s).1
  unfolding reverse_payment
  reverse_payment-Ready b p s h =
      ground (arith, refund_confirmed-Ready b.id p s, cancel_open_intent-Ready p s)

  conclude_cancellation-Both :
      (b : Booking) (reason : String) (amount : ℕ) (s : Session)
      → Step P db0 (release_booking b)
      → Ready P db0 s
      → Both P (conclude_cancellation b reason amount s).1
  unfolding conclude_cancellation
  conclude_cancellation-Both b reason amount s releases h = ground (
    arith,
    releases s.db h.0 h.1.seen,
    stable.recorded b.id amount reason (release_booking b s.db),
  )

  pub reverse_booking-Both :
      (b : Booking) (reason : String) (s : Session)
      → Step P db0 (release_booking b)
      → Ready P db0 s
      → Both P (reverse_booking stripe b reason s).1
  unfolding reverse_booking
  reverse_booking-Both b reason s releases h =
      >>=-keeps (Ready P db0) (Both P)
        (reverse_payment stripe b (first (pays_for b.id) s.db.payments)) _ s
        (reverse_payment-Ready b (first (pays_for b.id) s.db.payments) s h) (λ s' h'. h'.1)
        (λ amount s' h'. conclude_cancellation-Both b reason amount s' releases h')

-- The booking that is released is the one that was found, and it was not CANCELLED.
pub cancel_booking_and_refund-Both :
    {P : Db → Type 0} (stable : Stable P) (e : Env) (stripe : Stripe) (k : ℕ)
    (reason : Option String) (user : User) (s : Session)
    → ((b : Booking)
        → first (has_booking_id b.id) s.db.bookings ≡ some b
        → is_cancelled b.status ≡ false
        → Step P s.db (release_booking b))
    → Both P s
    → Both P (cancel_booking_and_refund e stripe k reason user s).1
unfolding cancel_booking_and_refund
cancel_booking_and_refund-Both {P} stable e stripe k reason user s releases h =
    elim (Option-cases (first (has_booking_id k) s.db.bookings)) [
      | inl q ↦ ground arith
      | inr (b, q) ↦
          let reversed : is_cancelled b.status ≡ false
              → Both P (reverse_booking stripe b (reason_text reason) s).1 =
            λ live.
              reverse_booking-Both stable stripe s.db b (reason_text reason) s
                (releases b (found_by_id k b s.db.bookings q) live) ((refl, refl, refl, refl), h) in
          ground (arith, reversed)
    ]
