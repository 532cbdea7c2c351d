-- ===== src/Payments/Repeats.antt =====
-- What a cancellation leaves for a second one.
use event_booking_ticketing.Kept.Cancel.{reverse_payment-Ready}
use event_booking_ticketing.Kept.Basics.{found_by_id, AnyDb-Stable, AnyDb, SameStock}
use event_booking_ticketing.Env.{Env}
use event_booking_ticketing.Gateway.{Stripe}
use event_booking_ticketing.Session.{
  Result, forbidden, bad_request, Result-cases, err, open_session, ok, Session,
}
use event_booking_ticketing.Payments.Changes.{
  insert_cancellation, set_unit_statuses, set_booking_status, release_booking,
}
use event_booking_ticketing.Payments.Cancel.{
  reason_text, reverse_payment, cancel_booking_and_refund, reverse_booking, conclude_cancellation,
}
use event_booking_ticketing.Model.{
  is_cancelled, pays_for, User, Payment, cancelled, has_booking_id, Booking,
}
use event_booking_ticketing.Common.{
  sym, Option-cases, true, subst, refl, inr, ◌∙◌, ◌⊎◌, ap, inl, Option, first-true, ==→eq, [],
  arith, ◌∷◌, update, String, some, first, ◌≡◌, List, ℕ,
}

pub first-update_self :
    (k : ℕ) (f : Booking → Booking) (bs : List Booking) (b : Booking)
    → (f b).id ≡ b.id
    → first (has_booking_id k) bs ≡ some b
    → first (has_booking_id k) (update (has_booking_id b.id) f bs) ≡ some (f b)
first-update_self k f [] b q h = cc
first-update_self k f (x ∷ bs) b q h =
    ground (
      arith,
      first-update_self k f bs b q,
      ==→eq b.id k (first-true (has_booking_id k) (x ∷ bs) b h),
    )

conclude_cancelled :
    (b : Booking) (reason : String) (amount : ℕ) (s : Session) (n : ℕ)
    → first (has_booking_id b.id) s.db.bookings ≡ some b
    → (conclude_cancellation b reason amount s).0 ≡ ok n
    → first (has_booking_id b.id) (conclude_cancellation b reason amount s).1.saved.bookings
      ≡ some (record b { status = cancelled })
unfolding conclude_cancellation release_booking set_booking_status set_unit_statuses
    insert_cancellation
conclude_cancelled b reason amount s n found h =
    ground (arith, first-update_self b.id (λ x. record x { status = cancelled }) s.db.bookings b)

reverse_payment-bookings :
    (stripe : Stripe) (b : Booking) (p : Option Payment) (s : Session)
    → (reverse_payment stripe b p s).1.db.bookings ≡ s.db.bookings
reverse_payment-bookings stripe b p s =
    let same : SameStock s.db s.db = (refl, refl, refl, refl) in
    (reverse_payment-Ready {P = AnyDb} AnyDb-Stable stripe s.db b p s
      (same, record { seen = tt; kept = tt })).0.1

reverse_cancelled :
    (stripe : Stripe) (b : Booking) (reason : String) (s : Session) (n : ℕ)
    → first (has_booking_id b.id) s.db.bookings ≡ some b
    → (reverse_booking stripe b reason s).0 ≡ ok n
    → first (has_booking_id b.id) (reverse_booking stripe b reason s).1.saved.bookings
      ≡ some (record b { status = cancelled })
unfolding reverse_booking
reverse_cancelled stripe b reason s n found h =
    let p : Option Payment = first (pays_for b.id) s.db.payments in
    let same : (reverse_payment stripe b p s).1.db.bookings ≡ s.db.bookings =
      reverse_payment-bookings stripe b p s in
    elim (Result-cases (reverse_payment stripe b p s).0) [
      | inl (amount, q) ↦ ground (
        arith,
        conclude_cancelled b reason amount (reverse_payment stripe b p s).1 n
            (ap (first (has_booking_id b.id)) same ∙ found),
      )
      | inr (f, q) ↦ absurd (ground arith)
    ]

-- A cancellation that succeeds passed the tests, and is then the reversal of the booking.
cancel_found :
    (e : Env) (stripe : Stripe) (k : ℕ) (reason : Option String) (user : User) (s : Session) (n : ℕ)
    → (cancel_booking_and_refund e stripe k reason user s).0 ≡ ok n
    → (b : Booking) × (first (has_booking_id k) s.db.bookings ≡ some b)
      × (cancel_booking_and_refund e stripe k reason user s
          ≡ reverse_booking stripe b (reason_text reason) s)
unfolding cancel_booking_and_refund
cancel_found e stripe k reason user s n h =
    elim (Option-cases (first (has_booking_id k) s.db.bookings)) [
      | inl q ↦ absurd (ground arith)
      | inr (b, q) ↦ (b, q, ground arith)
    ]

cancel_refused :
    (e : Env) (stripe : Stripe) (k : ℕ) (reason : Option String) (user : User) (s : Session)
    (b : Booking)
    → first (has_booking_id k) s.db.bookings ≡ some b
    → is_cancelled b.status ≡ true
    → (cancel_booking_and_refund e stripe k reason user s ≡ (err bad_request, s))
      ⊎ (cancel_booking_and_refund e stripe k reason user s ≡ (err forbidden, s))
unfolding cancel_booking_and_refund
cancel_refused e stripe k reason user s b q dead = ground arith

-- A cancellation that succeeds leaves the booking that was found, otherwise unchanged, CANCELLED in
-- the committed database. Cancelling it again is then refused, with no effect and no request to
-- Stripe, whoever asks, whenever, and whatever Stripe would reply.
pub cancel_twice :
    (e : Env) (stripe : Stripe) (k : ℕ) (reason : Option String) (user : User) (s : Session) (n : ℕ)
    (e' : Env) (stripe' : Stripe) (reason' : Option String) (user' : User)
    → (cancel_booking_and_refund e stripe k reason user s).0 ≡ ok n
    → let s' = open_session (cancel_booking_and_refund e stripe k reason user s).1.saved in
      ((b : Booking) × (first (has_booking_id k) s.db.bookings ≡ some b)
        × (first (has_booking_id k) s'.db.bookings ≡ some (record b { status = cancelled })))
      × ((cancel_booking_and_refund e' stripe' k reason' user' s' ≡ (err bad_request, s'))
          ⊎ (cancel_booking_and_refund e' stripe' k reason' user' s' ≡ (err forbidden, s')))
cancel_twice e stripe k reason user s n e' stripe' reason' user' h =
    let (b, q, same) = cancel_found e stripe k reason user s n h in
    let named : b.id ≡ k = ==→eq b.id k (first-true (has_booking_id k) s.db.bookings b q) in
    let out : first (has_booking_id k)
          (cancel_booking_and_refund e stripe k reason user s).1.saved.bookings
        ≡ some (record b { status = cancelled }) =
      subst
        (λ m.
          first (has_booking_id m)
            (cancel_booking_and_refund e stripe k reason user s).1.saved.bookings
          ≡ some (record b { status = cancelled }))
        named
        (subst
          (λ (r : Result ℕ × Session).
            first (has_booking_id b.id) r.1.saved.bookings ≡ some (record b { status = cancelled }))
          (sym same)
          (reverse_cancelled stripe b (reason_text reason) s n (found_by_id k b s.db.bookings q)
            (ap (λ (r : Result ℕ × Session). r.0) (sym same) ∙ h))) in
    (
      (b, q, out),
      cancel_refused e' stripe' k reason' user'
          (open_session (cancel_booking_and_refund e stripe k reason user s).1.saved)
          (record b { status = cancelled }) out refl,
    )
