-- ===== src/Kept/Reconcile.antt =====
-- Properties that `create_payment_intent_for_booking` keeps, with its reconciliation of a payment
-- that exists.
use event_booking_ticketing.Kept.Confirm.{confirm_booking_and_invoice-Both}
use event_booking_ticketing.Kept.Pay.{start_payment-Both}
use event_booking_ticketing.Payments.Changes.{set_payment_status, confirm_booking}
use event_booking_ticketing.Session.{Both, Session}
use event_booking_ticketing.Gateway.{answered, raised, PaymentIntent, Reply, Stripe}
use event_booking_ticketing.Env.{Env}
use event_booking_ticketing.Kept.Basics.{Ready, Step, Stable}
use event_booking_ticketing.Payments.Pay.{
  start_payment, reactivate, retry_failed, reuse_open, reconcile, restart_payment, confirm_paid,
  create_payment_intent_for_booking,
}
use event_booking_ticketing.Model.{
  pays_for, requires_payment_method, is_held, canceled, is_pending, Payment, has_booking_id,
  Booking, User, Db,
}
use event_booking_ticketing.Common.{
  refl, and-right, and-left, ◌&&◌, Bool-cases, inr, inl, Option-cases, none, arith, true, some, ◌≡◌,
  Option, first, ℕ,
}

module _ {P : Db → Type 0} (stable : Stable P) (e : Env) (stripe : Stripe) (b : Booking) (db0 : Db)
    (confirms : Step P db0 (confirm_booking b)) where
  start :
      (old : Option Payment) (s : Session)
      → Ready P db0 s
      → Both P (start_payment e stripe b old s).1
  start = start_payment-Both stable e stripe b db0 confirms

  restart_payment-Both :
      (p : Payment) (s : Session) → Ready P db0 s → Both P (restart_payment e stripe b p s).1
  unfolding restart_payment set_payment_status
  restart_payment-Both p s h =
      let db' : Db = set_payment_status canceled p.id s.db in
      let kept : P db' = stable.status_set canceled p.id s.db h.1.seen in
      start (some (record p { status = canceled })) (record s { db = db'; saved = db' })
        (h.0, record { seen = kept; kept = kept })

  confirm_paid-Both : (p : Payment) (s : Session) → Ready P db0 s → Both P (confirm_paid e b p s).1
  unfolding confirm_paid
  confirm_paid-Both p s h =
      ground (arith, confirm_booking_and_invoice-Both stable e b db0 confirms true p s)

  reuse_open-Both :
      (p : Payment) (r : Reply PaymentIntent) (s : Session)
      → Ready P db0 s
      → Both P (reuse_open e stripe b p r s).1
  unfolding reuse_open
  reuse_open-Both p (raised f) s h = h.1
  reuse_open-Both p (answered intent) s h =
      ground (arith, confirm_paid-Both p s, restart_payment-Both p s, start (some p) s)

  retry_failed-Both :
      (p : Payment) (r : Reply PaymentIntent) (s : Session)
      → Ready P db0 s
      → Both P (retry_failed e stripe b p r s).1
  unfolding retry_failed reactivate
  retry_failed-Both p (raised f) s h = start (some p) s h
  retry_failed-Both p (answered intent) s h = ground (
    arith,
    confirm_paid-Both p s,
    restart_payment-Both p s,
    start (some p) s,
    stable.replaced
        (record p { client_secret = intent.client_secret; status = requires_payment_method }) s.db,
  )

  pub reconcile-Both :
      (old : Option Payment) (s : Session) → Ready P db0 s → Both P (reconcile e stripe b old s).1
  unfolding reconcile
  reconcile-Both none s h = start none s h
  reconcile-Both (some p) s h = ground (
    arith,
    reuse_open-Both p (stripe.retrieve p.stripe_payment_intent_id) s,
    retry_failed-Both p (stripe.retrieve p.stripe_payment_intent_id) s,
    start (some p) s,
  )

-- Only a PENDING booking whose hold has not expired can be confirmed.
pub create_payment_intent_for_booking-Both :
    {P : Db → Type 0} (stable : Stable P) (e : Env) (stripe : Stripe) (k : ℕ) (user : User)
    (s : Session)
    → ((b : Booking)
        → first (has_booking_id k) s.db.bookings ≡ some b
        → is_pending b.status ≡ true
        → is_held e.hold e.now b ≡ true
        → Step P s.db (confirm_booking b))
    → Both P s
    → Both P (create_payment_intent_for_booking e stripe k user s).1
unfolding create_payment_intent_for_booking
create_payment_intent_for_booking-Both stable e stripe k user s confirms h =
    elim (Option-cases (first (has_booking_id k) s.db.bookings)) [
      | inl q ↦ rw q h
      | inr (b, q) ↦ rw q (elim (Bool-cases (is_pending b.status && is_held e.hold e.now b)) [
        | inl live ↦ ground (
          arith,
          reconcile-Both stable e stripe b s.db
              (confirms b q (and-left (is_pending b.status) (is_held e.hold e.now b) live)
                (and-right (is_pending b.status) (is_held e.hold e.now b) live))
              (first (pays_for k) s.db.payments) s ((refl, refl, refl, refl), h),
        )
        | inr dead ↦ ground arith
      ])
    ]
