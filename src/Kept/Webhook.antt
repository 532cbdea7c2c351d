-- ===== src/Kept/Webhook.antt =====
-- Properties that the webhook keeps.
use event_booking_ticketing.Kept.Confirm.{confirm_booking_and_invoice-Both}
use event_booking_ticketing.Payments.Changes.{confirm_booking, set_payment_status}
use event_booking_ticketing.Session.{ok, Both, Session}
use event_booking_ticketing.Payments.Webhook.{
  other_event, signature_verification_error, payment_intent_failed, value_error,
  payment_intent_succeeded, booking_of, constructed, payment_of_intent, Construction, EventType,
  handle_construction, confirm_found, Event, mark_succeeded, on_failed, handle_event, on_event,
  settle_payment, on_succeeded, stripe_webhook, withdraw_booking, invalidate_found, withdraw_found,
  auto_refund_reply, auto_refund, can_confirm,
}
use event_booking_ticketing.Payments.Confirm.{service_of, fits_capacity, can_confirm_in_mode}
use event_booking_ticketing.Gateway.{Reply-cases, Stripe}
use event_booking_ticketing.Env.{Env}
use event_booking_ticketing.Kept.Basics.{
  Claimed, fits_capacity-Claim, Claim, claim-cases, booking_of-found, Step, Stable,
}
use event_booking_ticketing.Model.{
  is_pending, succeeded, failed, has_booking_id, canceled, auto_refund_key, slot_capacity, Payment,
  unit_assigned, IntentId, Services, BookingMode, Booking, Db,
}
use event_booking_ticketing.Common.{
  subst, true, String, first, refl, none, inr, inl, Option-cases, some, arith, ◌≡◌, Option,
}

module _ {P : Db → Type 0} (stable : Stable P) (e : Env) (stripe : Stripe) where
  can_confirm_in_mode-state :
      (mode : BookingMode) (b : Booking) (service : Services) (s : Session)
      → (can_confirm_in_mode mode e b service s).1 ≡ s
  unfolding can_confirm_in_mode fits_capacity
  can_confirm_in_mode-state unit_assigned b service s = refl
  can_confirm_in_mode-state slot_capacity b service s = ground arith

  pub can_confirm-state : (b : Option Booking) (s : Session) → (can_confirm e b s).1 ≡ s
  unfolding can_confirm
  can_confirm-state none s = refl
  can_confirm-state (some b) s = elim (Option-cases (service_of b s.db)) [
    | inl q ↦ ground arith
    | inr (service, q) ↦ ground (arith, can_confirm_in_mode-state service.booking_mode b service s)
  ]

  can_confirm_in_mode-Claim :
      (mode : BookingMode) (b : Booking) (service : Services) (s : Session)
      → (can_confirm_in_mode mode e b service s).0 ≡ ok true
      → Claim mode e b service s.db
  unfolding can_confirm_in_mode
  can_confirm_in_mode-Claim unit_assigned b service s h = ground arith
  can_confirm_in_mode-Claim slot_capacity b service s h = fits_capacity-Claim e b service s h

  pub can_confirm-Claimed :
      (b : Booking) (s : Session)
      → (can_confirm e (some b) s).0 ≡ ok true
      → (is_pending b.status ≡ true) × Claimed e b s.db
  unfolding can_confirm
  can_confirm-Claimed b s h = elim (Option-cases (service_of b s.db)) [
    | inl q ↦ absurd (ground arith)
    | inr (service, q) ↦ (
      ground arith,
      (service, q, can_confirm_in_mode-Claim service.booking_mode b service s (ground arith)),
    )
  ]

  auto_refund-Both :
      (pid : IntentId) (p : Payment) (b : Option Booking) (s : Session)
      → ((x : Booking) → b ≡ some x → Step P s.db (withdraw_booking p x))
      → Both P s
      → Both P (auto_refund stripe pid p b s).1
  unfolding auto_refund auto_refund_reply withdraw_found invalidate_found set_payment_status
  auto_refund-Both pid p none s withdraws h =
      elim (Reply-cases (stripe.refund pid p.amount (auto_refund_key pid))) [
        | inl (done, q) ↦
            rw (q, auto_refund_reply) (ground (arith, stable.status_set canceled p.id s.db))
        | inr (f, q) ↦ rw (q, auto_refund_reply) (ground arith)
      ]
  auto_refund-Both pid p (some b) s withdraws h =
      elim (Reply-cases (stripe.refund pid p.amount (auto_refund_key pid))) [
        | inl (done, q) ↦
            rw (q, auto_refund_reply)
              (ground (
                arith,
                stable.status_set canceled p.id s.db,
                withdraws b refl (set_payment_status canceled p.id s.db) (refl, refl, refl, refl),
              ))
        | inr (f, q) ↦ rw (q, auto_refund_reply) (ground arith)
      ]

  settle_payment-Both :
      (pid : IntentId) (p : Payment) (b : Option Booking) (s : Session)
      → ((x : Booking) → b ≡ some x → Step P s.db (withdraw_booking p x))
      → ((x : Booking)
          → b ≡ some x
          → (can_confirm e b s).0 ≡ ok true
          → Step P s.db (confirm_booking x))
      → Both P s
      → Both P (settle_payment e stripe pid p b s).1
  unfolding settle_payment confirm_found
  settle_payment-Both pid p none s withdraws confirms h =
      ground (arith, can_confirm-state none s, auto_refund-Both pid p none s withdraws)
  settle_payment-Both pid p (some b) s withdraws confirms h =
      elim (claim-cases (can_confirm e (some b) s).0) [
        | inl q ↦ ground (
          arith,
          can_confirm-state (some b) s,
          confirm_booking_and_invoice-Both stable e b s.db (confirms b refl q) true p s
              (refl, refl, refl, refl),
        )
        | inr q ↦
            ground
              (arith, can_confirm-state (some b) s, auto_refund-Both pid p (some b) s withdraws)
      ]

  on_succeeded-Both :
      (pid : IntentId) (p : Payment) (b : Option Booking) (s : Session)
      → ((x : Booking) → b ≡ some x → Step P s.db (withdraw_booking p x))
      → ((x : Booking)
          → b ≡ some x
          → (can_confirm e b s).0 ≡ ok true
          → Step P s.db (confirm_booking x))
      → Both P s
      → Both P (on_succeeded e stripe pid p b s).1
  unfolding on_succeeded mark_succeeded
  on_succeeded-Both pid p b s withdraws confirms h = ground (
    arith,
    stable.status_set succeeded p.id s.db,
    settle_payment-Both pid p b s withdraws confirms h,
  )

  on_event-Both :
      (type : EventType) (pid : IntentId) (p : Payment) (b : Option Booking) (s : Session)
      → ((x : Booking) → b ≡ some x → Step P s.db (withdraw_booking p x))
      → ((x : Booking)
          → b ≡ some x
          → (can_confirm e b s).0 ≡ ok true
          → Step P s.db (confirm_booking x))
      → Both P s
      → Both P (on_event type e stripe pid p b s).1
  unfolding on_event on_failed
  on_event-Both payment_intent_succeeded pid p b s withdraws confirms h =
      on_succeeded-Both pid p b s withdraws confirms h
  on_event-Both payment_intent_failed pid p b s withdraws confirms h =
      ground (arith, stable.status_set failed p.id s.db)
  on_event-Both other_event pid p b s withdraws confirms h = h

  pub handle_event-Both :
      (event : Event) (s : Session)
      → ((p : Payment) (x : Booking)
          → first (has_booking_id x.id) s.db.bookings ≡ some x
          → Step P s.db (withdraw_booking p x))
      → ((x : Booking)
          → first (has_booking_id x.id) s.db.bookings ≡ some x
          → is_pending x.status ≡ true
          → Claimed e x s.db
          → Step P s.db (confirm_booking x))
      → Both P s
      → Both P (handle_event e stripe event s).1
  unfolding handle_event
  handle_event-Both event s withdraws confirms h =
      elim (Option-cases (payment_of_intent event.object_id s.db)) [
        | inl q ↦ ground arith
        | inr (p, q) ↦ rw q (
            on_event-Both event.type p.stripe_payment_intent_id p (booking_of p s.db) s
              (λ x found. withdraws p x (booking_of-found p x s.db found))
              (λ x found claim.
                let c =
                  can_confirm-Claimed x s
                    (subst (λ o. (can_confirm e o s).0 ≡ ok true) found claim) in
                confirms x (booking_of-found p x s.db found) c.0 c.1)
              h)
      ]

  pub stripe_webhook-Both :
      (construct_event : String → Construction) (signature : Option String) (s : Session)
      → ((p : Payment) (x : Booking)
          → first (has_booking_id x.id) s.db.bookings ≡ some x
          → Step P s.db (withdraw_booking p x))
      → ((x : Booking)
          → first (has_booking_id x.id) s.db.bookings ≡ some x
          → is_pending x.status ≡ true
          → Claimed e x s.db
          → Step P s.db (confirm_booking x))
      → Both P s
      → Both P (stripe_webhook e stripe construct_event signature s).1
  unfolding stripe_webhook handle_construction
  stripe_webhook-Both construct_event none s withdraws confirms h = h
  stripe_webhook-Both construct_event (some signature) s withdraws confirms h =
      construction-Both (construct_event signature)
    where
      construction-Both : (c : Construction) → Both P (handle_construction e stripe c s).1
      construction-Both (constructed event) = handle_event-Both event s withdraws confirms h
      construction-Both value_error = h
      construction-Both signature_verification_error = h
