-- ===== src/Payments/Cancel.antt =====
-- `cancel_booking_and_refund` of app/routers/payments.py.
use event_booking_ticketing.Payments.Changes.{
  insert_cancellation, is_cancellation_recorded, release_booking, set_payment_status,
}
use event_booking_ticketing.Payments.Confirm.{is_reachable, service_of, is_text}
use event_booking_ticketing.Session.{
  send_cancellation_email, invalidate_services_cache, add_task, commit, bad_request, forbidden,
  not_found, internal_server_error, send, raise_if, bad_gateway, or_raise, unhandled, raise, query,
  modify, ◌>>◌, pure, ◌>>=◌, Action,
}
use event_booking_ticketing.Env.{Env}
use event_booking_ticketing.Gateway.{
  refunds_intent, cancels_intent, other_exception, raised, answered, Reply, Stripe,
}
use event_booking_ticketing.Model.{
  pays_for, is_cancelled, is_admin, refund_booking_key, canceled, has_booking_id, is_free,
  is_canceled, is_blank, is_succeeded, is_confirmed, Booking, User, Services, Payment,
}
use event_booking_ticketing.Common.{
  ◌==◌, ◌||◌, first, none, ◌&&◌, leb, not, false, ltb, Bool, if◌then◌else◌, some, String, Option, ℕ,
}

-- `booking.service and booking.service.start_time`, and the event has started.
abbrev has_started : Env → Option Services → Bool
has_started e none = false
has_started e (some service) = leb service.start_time e.now

unfoldable pub refund_reply : Reply (Unit {0}) → Action (Unit {0})
refund_reply (answered _) = pure tt
refund_reply (raised other_exception) = raise unhandled
refund_reply (raised _) = raise bad_gateway

-- The request to Stripe, where there is money to return.
unfoldable pub refund_paid : Stripe → ℕ → Payment → Action (Unit {0})
refund_paid stripe booking_id p =
    if ltb 0 p.amount && not (is_free p.stripe_payment_intent_id)
    then (do
      raise_if (is_blank p.stripe_payment_intent_id) internal_server_error
      let key = refund_booking_key booking_id
      send (refunds_intent p.stripe_payment_intent_id p.amount key)
      refund_reply (stripe.refund p.stripe_payment_intent_id p.amount key))
    else pure tt

-- The refund of a CONFIRMED booking, with the amount that it returns.
unfoldable pub refund_confirmed : Stripe → ℕ → Option Payment → Action ℕ
refund_confirmed stripe booking_id none = pure 0
refund_confirmed stripe booking_id (some p) =
    if is_succeeded p.status
    then (do
      refund_paid stripe booking_id p
      modify (set_payment_status canceled p.id)
      pure p.amount)
    else pure 0

-- What Stripe does not cancel is left as it is.
unfoldable pub cancel_reply : Payment → Reply (Unit {0}) → Action (Unit {0})
cancel_reply p (answered _) = modify (set_payment_status canceled p.id)
cancel_reply p (raised _) = pure tt

-- The open intent of a booking that is not CONFIRMED is cancelled.
unfoldable pub cancel_open_intent : Stripe → Option Payment → Action (Unit {0})
cancel_open_intent stripe none = pure tt
cancel_open_intent stripe (some p) =
    if not (is_blank p.stripe_payment_intent_id)
      && (not (is_canceled p.status || is_succeeded p.status)
          && not (is_free p.stripe_payment_intent_id))
    then (do
      send (cancels_intent p.stripe_payment_intent_id)
      cancel_reply p (stripe.cancel p.stripe_payment_intent_id))
    else pure tt

unfoldable pub reverse_payment : Stripe → Booking → Option Payment → Action ℕ
reverse_payment stripe b p =
    if is_confirmed b.status
    then refund_confirmed stripe b.id p
    else cancel_open_intent stripe p >> pure 0

abbrev pub reason_text : Option String → String
reason_text none = "Cancelled by customer"
reason_text (some reason) = if is_text reason then reason else "Cancelled by customer"

-- Steps 6 and 7. A second cancellation of a booking breaks a unique key of the table.
unfoldable pub conclude_cancellation : Booking → String → ℕ → Action ℕ
conclude_cancellation b reason refund_amount = do
  modify (release_booking b)
  recorded ← query (is_cancellation_recorded b.id)
  raise_if recorded unhandled
  modify (insert_cancellation b.id refund_amount reason)
  commit
  add_task (invalidate_services_cache b.service_id)
  reachable ← query (is_reachable b)
  if reachable then add_task (send_cancellation_email b.id refund_amount reason) else pure tt
  pure refund_amount

-- Steps 5 to 7.
unfoldable pub reverse_booking : Stripe → Booking → String → Action ℕ
reverse_booking stripe b reason = do
  p ← query (λ db. first (pays_for b.id) db.payments)
  refund_amount ← reverse_payment stripe b p
  conclude_cancellation b reason refund_amount

-- The response is the amount that was refunded.
unfoldable pub cancel_booking_and_refund : Env → Stripe → ℕ → Option String → User → Action ℕ
cancel_booking_and_refund e stripe booking_id reason user = do
  found ← query (λ db. first (has_booking_id booking_id) db.bookings)
  b ← or_raise found not_found
  raise_if (not (b.user_id == user.id) && not (is_admin user.role)) forbidden
  raise_if (is_cancelled b.status) bad_request
  service ← query (service_of b)
  raise_if (has_started e service) bad_request
  reverse_booking stripe b (reason_text reason)
