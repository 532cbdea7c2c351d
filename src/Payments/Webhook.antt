-- ===== src/Payments/Webhook.antt =====
-- `stripe_webhook` of app/routers/payments.py.
use event_booking_ticketing.Payments.Confirm.{
  can_confirm_in_mode, service_of, confirm_booking_and_invoice,
}
use event_booking_ticketing.Session.{
  unhandled, commit, internal_server_error, or_raise, invalidate_services_cache, rollback, send,
  query, add_task, modify, bad_request, raise, ◌>>◌, pure, ◌>>=◌, Action,
}
use event_booking_ticketing.Payments.Changes.{
  set_payment_status, record_cancellation, free_reserved_units, set_booking_status,
}
use event_booking_ticketing.Env.{Env}
use event_booking_ticketing.Gateway.{answered, refunds_intent, raised, Reply, Stripe}
use event_booking_ticketing.Model.{
  canceled, failed, succeeded, auto_refund_key, has_booking_id, is_canceled, is_confirmed,
  has_intent, is_pending, cancelled, is_succeeded, cancels_booking, Booking, IntentId, Payment, Db,
}
use event_booking_ticketing.Common.{
  ◌&&◌, ltb, ◌||◌, none, ◌==◌, false, if◌then◌else◌, some, first, true, String, Option, Bool, ℕ,
}

pub data EventType : Type 0 where
  payment_intent_succeeded payment_intent_failed other_event : EventType

-- What the handler reads of an event: its type, and the id of its object.
pub record Event : Type 0 where
  pub type : EventType
  pub object_id : Option IntentId

-- The result of `stripe.Webhook.construct_event` on the payload and the signature.
pub data Construction : Type 0 where
  constructed : Event → Construction
  value_error signature_verification_error : Construction

-- The `status` of the response.
pub data WebhookStatus : Type 0 where
  untracked_intent already_processed already_refunded auto_refunded_cancelled_booking :
      WebhookStatus
  success ignored_terminal_state failed_recorded ignored : WebhookStatus

abbrev is_success_event : EventType → Bool
is_success_event payment_intent_succeeded = true
is_success_event _ = false

abbrev pub payment_of_intent : Option IntentId → Db → Option Payment
payment_of_intent none db = none
payment_of_intent (some pid) db = first (has_intent pid) db.payments

-- The cancellation of the booking, if it records a refund.
abbrev pub refund_recorded : ℕ → Db → Bool
refund_recorded booking_id db = elim (first (cancels_booking booking_id) db.cancellations) [
  | none ↦ false
  | some c ↦ ltb 0 c.refund_amount
]

-- "Check inventory claim validity": only a PENDING booking can be confirmed.
unfoldable pub can_confirm : Env → Option Booking → Action Bool
can_confirm e none = pure false
can_confirm e (some b) =
    if is_pending b.status
    then (do
      found ← query (service_of b)
      service ← or_raise found unhandled
      can_confirm_in_mode service.booking_mode e b service)
    else pure false

abbrev pub auto_refund_reason : String
auto_refund_reason = "Auto-refunded: payment arrived after hold expired or booking was cancelled"

-- The booking becomes CANCELLED; if it was PENDING, its RESERVED seats become AVAILABLE.
unfoldable pub withdraw_booking : Payment → Booking → Db → Db
unfolding set_booking_status free_reserved_units record_cancellation
withdraw_booking p b db =
    let db' = set_booking_status cancelled b.id db in
    record_cancellation b.id p.amount auto_refund_reason
      (if is_pending b.status then free_reserved_units b.assigned_units db' else db')

unfoldable pub withdraw_found : Payment → Option Booking → Action (Unit {0})
withdraw_found p none = pure tt
withdraw_found p (some b) = modify (withdraw_booking p b)

unfoldable pub invalidate_found : Option Booking → Action (Unit {0})
invalidate_found none = pure tt
invalidate_found (some b) = add_task (invalidate_services_cache b.service_id)

-- The database changes once Stripe has taken the refund; a failed one is answered with a 500.
unfoldable pub auto_refund_reply :
    Payment → Option Booking → Reply (Unit {0}) → Action WebhookStatus
auto_refund_reply p b (raised _) = rollback >> raise internal_server_error
auto_refund_reply p b (answered _) = do
  modify (set_payment_status canceled p.id)
  withdraw_found p b
  commit
  invalidate_found b
  pure auto_refunded_cancelled_booking

unfoldable pub auto_refund : Stripe → IntentId → Payment → Option Booking → Action WebhookStatus
auto_refund stripe pid p b = do
  send (refunds_intent pid p.amount (auto_refund_key pid))
  auto_refund_reply p b (stripe.refund pid p.amount (auto_refund_key pid))

unfoldable pub confirm_found : Env → Option Booking → Payment → Action (Unit {0})
confirm_found e none p = pure tt
confirm_found e (some b) p = confirm_booking_and_invoice e true b p

-- A payment of a booking that is not CONFIRMED: it is confirmed, or the money goes back.
unfoldable pub settle_payment :
    Env → Stripe → IntentId → Payment → Option Booking → Action WebhookStatus
settle_payment e stripe pid p b = do
  confirmable ← can_confirm e b
  if confirmable then confirm_found e b p >> pure success else auto_refund stripe pid p b

abbrev pub is_booking_confirmed : Option Booking → Bool
is_booking_confirmed none = false
is_booking_confirmed (some b) = is_confirmed b.status

unfoldable pub mark_succeeded : Payment → Action (Unit {0})
mark_succeeded p =
    if is_succeeded p.status
    then pure tt
    else (do modify (set_payment_status succeeded p.id); commit)

-- `payment_intent.succeeded`
unfoldable pub on_succeeded :
    Env → Stripe → IntentId → Payment → Option Booking → Action WebhookStatus
on_succeeded e stripe pid p b =
    if is_booking_confirmed b
    then mark_succeeded p >> pure already_processed
    else if is_succeeded p.status
    then pure already_processed
    else (do
      refunded ← query (refund_recorded p.booking_id)
      if is_canceled p.status && refunded
          then pure already_refunded
          else settle_payment e stripe pid p b)

-- `payment_intent.payment_failed`
unfoldable pub on_failed : Payment → Action WebhookStatus
on_failed p =
    if is_succeeded p.status || is_canceled p.status
    then pure ignored_terminal_state
    else (do modify (set_payment_status failed p.id); commit; pure failed_recorded)

unfoldable pub on_event :
    EventType → Env → Stripe → IntentId → Payment → Option Booking → Action WebhookStatus
on_event payment_intent_succeeded e stripe pid p b = on_succeeded e stripe pid p b
on_event payment_intent_failed e stripe pid p b = on_failed p
on_event other_event e stripe pid p b = pure ignored

-- `payment.booking_id` is tested first: an id of 0 has no booking.
abbrev pub booking_of : Payment → Db → Option Booking
booking_of p db =
    if p.booking_id == 0 then none else first (has_booking_id p.booking_id) db.bookings

-- The part behind the signature.
unfoldable pub handle_event : Env → Stripe → Event → Action WebhookStatus
handle_event e stripe event = do
  found ← query (payment_of_intent event.object_id)
  elim found [
    | none ↦ pure untracked_intent
    | some p ↦ do
      b ← query (booking_of p)
      on_event event.type e stripe p.stripe_payment_intent_id p b
  ]

unfoldable pub handle_construction : Env → Stripe → Construction → Action WebhookStatus
handle_construction e stripe (constructed event) = handle_event e stripe event
handle_construction e stripe value_error = raise bad_request
handle_construction e stripe signature_verification_error = raise bad_request

-- `construct_event` is Stripe's check of the payload against the signature.
unfoldable pub stripe_webhook :
    Env → Stripe → (String → Construction) → Option String → Action WebhookStatus
stripe_webhook e stripe construct_event none = raise bad_request
stripe_webhook e stripe construct_event (some signature) =
    handle_construction e stripe (construct_event signature)
