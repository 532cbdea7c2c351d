-- ===== src/Payments/Pay.antt =====
-- `create_payment_intent_for_booking` of app/routers/payments.py. It returns the id of the payment.
use event_booking_ticketing.Bookings.{tier_price, seat_price}
use event_booking_ticketing.Payments.Confirm.{is_unit, service_of, confirm_booking_and_invoice}
use event_booking_ticketing.Payments.Changes.{
  is_intent_taken, set_payment_status, replace_payment, insert_payment,
}
use event_booking_ticketing.Session.{
  forbidden, not_found, bad_gateway, raise_if, or_raise, commit, bad_request, unhandled, pure,
  raise, send, query, modify, ◌>>◌, ◌>>=◌, Action,
}
use event_booking_ticketing.Gateway.{
  other_exception, is_in_process, is_intent_canceled, is_unpaid, creates_intent,
  is_intent_succeeded, raised, answered, Stripe, Reply, PaymentIntent,
}
use event_booking_ticketing.Env.{Env}
use event_booking_ticketing.Model.{
  pays_for, is_cancelled, is_confirmed, is_failed, is_free, canceled, is_open_payment,
  has_booking_id, has_tier_id, is_succeeded, free_booking, attempt_key, requires_payment_method,
  ServiceTier, User, Services, Db, booking_key, Booking, Payment, IdempotencyKey,
}
use event_booking_ticketing.Common.{
  ◌+◌, ltb, ◌*◌, ◌==◌, select, ◌||◌, sum_by, true, is_empty, none, first, not, leb, some,
  if◌then◌else◌, Option, ℕ,
}

abbrev tier_row : Option ℕ → Db → Option ServiceTier
tier_row none db = none
tier_row (some k) db = first (has_tier_id k) db.tiers

-- The prices of the units as they are now, or else the price of the tier or of the service.
unfoldable pub price_now : Booking → Services → Db → ℕ
price_now b service db =
    if not (is_empty b.assigned_units)
    then sum_by (seat_price db service) (select (is_unit b.assigned_units) db.items)
    else tier_price service (tier_row b.tier_id db) * b.quantity

-- The total that was fixed with the hold comes first. A booking with no service raises.
unfoldable pub amount_due : Option ℕ → Booking → Action ℕ
amount_due (some total) b = pure total
amount_due none b = do
  found ← query (service_of b)
  service ← or_raise found unhandled
  query (price_now b service)

unfoldable pub idempotency_key_for : Env → ℕ → Option Payment → IdempotencyKey
idempotency_key_for e k none = booking_key k
idempotency_key_for e k (some p) = attempt_key k e.retry_token

-- The payment of a free booking: the one that exists, or a new one.
unfoldable pub free_payment : Env → Booking → Option Payment → Db → Payment
unfolding idempotency_key_for
free_payment e b (some p) db = record p { amount = 0 }
free_payment e b none db = record {
  id = db.next_payment_id;
  booking_id = b.id;
  stripe_payment_intent_id = free_booking b.id;
  client_secret = "free_booking";
  idempotency_key = idempotency_key_for e b.id none;
  amount = 0;
  currency = "usd";
  status = requires_payment_method;
}

-- The payment that holds Stripe's intent.
unfoldable pub intent_payment :
    IdempotencyKey → ℕ → PaymentIntent → Booking → Option Payment → Db → Payment
intent_payment key amount intent b (some p) db = record p {
  stripe_payment_intent_id = intent.id;
  client_secret = intent.client_secret;
  idempotency_key = key;
  amount = amount;
  status = requires_payment_method;
}
intent_payment key amount intent b none db = record {
  id = db.next_payment_id;
  booking_id = b.id;
  stripe_payment_intent_id = intent.id;
  client_secret = intent.client_secret;
  idempotency_key = key;
  amount = amount;
  currency = "usd";
  status = requires_payment_method;
}

-- The row is new, or takes the place of the one that exists.
unfoldable pub store_payment : Option Payment → Payment → Db → Db
store_payment none p db = insert_payment p db
store_payment (some old) p db = replace_payment p db

-- Step 7: a free booking is confirmed without Stripe.
unfoldable pub pay_free : Env → Booking → Option Payment → Action ℕ
pay_free e b existing = do
  p ← query (free_payment e b existing)
  modify (store_payment existing p)
  confirm_booking_and_invoice e true b p
  pure p.id

-- Step 9. A second payment with the same intent breaks a unique key of the table.
unfoldable pub store_intent :
    IdempotencyKey → ℕ → Booking → Option Payment → PaymentIntent → Action ℕ
store_intent key amount b existing intent = do
  p ← query (intent_payment key amount intent b existing)
  taken ← query (is_intent_taken intent.id p.id)
  raise_if taken unhandled
  modify (store_payment existing p)
  commit
  pure p.id

unfoldable pub intent_reply :
    IdempotencyKey → ℕ → Booking → Option Payment → Reply PaymentIntent → Action ℕ
intent_reply key amount b existing (answered intent) = store_intent key amount b existing intent
intent_reply key amount b existing (raised other_exception) = raise unhandled
intent_reply key amount b existing (raised _) = raise bad_gateway

-- Step 8.
unfoldable pub pay_by_stripe : Env → Stripe → Booking → Option Payment → ℕ → Action ℕ
pay_by_stripe e stripe b existing amount = do
  let key = idempotency_key_for e b.id existing
  send (creates_intent amount key)
  intent_reply key amount b existing (stripe.create amount key)

-- Steps 6 to 9.
unfoldable pub start_payment : Env → Stripe → Booking → Option Payment → Action ℕ
start_payment e stripe b existing = do
  amount ← amount_due b.total_amount b
  if leb amount 0 then pay_free e b existing else pay_by_stripe e stripe b existing amount

-- `existing_payment.status = CANCELED`, and on to a new intent.
unfoldable pub restart_payment : Env → Stripe → Booking → Payment → Action ℕ
restart_payment e stripe b p = do
  modify (set_payment_status canceled p.id)
  commit
  start_payment e stripe b (some (record p { status = canceled }))

unfoldable pub confirm_paid : Env → Booking → Payment → Action ℕ
confirm_paid e b p = do confirm_booking_and_invoice e true b p; pure p.id

-- A payment that is still open is used again, as far as Stripe agrees.
unfoldable pub reuse_open : Env → Stripe → Booking → Payment → Reply PaymentIntent → Action ℕ
reuse_open e stripe b p (raised _) = pure p.id
reuse_open e stripe b p (answered intent) =
    if is_intent_succeeded intent.status
    then confirm_paid e b p
    else if is_unpaid intent.status || is_in_process intent.status
    then pure p.id
    else if is_intent_canceled intent.status
    then restart_payment e stripe b p
    else start_payment e stripe b (some p)

unfoldable pub reactivate : Payment → PaymentIntent → Action ℕ
reactivate p intent = do
  modify (
      replace_payment
        (record p { client_secret = intent.client_secret; status = requires_payment_method }))
  commit
  pure p.id

-- So is one that had failed, if its intent is still open.
unfoldable pub retry_failed : Env → Stripe → Booking → Payment → Reply PaymentIntent → Action ℕ
retry_failed e stripe b p (raised _) = start_payment e stripe b (some p)
retry_failed e stripe b p (answered intent) =
    if is_intent_succeeded intent.status
    then confirm_paid e b p
    else if is_unpaid intent.status
    then reactivate p intent
    else if is_intent_canceled intent.status
    then restart_payment e stripe b p
    else start_payment e stripe b (some p)

-- Step 5.
unfoldable pub reconcile : Env → Stripe → Booking → Option Payment → Action ℕ
reconcile e stripe b none = start_payment e stripe b none
reconcile e stripe b (some p) =
    if is_succeeded p.status
    then raise bad_request
    else if is_open_payment p.status
    then (if is_free p.stripe_payment_intent_id
        then pure p.id
        else reuse_open e stripe b p (stripe.retrieve p.stripe_payment_intent_id))
    else if is_failed p.status
    then retry_failed e stripe b p (stripe.retrieve p.stripe_payment_intent_id)
    else start_payment e stripe b (some p)

unfoldable pub create_payment_intent_for_booking : Env → Stripe → ℕ → User → Action ℕ
create_payment_intent_for_booking e stripe booking_id user = do
  found ← query (λ db. first (has_booking_id booking_id) db.bookings)
  b ← or_raise found not_found
  raise_if (not (b.user_id == user.id)) forbidden
  raise_if (is_confirmed b.status) bad_request
  raise_if (is_cancelled b.status) bad_request
  raise_if (ltb (b.created_at + e.hold) e.now) bad_request
  existing ← query (λ db. first (pays_for booking_id) db.payments)
  reconcile e stripe b existing
