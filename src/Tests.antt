-- ===== src/Tests.antt =====
-- A small database, and the theorems at inputs where their hypotheses hold.
pub mod Memory
pub mod Accounts
pub mod Network
pub mod Venues
pub mod Storefront
pub mod Codes
use event_booking_ticketing.Payments.Pay.{create_payment_intent_for_booking}
use event_booking_ticketing.Payments.Requests.{create_payment_intent_asks, AsksOnly}
use event_booking_ticketing.Bookings.Refusals.{create_booking_refused}
use event_booking_ticketing.Common.{◌==◌, if◌then◌else◌, ◌+◌, ◌/◌}
use event_booking_ticketing.Payments.Repeats.{cancel_twice}
use event_booking_ticketing.Bookings.Limits.{create_booking_limits}
use event_booking_ticketing.Reviews.Unique.{create_review_once, review_count}
use event_booking_ticketing.Payments.Changes.{
  insert_cancellation, set_payment_status, set_unit_statuses, set_booking_status, release_booking,
}
use event_booking_ticketing.Sweeper.{released_expired_holds}
use event_booking_ticketing.Payments.Confirm.{
  is_reachable, can_confirm_late_in_mode, can_confirm_in_mode, confirm_booking_and_invoice,
}
use event_booking_ticketing.Sweeper.Frame.{released_expired_holds_frame, Holds}
use event_booking_ticketing.Gateway.{needs_payment_method, in_process, answered, Stripe}
use event_booking_ticketing.System.Safety.{Reach-IsSafe, IsSafe}
use event_booking_ticketing.Payments.Cancel.{
  conclude_cancellation, cancel_reply, cancel_open_intent, reverse_payment, reverse_booking,
  cancel_booking_and_refund,
}
use event_booking_ticketing.Reviews.{insert_review, review_event, ReviewCreate, create_review}
use event_booking_ticketing.Env.{Env}
use event_booking_ticketing.Session.{conflict, forbidden, bad_request, err, ok, open_session, Both}
use event_booking_ticketing.System.{serves, here, next, handle, creates, serve, World}
use event_booking_ticketing.Bookings.{
  max_pending_holds_per_user, active_user_holds, max_tickets_per_booking, hold_seats, seats_booking,
  is_own_event, requested_qty, active_service, create_unit_assigned, create_in_mode, create_for,
  BookingCreate, create_booking,
}
use event_booking_ticketing.Model.{
  cancelled, reserved, BookingMode, has_booking_id, available, failed, unit_assigned, slot_capacity,
  booking_key, from_stripe, customer, confirmed, InventoryItems, minutes, Booking, Services,
  ItemStatus, User, pending, Db, BookingStatus, Payment,
}
use event_booking_ticketing.Payments.Invoices.{
  unless_seatless, claims_agree, confirm_booking_and_invoice_once, invoice_count,
}
use event_booking_ticketing.Common.{
  map, false, ◌≤◌, ◌⊎◌, first, refl, ◌≡◌, [], true, ◌∷◌, some, arith, none, ℕ,
}

abbrev hold : ℕ
hold = minutes 10

abbrev pub env : Env
env = record {
  hold = hold;
  now = 700000000;
  db_now = 700000001;
  year = 2026;
  retry_token = 5;
  round_div = λ a n. a / n;
}

abbrev pub customer_7 : User
customer_7 = record {
  id = 7;
  name = "Ann";
  email = "ann@example.org";
  phone_no = none;
  role = customer;
  password_hash = "#secret";
  is_verified = true;
  is_active = true;
  verification_otp = none;
  otp_expires_at = none;
  seller_profile = none;
}

abbrev pub concert : Services
concert = record {
  id = 1;
  seller_id = 1;
  location_id = some 1;
  service_name = "Concert";
  service_desc = none;
  booking_mode = unit_assigned;
  max_capacity = none;
  base_price = 1000;
  start_time = 900000000;
  end_time = 950000000;
  is_active = true;
}

abbrev lecture : Services
lecture = record {
  id = 2;
  seller_id = 1;
  location_id = some 1;
  service_name = "Lecture";
  service_desc = none;
  booking_mode = slot_capacity;
  max_capacity = some 3;
  base_price = 500;
  start_time = 900000000;
  end_time = 950000000;
  is_active = true;
}

abbrev past_lecture : Services
past_lecture = record lecture { id = 3; start_time = 100; end_time = 200 }

abbrev seat : ℕ → ItemStatus → InventoryItems
seat k st = record { id = k; service_id = 1; tier_id = 1; identifier_code = "A"; status = st }

abbrev pub booking : ℕ → ℕ → BookingStatus → ℕ → Booking
booking k service_id st created_at = record {
  id = k;
  service_id = service_id;
  user_id = 7;
  tier_id = none;
  quantity = 2;
  unit_price = some 500;
  total_amount = some 1000;
  start_time = 900000000;
  end_time = 950000000;
  status = st;
  created_at = created_at;
  assigned_units = [];
}

abbrev pub payment_1 : Payment
payment_1 = record {
  id = 1;
  booking_id = 1;
  stripe_payment_intent_id = from_stripe 11;
  client_secret = "secret";
  idempotency_key = booking_key 1;
  amount = 1000;
  currency = "usd";
  status = failed;
}

abbrev pub empty_db : Db
empty_db = record {
  users = customer_7 ∷ [];
  locations = [];
  services = concert ∷ lecture ∷ past_lecture ∷ [];
  tiers = [];
  items = seat 2 available ∷ seat 1 available ∷ [];
  bookings = [];
  payments = [];
  invoices = [];
  cancellations = [];
  reviews = [];
  next_location_id = 2;
  next_service_id = 4;
  next_tier_id = 2;
  next_item_id = 3;
  next_booking_id = 1;
  next_payment_id = 1;
  next_invoice_id = 1;
  next_cancellation_id = 1;
  next_review_id = 1;
}

-- Booking 1 is a hold on the lecture, booking 2 attended the one that is over.
abbrev pub busy_db : Db
busy_db = record empty_db {
  bookings = booking 2 3 confirmed 50 ∷ booking 1 2 pending 600000000 ∷ [];
  payments = payment_1 ∷ [];
  next_booking_id = 3;
  next_payment_id = 2;
}

-- Stripe answers: an intent in process, and a new one.
abbrev pub stripe : Stripe
stripe = record {
  retrieve = λ pid. answered (record { id = pid; client_secret = "secret"; status = in_process });
  create = λ amount key.
      answered
        (record { id = from_stripe 12; client_secret = "new"; status = needs_payment_method });
  cancel = λ pid. answered tt;
  refund = λ pid amount key. answered tt;
}

abbrev two_seats : BookingCreate
two_seats = record { service_id = 1; tier_id = none; quantity = 1; assigned_unit_ids = 1 ∷ 2 ∷ [] }

abbrev start_world : World
start_world = record { time = 0; db = empty_db }

start_world-IsSafe : IsSafe hold start_world
start_world-IsSafe = record {
  seats = record { bounded = λ u. omega arith; keyed = omega arith };
  capacity = record { fits = λ k service cap found slot bound. omega arith };
}

Reach-IsSafe_example :
    IsSafe hold
      (record { time = 700000000; db = serve env stripe (creates two_seats customer_7) empty_db })
Reach-IsSafe_example =
    Reach-IsSafe start_world-IsSafe
      (next here (serves start_world env stripe (creates two_seats customer_7) refl (omega arith)))

-- Both seats are RESERVED for the new booking, at the base price.
two_seats-held :
    map
      (λ (i : InventoryItems). i.status)
      (serve env stripe (creates two_seats customer_7) empty_db).items
    ≡ reserved ∷ reserved ∷ []
unfolding serve handle create_booking create_for create_in_mode create_unit_assigned requested_qty
    active_service is_own_event seats_booking hold_seats
two_seats-held = refl

abbrev two_seats_booking : Booking
two_seats_booking = record {
  id = 1;
  service_id = 1;
  user_id = 7;
  tier_id = none;
  quantity = 2;
  unit_price = some 1000;
  total_amount = some 2000;
  start_time = 900000000;
  end_time = 950000000;
  status = pending;
  created_at = 700000001;
  assigned_units = 1 ∷ 2 ∷ [];
}

create_booking_limits_example :
    (first
        (has_booking_id 1)
        (create_booking env two_seats customer_7 (open_session empty_db)).1.saved.bookings
      ≡ some two_seats_booking)
    × (2 ≡ requested_qty two_seats)
    × (2 ≤ max_tickets_per_booking)
    × (active_user_holds env 7
          (create_booking env two_seats customer_7 (open_session empty_db)).1.saved
        ≤ max_pending_holds_per_user)
unfolding create_booking create_for create_in_mode create_unit_assigned requested_qty active_service
    is_own_event seats_booking hold_seats
create_booking_limits_example =
    create_booking_limits env two_seats customer_7 (open_session empty_db) two_seats_booking refl

cancel_twice_example :
    let s = open_session busy_db in
    let s' = open_session (cancel_booking_and_refund env stripe 1 none customer_7 s).1.saved in
    ((b : Booking) × (first (has_booking_id 1) s.db.bookings ≡ some b)
      × (first (has_booking_id 1) s'.db.bookings ≡ some (record b { status = cancelled })))
    × ((cancel_booking_and_refund env stripe 1 none customer_7 s' ≡ (err bad_request, s'))
        ⊎ (cancel_booking_and_refund env stripe 1 none customer_7 s' ≡ (err forbidden, s')))
unfolding cancel_booking_and_refund reverse_booking reverse_payment cancel_open_intent cancel_reply
    conclude_cancellation release_booking set_booking_status set_unit_statuses set_payment_status
    insert_cancellation is_reachable
cancel_twice_example =
    cancel_twice env stripe 1 none customer_7 (open_session busy_db) 0 env stripe none customer_7
      refl

abbrev pub late_env : Env
late_env = record env { now = 1300000000 }

released_expired_holds_frame_example :
    Both
      (Holds 2 (booking 2 3 confirmed 50))
      (released_expired_holds late_env stripe (open_session busy_db))
released_expired_holds_frame_example =
    released_expired_holds_frame late_env 2 (booking 2 3 confirmed 50) refl stripe
      (open_session busy_db) (record { seen = refl; kept = refl })

confirm_booking_and_invoice_once_example :
    let s' =
      (confirm_booking_and_invoice env true
        (booking 1 2 pending 600000000)
        payment_1
        (open_session busy_db)).1 in
    (invoice_count 1 s'.saved ≡ 1)
    × (first (has_booking_id 1) s'.saved.bookings ≡ some (booking 1 2 confirmed 600000000))
unfolding invoice_count
confirm_booking_and_invoice_once_example =
    confirm_booking_and_invoice_once env true (booking 1 2 pending 600000000) payment_1
      (open_session busy_db) refl (omega arith)

claims_agree_example :
    let b = booking 1 1 pending 600000000 in
    let s = open_session busy_db in
    ((can_confirm_in_mode unit_assigned env b concert s).0
      ≡ unless_seatless unit_assigned b (can_confirm_late_in_mode unit_assigned env b concert s).0)
    × ((can_confirm_late_in_mode unit_assigned env (record b { assigned_units = [] }) concert s).0
        ≡ ok true)
claims_agree_example =
    claims_agree unit_assigned env (booking 1 1 pending 600000000) concert (open_session busy_db)

abbrev five_stars : ReviewCreate
five_stars = record { booking_id = 2; rating = 5; comment = none }

create_review_once_example :
    let s = open_session busy_db in
    let s' = (create_review env five_stars customer_7 s).1 in
    (b : Booking) × (service : Services) × (first (has_booking_id 2) s.db.bookings ≡ some b)
    × (b.user_id ≡ 7)
    × (b.status ≡ confirmed)
    × (active_service b.service_id s.db ≡ some service)
    × (service.end_time ≤ env.now)
    × (review_count b.id s'.saved ≡ 1)
    × (review_count 1 s'.saved ≡ review_count 1 s.db + (if 2 == 1 then 1 else 0))
unfolding create_review review_event insert_review active_service
create_review_once_example =
    create_review_once env five_stars customer_7 (open_session busy_db) 1 1 refl

abbrev sold_db : Db
sold_db = record empty_db { items = seat 2 available ∷ seat 1 reserved ∷ [] }

create_booking_refused_example :
    create_booking env two_seats customer_7 (open_session sold_db)
    ≡ (err conflict, open_session sold_db)
unfolding create_booking create_for create_in_mode create_unit_assigned requested_qty active_service
    is_own_event seats_booking hold_seats
create_booking_refused_example =
    create_booking_refused env two_seats customer_7 (open_session sold_db) conflict refl

create_payment_intent_asks_example :
    AsksOnly 1000
      (open_session busy_db)
      (create_payment_intent_for_booking env stripe 1 customer_7 (open_session busy_db)).1
create_payment_intent_asks_example =
    create_payment_intent_asks env stripe 1 customer_7 (open_session busy_db)
      (booking 1 2 pending 600000000) 1000 refl refl
