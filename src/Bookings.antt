-- ===== src/Bookings.antt =====
-- app/routers/bookings.py: the reservation holds.
pub mod Limits
pub mod Refusals
use event_booking_ticketing.Common.{
  sort, ℕ, ◌+◌, ◌*◌, Bool, true, false, not, ◌&&◌, Option, none, some, List, [], ◌∷◌, map, ltb, leb,
  ◌==◌, if◌then◌else◌, first, select, sum_by, any, is_empty, mem, distinct, length, order_by,
  is_some,
}
use event_booking_ticketing.Model.{
  Db, User, Services, ServiceTier, InventoryItems, Booking, BookingMode, slot_capacity,
  unit_assigned, pending, reserved, is_admin, is_pending, is_available, is_held, has_service_id,
  has_tier_id, has_booking_id, set_status, active_booking_count,
}
use event_booking_ticketing.Env.{Env}
use event_booking_ticketing.Session.{
  Action, bad_request, forbidden, not_found, conflict, unhandled, pure, query, or_raise, raise_if,
  modify, commit, add_task, invalidate_services_cache, ◌>>=◌, ◌>>◌,
}

abbrev pub max_tickets_per_booking : ℕ
max_tickets_per_booking = 10

abbrev pub max_pending_holds_per_user : ℕ
max_pending_holds_per_user = 5

-- `schema.BookingCreate`. An `assigned_unit_ids` of `None` is the empty list, which the code does
-- not tell from it.
pub record BookingCreate : Type 0 where
  pub service_id : ℕ
  pub tier_id : Option ℕ
  pub quantity : ℕ
  pub assigned_unit_ids : List ℕ

unfoldable pub requested_qty : BookingCreate → ℕ
requested_qty req =
    if is_empty req.assigned_unit_ids then req.quantity else length req.assigned_unit_ids

-- One for each PENDING booking of the user that is within the hold.
abbrev pub user_hold : Env → ℕ → Booking → ℕ
user_hold e user_id b =
    if (b.user_id == user_id) && (is_pending b.status && is_held e.hold e.now b) then 1 else 0

abbrev pub active_user_holds : Env → ℕ → Db → ℕ
active_user_holds e user_id db = sum_by (user_hold e user_id) db.bookings

-- `not service or not service.is_active`
unfoldable pub active_service : ℕ → Db → Option Services
active_service k db = elim (first (has_service_id k) db.services) [
  | none ↦ none
  | some service ↦ if service.is_active then some service else none
]

unfoldable pub is_own_event : User → Services → Bool
is_own_event user service = elim user.seller_profile [
  | none ↦ false
  | some profile ↦ service.seller_id == profile.id
]

-- `if tier_id:`, which an id of 0 fails too.
abbrev pub is_given : Option ℕ → Bool
is_given none = false
is_given (some k) = not (k == 0)

abbrev pub is_tier_of : ℕ → ℕ → ServiceTier → Bool
is_tier_of k service_id t = has_tier_id k t && (t.service_id == service_id)

abbrev pub tier_of_service : Option ℕ → ℕ → Db → Option ServiceTier
tier_of_service none service_id db = none
tier_of_service (some k) service_id db = first (is_tier_of k service_id) db.tiers

-- The foreign key of `bookings.tier_id`: a commit with an id of no tier raises.
abbrev pub is_dangling_tier : Option ℕ → Db → Bool
is_dangling_tier none db = false
is_dangling_tier (some k) db = not (is_some (first (has_tier_id k) db.tiers))

-- The locked rows: the seats asked for that belong to the service, in the order of their ids.
abbrev pub is_requested : List ℕ → ℕ → InventoryItems → Bool
is_requested ids service_id i = mem i.id ids && (i.service_id == service_id)

abbrev pub item_id : InventoryItems → ℕ
item_id i = i.id

abbrev pub requested_seats : List ℕ → ℕ → Db → List InventoryItems
requested_seats ids service_id db = order_by item_id (select (is_requested ids service_id) db.items)

abbrev pub is_other_tier : Option ℕ → InventoryItems → Bool
is_other_tier none i = false
is_other_tier (some k) i = not (i.tier_id == k)

-- The price of the seat's tier, or else the event's base price.
abbrev pub seat_price : Db → Services → InventoryItems → ℕ
seat_price db service i = elim (first (has_tier_id i.tier_id) db.tiers) [
  | none ↦ service.base_price
  | some tier ↦ tier.price
]

abbrev pub insert_booking : Booking → Db → Db
insert_booking b db = record db {
  bookings = b ∷ db.bookings;
  next_booking_id = db.next_booking_id + 1;
}

unfoldable pub seats_booking :
    Env → BookingCreate → User → Services → List InventoryItems → Db → Booking
seats_booking e req user service seats db =
    let total = sum_by (seat_price db service) seats in
    record {
      id = db.next_booking_id;
      service_id = service.id;
      user_id = user.id;
      tier_id = req.tier_id;
      quantity = length seats;
      unit_price = some (e.round_div total (length seats));
      total_amount = some total;
      start_time = service.start_time;
      end_time = service.end_time;
      status = pending;
      created_at = e.db_now;
      assigned_units = map item_id seats;
    }

-- The seats become RESERVED, and the booking is added.
unfoldable pub hold_seats : Booking → Db → Db
hold_seats b db =
    insert_booking b (record db { items = set_status reserved b.assigned_units db.items })

-- Case A: reserved seating.
unfoldable pub create_unit_assigned : Env → BookingCreate → User → Services → Action Booking
create_unit_assigned e req user service = do
  raise_if (is_empty req.assigned_unit_ids) bad_request
  raise_if (not (distinct req.assigned_unit_ids)) bad_request
  seats ← query (requested_seats req.assigned_unit_ids service.id)
  raise_if (not (length seats == length req.assigned_unit_ids)) not_found
  raise_if (is_given req.tier_id && any (is_other_tier req.tier_id) seats) bad_request
  raise_if (any (λ seat. not (is_available seat.status)) seats) conflict
  raise_if (← query (is_dangling_tier req.tier_id)) unhandled
  new_booking ← query (seats_booking e req user service seats)
  modify (hold_seats new_booking)
  commit
  add_task (invalidate_services_cache service.id)
  pure new_booking

abbrev pub tier_price : Services → Option ServiceTier → ℕ
tier_price service none = service.base_price
tier_price service (some tier) = tier.price

unfoldable pub slot_booking :
    Env → BookingCreate → User → Services → Option ServiceTier → Db → Booking
slot_booking e req user service tier db = record {
  id = db.next_booking_id;
  service_id = service.id;
  user_id = user.id;
  tier_id = req.tier_id;
  quantity = req.quantity;
  unit_price = some (tier_price service tier);
  total_amount = some (tier_price service tier * req.quantity);
  start_time = service.start_time;
  end_time = service.end_time;
  status = pending;
  created_at = e.db_now;
  assigned_units = [];
}

-- `max_capacity is None or needed > max_capacity`
abbrev pub is_sold_out : Option ℕ → ℕ → Bool
is_sold_out none needed = true
is_sold_out (some cap) needed = ltb cap needed

-- Case B: general admission.
unfoldable pub create_slot_capacity :
    Env → BookingCreate → User → Services → Option ServiceTier → Action Booking
create_slot_capacity e req user service tier = do
  raise_if (not (is_empty req.assigned_unit_ids)) bad_request
  active ← query (λ db. active_booking_count e.hold e.now service.id db.bookings)
  raise_if (is_sold_out service.max_capacity (active + req.quantity)) conflict
  raise_if (← query (is_dangling_tier req.tier_id)) unhandled
  new_booking ← query (slot_booking e req user service tier)
  modify (insert_booking new_booking)
  commit
  add_task (invalidate_services_cache service.id)
  pure new_booking

unfoldable pub create_in_mode :
    BookingMode → Env → BookingCreate → User → Services → Option ServiceTier → Action Booking
create_in_mode unit_assigned e req user service tier = create_unit_assigned e req user service
create_in_mode slot_capacity e req user service tier = create_slot_capacity e req user service tier

-- The tests on the service and the tier, and the two cases.
unfoldable pub create_for : Env → BookingCreate → User → Services → Action Booking
create_for e req user service = do
  raise_if (is_own_event user service) bad_request
  raise_if (leb service.start_time e.now) bad_request
  tier ← query (tier_of_service req.tier_id service.id)
  raise_if (is_given req.tier_id && not (is_some tier)) bad_request
  create_in_mode service.booking_mode e req user service
      (if is_given req.tier_id then tier else none)

unfoldable pub create_booking : Env → BookingCreate → User → Action Booking
create_booking e req user = do
  raise_if (ltb max_tickets_per_booking (requested_qty req)) bad_request
  active_holds ← query (active_user_holds e user.id)
  raise_if (leb max_pending_holds_per_user active_holds) bad_request
  found ← query (active_service req.service_id)
  service ← or_raise found not_found
  create_for e req user service

-- `created_at.desc()`
abbrev pub is_newer : Booking → Booking → Bool
is_newer a b = leb b.created_at a.created_at

unfoldable pub get_my_bookings : User → Action (List Booking)
get_my_bookings user = query (λ db. sort is_newer (select (λ b. b.user_id == user.id) db.bookings))

unfoldable pub get_booking_by_id : ℕ → User → Action Booking
get_booking_by_id k user = do
  found ← query (λ db. first (has_booking_id k) db.bookings)
  booking ← or_raise found not_found
  raise_if (not (booking.user_id == user.id) && not (is_admin user.role)) forbidden
  pure booking
