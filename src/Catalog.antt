-- ===== src/Catalog.antt =====
-- app/routers/services.py: the events that the sellers offer.
pub mod Capacity
pub mod Seating
pub mod Search
use event_booking_ticketing.Bookings.{active_service}
use event_booking_ticketing.Session.{
  invalidate_all, invalidate_services_cache, add_task, commit, modify, not_found, forbidden,
  bad_request, raise_if, query, or_raise, pure, ◌>>=◌, ◌>>◌, Action,
}
use event_booking_ticketing.Env.{Env}
use event_booking_ticketing.Model.{
  unit_assigned, is_confirmed, slot_capacity, active_booking_count, is_unit_assigned, is_pending,
  is_admin, has_service_id, BookingMode, Services, Location, User, SellerProfile, Db, Booking,
}
use event_booking_ticketing.Common.{
  is_some, ◌||◌, leb, first, if◌then◌else◌, ◌&&◌, ltb, ◌==◌, false, any, ◌+◌, true, not, ◌∷◌, some,
  select, update, none, Bool, Option, ℕ,
}
use Prim.Native.String.{String}

-- `schema.ServiceCreate`
pub record ServiceCreate : Type 0 where
  pub location_id : ℕ
  pub service_name : String
  pub service_desc : Option String
  pub booking_mode : BookingMode
  pub max_capacity : Option ℕ
  pub base_price : ℕ
  pub start_time : ℕ
  pub end_time : ℕ

-- `schema.ServiceUpdate`, with `none` for a field that is not set. Its validators refuse a null
-- but for the description and the capacity.
pub record ServiceUpdate : Type 0 where
  pub location_id : Option ℕ
  pub service_name : Option String
  pub service_desc : Option (Option String)
  pub booking_mode : Option BookingMode
  pub max_capacity : Option (Option ℕ)
  pub base_price : Option ℕ
  pub start_time : Option ℕ
  pub end_time : Option ℕ

abbrev pub has_location_id : ℕ → Location → Bool
has_location_id k l = l.id == k

abbrev is_truthy : Option ℕ → Bool
is_truthy none = false
is_truthy (some n) = not (n == 0)

abbrev created_service : SellerProfile → ServiceCreate → Db → Services
created_service profile req db = record {
  id = db.next_service_id;
  seller_id = profile.id;
  location_id = some req.location_id;
  service_name = req.service_name;
  service_desc = req.service_desc;
  booking_mode = req.booking_mode;
  max_capacity = req.max_capacity;
  base_price = req.base_price;
  start_time = req.start_time;
  end_time = req.end_time;
  is_active = true;
}

unfoldable pub insert_service : Services → Db → Db
insert_service service db = record db {
  services = service ∷ db.services;
  next_service_id = db.next_service_id + 1;
}

-- The checks of a new event.
unfoldable pub check_creation : Env → ServiceCreate → User → Action SellerProfile
check_creation e req user = do
  profile ← or_raise user.seller_profile bad_request
  raise_if (ltb req.start_time e.now) bad_request
  found ← query (λ db. first (has_location_id req.location_id) db.locations)
  location ← or_raise found not_found
  raise_if (not (location.seller_id == profile.id) && not (is_admin user.role)) forbidden
  raise_if (not (is_unit_assigned req.booking_mode) && not (is_truthy req.max_capacity)) bad_request
  raise_if (is_unit_assigned req.booking_mode && is_some req.max_capacity) bad_request
  raise_if (leb req.end_time req.start_time) bad_request
  pure profile

-- The result is the id of the service.
unfoldable pub create_services : Env → ServiceCreate → User → Action ℕ
create_services e req user = do
  profile ← check_creation e req user
  service ← query (created_service profile req)
  modify (insert_service service)
  commit
  add_task invalidate_all
  pure service.id

-- `role != ADMIN and service.seller_id != seller_id`, where a user with no profile has no seller id.
abbrev pub is_stranger : User → ℕ → Bool
is_stranger user seller_id =
    not (is_admin user.role)
    && not (elim user.seller_profile [ none ↦ false | some p ↦ seller_id == p.id ])

abbrev pub with_default {ℓ} : {A : Type ℓ} → Option A → A → A
with_default none d = d
with_default (some a) d = a

unfoldable pub check_location : Option ℕ → User → Action (Unit {0})
check_location none user = pure tt
check_location (some k) user = do
  found ← query (λ db. first (has_location_id k) db.locations)
  location ← or_raise found not_found
  raise_if (is_stranger user location.seller_id) forbidden

-- `new_cap is None or new_cap < 1`
abbrev pub is_no_capacity : Option ℕ → Bool
is_no_capacity none = true
is_no_capacity (some n) = ltb n 1

abbrev pub has_bookings : ℕ → Db → Bool
has_bookings k db = any (λ b. b.service_id == k) db.bookings

abbrev has_inventory : ℕ → Db → Bool
has_inventory k db = any (λ i. i.service_id == k) db.items

abbrev pub is_same_mode : BookingMode → BookingMode → Bool
is_same_mode unit_assigned unit_assigned = true
is_same_mode slot_capacity slot_capacity = true
is_same_mode _ _ = false

-- Step 2, for a mode that is given: it changes only while the event has no bookings and no seats,
-- and the capacity has to suit it. The result is what `update_data` then says of the capacity.
unfoldable pub change_mode : Services → Option (Option ℕ) → BookingMode → Action (Option (Option ℕ))
change_mode service cap m = do
  raise_if (← query (has_bookings service.id)) bad_request
  raise_if (← query (has_inventory service.id)) bad_request
  raise_if (not (is_unit_assigned m) && is_no_capacity (with_default cap service.max_capacity))
      bad_request
  pure (if is_unit_assigned m then some none else cap)

unfoldable pub check_mode :
    Services → Option (Option ℕ) → Option BookingMode → Action (Option (Option ℕ))
check_mode service cap none = pure cap
check_mode service cap (some m) =
    if is_same_mode m service.booking_mode then pure cap else change_mode service cap m

-- Step 3, for a capacity that is given in general admission: not below the live bookings.
unfoldable pub check_capacity : Env → ℕ → Option (Option ℕ) → BookingMode → Action (Unit {0})
check_capacity e k (some cap) slot_capacity = do
  raise_if (is_no_capacity cap) bad_request
  active ← query (λ db. active_booking_count e.hold e.now k db.bookings)
  raise_if (ltb (with_default cap 0) active) bad_request
check_capacity e k (some cap) unit_assigned = pure tt
check_capacity e k none m = pure tt

-- A start time that is given is not in the past, and the end is after the start.
unfoldable pub check_times : Env → Services → ServiceUpdate → Action (Unit {0})
check_times e service u = do
  raise_if (elim u.start_time [ none ↦ false | some t ↦ ltb t e.now ]) bad_request
  raise_if
      (leb (with_default u.end_time service.end_time)
        (with_default u.start_time service.start_time))
      bad_request

-- `setattr` of each field that is given.
unfoldable pub updated_service : ServiceUpdate → Option (Option ℕ) → Services → Services
updated_service u cap service = record service {
  location_id = elim u.location_id [ none ↦ service.location_id | some k ↦ some k ];
  service_name = with_default u.service_name service.service_name;
  service_desc = with_default u.service_desc service.service_desc;
  booking_mode = with_default u.booking_mode service.booking_mode;
  max_capacity = with_default cap service.max_capacity;
  base_price = with_default u.base_price service.base_price;
  start_time = with_default u.start_time service.start_time;
  end_time = with_default u.end_time service.end_time;
}

unfoldable pub store_service : Services → Db → Db
store_service service db = record db {
  services = update (has_service_id service.id) (λ s. service) db.services;
}

unfoldable pub update_found : Env → Services → ServiceUpdate → User → Action ℕ
update_found e service u user = do
  raise_if (is_stranger user service.seller_id) forbidden
  check_location u.location_id user
  cap ← check_mode service u.max_capacity u.booking_mode
  check_capacity e service.id cap (with_default u.booking_mode service.booking_mode)
  check_times e service u
  modify (store_service (updated_service u cap service))
  commit
  add_task (invalidate_services_cache service.id)
  pure service.id

unfoldable pub update_service : Env → ℕ → ServiceUpdate → User → Action ℕ
update_service e k u user = do
  found ← query (active_service k)
  service ← or_raise found not_found
  update_found e service u user

-- A booking that is PENDING or CONFIRMED.
abbrev pub is_active_booking : ℕ → Booking → Bool
is_active_booking k b = (b.service_id == k) && (is_pending b.status || is_confirmed b.status)

-- The service with its seats and its tiers, by the cascades of the relationships.
unfoldable pub remove_service : ℕ → Db → Db
remove_service k db = record db {
  services = select (λ s. not (has_service_id k s)) db.services;
  items = select (λ i. not (i.service_id == k)) db.items;
  tiers = select (λ t. not (t.service_id == k)) db.tiers;
}

-- An event with a history is archived.
unfoldable pub delete_service : ℕ → User → Action (Unit {0})
delete_service k user = do
  found ← query (active_service k)
  service ← or_raise found not_found
  raise_if (is_stranger user service.seller_id) forbidden
  active ← query (λ db. any (is_active_booking k) db.bookings)
  raise_if active bad_request
  history ← query (has_bookings k)
  modify
      (if history then store_service (record service { is_active = false }) else remove_service k)
  commit
  add_task (invalidate_services_cache k)
