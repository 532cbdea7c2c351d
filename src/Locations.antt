-- ===== src/Locations.antt =====
-- app/routers/locations.py: the venues of the sellers.
use event_booking_ticketing.Catalog.{is_stranger, has_location_id, with_default}
use event_booking_ticketing.Model.{is_admin, SellerProfile, Location, Services, User, Db}
use event_booking_ticketing.Session.{
  forbidden, invalidate_all, not_found, pure, add_task, bad_request, commit, modify, query,
  raise_if, or_raise, ◌>>◌, ◌>>=◌, Action,
}
pub mod Removal
pub mod Listing
use event_booking_ticketing.Common.{
  update_all, ◌==◌, is_some, some, any, first, false, ◌+◌, not, ◌&&◌, ◌∷◌, update, none, Bool,
  select, String, Option, ℕ,
}

-- `schema.LocationCreate`; the code does not read its `seller_id`.
pub record LocationCreate : Type 0 where
  pub city : String
  pub country : String
  pub address_line : String

-- `schema.LocationUpdate`, with `none` for a field that is not set. Its validator refuses a null.
pub record LocationUpdate : Type 0 where
  pub city : Option String
  pub country : Option String
  pub address_line : Option String

abbrev pub created_location : SellerProfile → LocationCreate → Db → Location
created_location profile req db = record {
  id = db.next_location_id;
  seller_id = profile.id;
  city = req.city;
  country = req.country;
  address_line = req.address_line;
}

unfoldable pub insert_location : Location → Db → Db
insert_location location db = record db {
  locations = location ∷ db.locations;
  next_location_id = db.next_location_id + 1;
}

unfoldable pub create_location : LocationCreate → User → Action Location
create_location req user = do
  profile ← or_raise user.seller_profile bad_request
  new_location ← query (created_location profile req)
  modify (insert_location new_location)
  commit
  pure new_location

unfoldable pub get_location_by_id : ℕ → Action Location
get_location_by_id k = do
  found ← query (λ db. first (has_location_id k) db.locations)
  or_raise found not_found

-- The checks of `update_location` and of `delete_location`: of the profile, of the venue and of its
-- owner.
unfoldable pub owned_location : ℕ → User → Action Location
owned_location k user = do
  raise_if (not (is_admin user.role) && not (is_some user.seller_profile)) bad_request
  location ← get_location_by_id k
  raise_if (is_stranger user location.seller_id) forbidden
  pure location

-- `setattr` of each field that is given.
unfoldable pub updated_location : LocationUpdate → Location → Location
updated_location u location = record location {
  city = with_default u.city location.city;
  country = with_default u.country location.country;
  address_line = with_default u.address_line location.address_line;
}

unfoldable pub store_location : Location → Db → Db
store_location location db = record db {
  locations = update (has_location_id location.id) (λ l. location) db.locations;
}

-- No constraint of the table can fail: the update names no column that has one.
unfoldable pub update_location : ℕ → LocationUpdate → User → Action Location
update_location k u user = do
  location ← owned_location k user
  modify (store_location (updated_location u location))
  commit
  add_task invalidate_all
  pure (updated_location u location)

-- `Services.location_id == id`, with the test of `is_active`.
abbrev pub is_held_at : ℕ → Services → Bool
is_held_at k s = elim s.location_id [ none ↦ false | some l ↦ l == k ]

abbrev pub is_active_at : ℕ → Services → Bool
is_active_at k s = is_held_at k s && s.is_active

abbrev pub is_archived_at : ℕ → Services → Bool
is_archived_at k s = is_held_at k s && not s.is_active

abbrev pub without_location : Services → Services
without_location s = record s { location_id = none }

unfoldable pub disassociate : ℕ → Db → Db
disassociate k db = record db {
  services = update_all (is_archived_at k) without_location db.services;
}

unfoldable pub remove_location : ℕ → Db → Db
remove_location k db = record db {
  locations = select (λ l. not (has_location_id k l)) db.locations;
}

-- The foreign key of the services cannot fail: no event is left at the venue.
unfoldable pub delete_location : ℕ → User → Action (Unit {0})
delete_location k user = do
  location ← owned_location k user
  active ← query (λ db. any (is_active_at k) db.services)
  raise_if active bad_request
  modify (disassociate k)
  modify (remove_location k)
  commit
