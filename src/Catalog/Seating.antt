-- ===== src/Catalog/Seating.antt =====
-- The tiers and the seats of an event: `create_service_tier` and `bulk_create_inventory` of
-- app/routers/services.py, with `schema.BulkInventoryCreate`.
use event_booking_ticketing.Catalog.{is_stranger}
use event_booking_ticketing.Bookings.{active_service}
use event_booking_ticketing.Payments.Confirm.{is_text}
use event_booking_ticketing.Session.{
  forbidden, pure, not_found, or_raise, invalidate_services_cache, commit, modify, add_task,
  rollback, conflict, bad_request, unprocessable, raise_if, query, raise, ◌>>=◌, ◌>>◌, Action,
}
use event_booking_ticketing.Model.{
  is_unit_assigned, is_admin, Services, available, InventoryItems, Db, User, ServiceTier,
}
pub mod Codes
pub mod Names
use event_booking_ticketing.Common.{
  first, distinct_texts, all, is_some, some, length, text_length, str_eq, mem_text, any, leb, not,
  ◌&&◌, if◌then◌else◌, map, none, ◌+◌, ◌==◌, [], ◌∷◌, Bool, Option, String, List, ℕ,
}

-- `schema.ServiceTierCreate`; the code does not read its `service_id`.
pub record ServiceTierCreate : Type 0 where
  pub name : String
  pub price : ℕ

pub record BulkInventoryCreate : Type 0 where
  pub tier_id : ℕ
  pub identifier_codes : List String

-- The checks that the two handlers share: the profile, the event and its owner.
unfoldable pub owned_service : ℕ → User → Action Services
owned_service k user = do
  raise_if (not (is_admin user.role) && not (is_some user.seller_profile)) bad_request
  found ← query (active_service k)
  service ← or_raise found not_found
  raise_if (is_stranger user service.seller_id) forbidden
  pure service

-- The tier of a service whose name passes a test.
abbrev pub has_tier_named : (String → Bool) → ℕ → ServiceTier → Bool
has_tier_named p k t = (t.service_id == k) && p t.name

abbrev pub new_tier : ℕ → ServiceTierCreate → Db → ServiceTier
new_tier k tier_in db = record {
  id = db.next_tier_id;
  service_id = k;
  name = tier_in.name;
  price = tier_in.price;
}

unfoldable pub insert_tier : ServiceTier → Db → Db
insert_tier t db = record db { tiers = t ∷ db.tiers; next_tier_id = db.next_tier_id + 1 }

-- `db.add` and `db.commit`, with the unique key on the service and the name of a tier.
unfoldable pub commit_tier : ServiceTier → Action (Unit {0})
commit_tier t = do
  taken ← query (λ db. any (has_tier_named (str_eq t.name) t.service_id) db.tiers)
  if taken then rollback >> raise conflict else modify (insert_tier t) >> commit

-- The parameters are `s.strip().lower()` and PostgreSQL's `lower`. The result is the id of the tier.
unfoldable pub create_service_tier :
    (String → String) → (String → String) → ℕ → ServiceTierCreate → User → Action ℕ
create_service_tier clean lower k tier_in user = do
  owned_service k user
  existing_tier ←
      query (λ db. any (has_tier_named (λ n. str_eq (lower n) (clean tier_in.name)) k) db.tiers)
  raise_if existing_tier conflict
  tier ← query (new_tier k tier_in)
  commit_tier tier
  add_task (invalidate_services_cache k)
  pure tier.id

-- `validate_unique_identifier_codes`, with the bounds of the list; `none` is a 422. The parameter
-- is `s.strip()`.
abbrev pub is_code : String → Bool
is_code code = is_text code && leb (text_length code) 20

unfoldable pub validate_unique_identifier_codes :
    (String → String) → List String → Option (List String)
validate_unique_identifier_codes strip codes =
    let stripped = map strip codes in
    if leb 1 (length codes)
      && leb (length codes) 500
      && (all is_code stripped && distinct_texts stripped)
    then some stripped
    else none

abbrev pub new_item : ℕ → ℕ → String → ℕ → InventoryItems
new_item k tier_id code id = record {
  id = id;
  service_id = k;
  tier_id = tier_id;
  identifier_code = code;
  status = available;
}

unfoldable pub insert_item : ℕ → ℕ → String → Db → Db
insert_item k tier_id code db = record db {
  items = new_item k tier_id code db.next_item_id ∷ db.items;
  next_item_id = db.next_item_id + 1;
}

unfoldable pub insert_items : ℕ → ℕ → List String → Db → Db
insert_items k tier_id [] db = db
insert_items k tier_id (code ∷ codes) db =
    insert_items k tier_id codes (insert_item k tier_id code db)

-- `identifier_code.in_(...)` of the seats of a service.
abbrev pub is_seat_named : ℕ → List String → InventoryItems → Bool
is_seat_named k codes i = (i.service_id == k) && mem_text i.identifier_code codes

-- The unique key on the service and the code cannot fail: the codes are distinct, and none of them
-- is on a seat of the service. The result is `created_count`.
unfoldable pub bulk_create_inventory : ℕ → BulkInventoryCreate → User → Action ℕ
bulk_create_inventory k inventory_in user = do
  service ← owned_service k user
  raise_if (not (is_unit_assigned service.booking_mode)) bad_request
  tier ← query (λ db. first (λ t. (t.id == inventory_in.tier_id) && (t.service_id == k)) db.tiers)
  or_raise tier not_found
  existing_items ← query (λ db. any (is_seat_named k inventory_in.identifier_codes) db.items)
  raise_if existing_items conflict
  modify (insert_items k inventory_in.tier_id inventory_in.identifier_codes)
  commit
  add_task (invalidate_services_cache k)
  pure (length inventory_in.identifier_codes)

-- The request with its validation; a 422 is raised before the handler runs.
unfoldable pub request_bulk_inventory :
    (String → String) → ℕ → BulkInventoryCreate → User → Action ℕ
request_bulk_inventory strip k inventory_in user =
    elim (validate_unique_identifier_codes strip inventory_in.identifier_codes) [
      | none ↦ raise unprocessable
      | some codes ↦ bulk_create_inventory k (record inventory_in { identifier_codes = codes }) user
    ]
