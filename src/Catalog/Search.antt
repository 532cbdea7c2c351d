-- ===== src/Catalog/Search.antt =====
-- The public discovery of events, of app/routers/services.py: what `search_services`,
-- `get_service_by_id` and `get_service_seats` read from the database when the cache has no answer.
use event_booking_ticketing.Payments.Confirm.{is_text}
use event_booking_ticketing.Catalog.{has_location_id, is_same_mode}
use event_booking_ticketing.Bookings.{active_service}
use event_booking_ticketing.Model.{
  has_tier_id, BookingMode, Location, ServiceTier, InventoryItems, Services, Db,
}
pub mod Pages
pub mod Filters
use event_booking_ticketing.Common.{
  sort, drop, order_by, none, ◌||◌, leb, if◌then◌else◌, false, first, map, not, ◌==◌, take, ltb,
  ◌&&◌, List, some, select, true, Option, Bool, String, ℕ,
}

pub data SortBy : Type 0 where
  price_asc price_desc date_asc date_desc : SortBy

-- The parameters of `search_services`. Prices are in cents, and dates in UTC.
pub record SearchQuery : Type 0 where
  pub city : Option String
  pub country : Option String
  pub booking_mode : Option BookingMode
  pub min_price : Option ℕ
  pub max_price : Option ℕ
  pub date_from : Option ℕ
  pub date_to : Option ℕ
  pub include_past : Bool
  pub sort_by : Option SortBy
  pub limit : ℕ
  pub offset : ℕ

-- `schema.ServiceOut`, `schema.InventoryItemOut`
pub record ServiceOut : Type 0 where
  pub service : Services
  pub tiers : List ServiceTier

pub record InventoryItemOut : Type 0 where
  pub item : InventoryItems
  pub tier_name : Option String
  pub price : Option ℕ

-- A bound that is given holds.
abbrev pub is_within : (ℕ → ℕ → Bool) → Option ℕ → ℕ → Bool
is_within test none n = true
is_within test (some bound) n = test bound n

-- `if min_price > max_price` and `if date_from > date_to`, where both are given.
abbrev pub is_empty_range : Option ℕ → Option ℕ → Bool
is_empty_range (some low) (some high) = ltb high low
is_empty_range _ _ = false

abbrev pub service_out : Db → Services → ServiceOut
service_out db s = record { service = s; tiers = select (λ t. t.service_id == s.id) db.tiers }

-- `order_by(key, id)` and the same in descending order.
abbrev pub is_listed_before : ℕ → ℕ → ℕ → ℕ → Bool
is_listed_before key id key' id' = ltb key key' || ((key == key') && leb id id')

abbrev pub sorts_before : Option SortBy → Services → Services → Bool
sorts_before (some price_asc) a b = is_listed_before a.base_price a.id b.base_price b.id
sorts_before (some price_desc) a b = is_listed_before b.base_price b.id a.base_price a.id
sorts_before (some date_desc) a b = is_listed_before b.start_time b.id a.start_time a.id
sorts_before (some date_asc) a b = is_listed_before a.start_time a.id b.start_time b.id
sorts_before none a b = is_listed_before a.start_time a.id b.start_time b.id

-- The parameter is `column.ilike(f"%{text}%")`, of the text and the column.
module _ (ilike : String → String → Bool) where
  -- `if city: query = query.filter(...)`
  abbrev pub fits_text : Option String → String → Bool
  fits_text none column = true
  fits_text (some text) column = not (is_text text) || ilike text column

  abbrev pub is_located : SearchQuery → Option Location → Bool
  is_located q none = false
  is_located q (some l) = fits_text q.city l.city && fits_text q.country l.country

  -- The join with the locations leaves out an event that has none.
  abbrev pub location_of : Db → Services → Option Location
  location_of db s = elim s.location_id [
    | none ↦ none
    | some k ↦ first (has_location_id k) db.locations
  ]

  abbrev pub fits_mode : Option BookingMode → BookingMode → Bool
  fits_mode none mode = true
  fits_mode (some m) mode = is_same_mode m mode

  -- The first of the dates: the one that is given, or now but for `include_past`.
  abbrev pub earliest : ℕ → SearchQuery → Option ℕ
  earliest now q = elim q.date_from [
    | some date ↦ some date
    | none ↦ if q.include_past then none else some now
  ]

  unfoldable pub is_match : ℕ → SearchQuery → Db → Services → Bool
  is_match now q db s =
      s.is_active
      && (is_located q (location_of db s)
          && (fits_mode q.booking_mode s.booking_mode
              && (is_within leb q.min_price s.base_price
                  && (is_within (λ bound n. leb n bound) q.max_price s.base_price
                      && (is_within leb (earliest now q) s.start_time
                          && is_within (λ bound n. leb n bound) q.date_to s.start_time)))))

  unfoldable pub fetch_page : ℕ → SearchQuery → Db → List Services
  fetch_page now q db =
      take q.limit
        (drop q.offset (sort (sorts_before q.sort_by) (select (is_match now q db) db.services)))

  unfoldable pub fetch_services : ℕ → SearchQuery → Db → List ServiceOut
  fetch_services now q db = map (service_out db) (fetch_page now q db)

unfoldable pub fetch_detail : ℕ → Db → Option ServiceOut
fetch_detail k db = elim (active_service k db) [ none ↦ none | some s ↦ some (service_out db s) ]

-- `InventoryItems.tier_name` and `InventoryItems.price`
abbrev pub item_out : Db → InventoryItems → InventoryItemOut
item_out db i =
    let tier : Option ServiceTier = first (has_tier_id i.tier_id) db.tiers in
    record {
      item = i;
      tier_name = elim tier [ none ↦ none | some t ↦ some t.name ];
      price = elim tier [ none ↦ none | some t ↦ some t.price ];
    }

unfoldable pub fetch_seats : ℕ → Db → List InventoryItemOut
fetch_seats k db =
    map (item_out db) (order_by (λ i. i.id) (select (λ i. i.service_id == k) db.items))
