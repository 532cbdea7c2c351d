-- ===== src/Discovery.antt =====
-- The public endpoints of app/routers/services.py, which answer from the cache.
use event_booking_ticketing.Model.{is_unit_assigned}
use event_booking_ticketing.Bookings.{active_service}
use event_booking_ticketing.Payments.Confirm.{is_text}
use event_booking_ticketing.Cache.{
  set_cached, make_service_seats_cache_key, get_cached, make_service_detail_cache_key,
  get_or_compute_cached,
}
use event_booking_ticketing.Auth.Visit.{read_db, Visit}
use event_booking_ticketing.Session.{
  pure, bad_request, not_found, or_raise, raise_if, ◌>>=◌, ◌>>◌, Handler,
}
use event_booking_ticketing.Redis.{services_list, CacheKey, Redis}
use event_booking_ticketing.Catalog.Search.{
  fetch_seats, is_empty_range, fetch_detail, fetch_services, InventoryItemOut, ServiceOut,
  SearchQuery,
}
use event_booking_ticketing.Common.{
  false, true, not, none, if◌then◌else◌, some, List, Bool, Option, String, ℕ,
}

-- The settings of the cache, and the functions of Python, PostgreSQL and pydantic on texts and rows.
pub record Wire : Type 0 where
  -- `settings.cache_services_ttl` and `settings.cache_seats_ttl`
  pub cache_services_ttl : ℕ
  pub cache_seats_ttl : ℕ
  -- `s.strip().lower()`
  pub clean : String → String
  -- `s.strip()`, and PostgreSQL's `lower`
  pub strip : String → String
  pub lower : String → String
  -- `column.ilike(f"%{text}%")`
  pub ilike : String → String → Bool
  -- The first 16 digits of the SHA-256 of the canonical JSON of the parameters
  pub digest : SearchQuery → String
  -- `json.dumps` of the rows as their schema dumps them
  pub dump_services : List ServiceOut → String
  pub dump_service : ServiceOut → String
  pub dump_seats : List InventoryItemOut → String

-- `city.strip().lower() if city else None`
abbrev pub normalized : (String → String) → Option String → Option String
normalized clean none = none
normalized clean (some text) = if is_text text then some (clean text) else none

-- The prices, which are in cents here, are rounded to cents already.
unfoldable pub make_services_list_cache_key : Wire → SearchQuery → CacheKey
make_services_list_cache_key w q = services_list (
    w.digest
      (record q { city = normalized w.clean q.city; country = normalized w.clean q.country }))

module _ {S : Type 0} (redis : Redis S) (w : Wire) where
  unfoldable pub fetch_list_text : ℕ → SearchQuery → Handler (Visit S) String
  fetch_list_text now q = read_db (λ db. w.dump_services (fetch_services w.ilike now q db))

  -- The arguments after the query are the token of the lock, and what a waiting request finds.
  unfoldable pub search_services :
      ℕ → SearchQuery → ℕ → List (ℕ × S) → Handler (Visit S) (String × Bool)
  search_services now q token polls = do
    raise_if (is_empty_range q.min_price q.max_price) bad_request
    raise_if (is_empty_range q.date_from q.date_to) bad_request
    get_or_compute_cached redis now (make_services_list_cache_key w q) (fetch_list_text now q)
        w.cache_services_ttl token polls

  unfoldable pub fetch_detail_text : ℕ → Handler (Visit S) String
  fetch_detail_text k = do
    found ← read_db (fetch_detail k)
    service ← or_raise found not_found
    pure (w.dump_service service)

  unfoldable pub get_service_by_id : ℕ → ℕ → ℕ → List (ℕ × S) → Handler (Visit S) (String × Bool)
  get_service_by_id now k token polls =
      get_or_compute_cached redis now (make_service_detail_cache_key k) (fetch_detail_text k)
        w.cache_services_ttl token polls

  -- The seat map after a miss.
  unfoldable pub compute_seats : ℕ → ℕ → Handler (Visit S) (String × Bool)
  compute_seats now k = do
    found ← read_db (active_service k)
    service ← or_raise found not_found
    raise_if (not (is_unit_assigned service.booking_mode)) bad_request
    seats ← read_db (fetch_seats k)
    let text = w.dump_seats seats
    set_cached redis now (make_service_seats_cache_key k) text w.cache_seats_ttl
    pure (text, false)

  unfoldable pub get_service_seats : ℕ → ℕ → Handler (Visit S) (String × Bool)
  get_service_seats now k = do
    cached_data ← get_cached redis now (make_service_seats_cache_key k)
    elim cached_data [ some text ↦ pure (text, true) | none ↦ compute_seats now k ]
