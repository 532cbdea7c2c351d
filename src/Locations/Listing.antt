-- ===== src/Locations/Listing.antt =====
-- `get_locations` of app/routers/locations.py: the search of the venues, in pages.
use event_booking_ticketing.Catalog.Search.Filters.{Mentions}
use event_booking_ticketing.Catalog.Search.{fits_text}
use event_booking_ticketing.Model.{Location, Db}
use event_booking_ticketing.Common.{
  ◌⊎◌, zero, ◌+◌, order_by, ◌++◌, suc, drop, select, ◌||◌, [], take, List, ◌&&◌, Bool, Option,
  String, ℕ,
}

-- The parameters of the query; `limit` is from 1 to 100.
pub record LocationQuery : Type 0 where
  pub search : Option String
  pub city : Option String
  pub country : Option String
  pub limit : ℕ
  pub offset : ℕ

module _ (ilike : String → String → Bool) where
  -- The search bar, on any of the three columns.
  unfoldable pub fits_search : Option String → Location → Bool
  fits_search text l =
      fits_text ilike text l.city
      || (fits_text ilike text l.country || fits_text ilike text l.address_line)

  unfoldable pub is_listed : LocationQuery → Location → Bool
  is_listed q l =
      fits_search q.search l
      && (fits_text ilike q.city l.city && fits_text ilike q.country l.country)

  unfoldable pub get_locations : LocationQuery → Db → List Location
  get_locations q db =
      take q.limit (drop q.offset (order_by (λ l. l.id) (select (is_listed q) db.locations)))

  -- What a client sees that reads page after page.
  unfoldable pub read_pages : ℕ → LocationQuery → Db → List Location
  read_pages zero q db = []
  read_pages (suc k) q db =
      get_locations q db ++ read_pages k (record q { offset = q.offset + q.limit }) db

  -- A venue that the search is about: the search bar's text, where one is given, in one of the
  -- three columns, and the city and the country, where they are given.
  abbrev pub IsSought : LocationQuery → Location → Type 0
  IsSought q l =
      (Mentions ilike q.search l.city
        ⊎ (Mentions ilike q.search l.country ⊎ Mentions ilike q.search l.address_line))
      × Mentions ilike q.city l.city
      × Mentions ilike q.country l.country
