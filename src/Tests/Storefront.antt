-- ===== src/Tests/Storefront.antt =====
-- The theorems on the catalog, the cache and the progress of the sweep, at inputs where their
-- hypotheses hold.
use event_booking_ticketing.Catalog.Search.Filters.{Before, Fits}
use event_booking_ticketing.Sweeper.Leader.{sweep_round_once, sweep_round}
use event_booking_ticketing.Catalog.Seating.Names.{create_service_tier-name}
use event_booking_ticketing.Cache.Sellers.{deletes}
use event_booking_ticketing.Catalog.Seating.Codes.{
  tier_count, request_bulk_inventory-codes, seat_count,
}
use event_booking_ticketing.Sweeper.{released_expired_holds}
use event_booking_ticketing.Cache.Invalidation.{invalidate_services_cache_sync-same}
use event_booking_ticketing.Storefront.Refinement.{run_site_refines}
use event_booking_ticketing.Tests.Accounts.{visit}
use event_booking_ticketing.Catalog.Search.Pages.{
  read_search, fetch_page_sound, fetch_page_complete,
}
use event_booking_ticketing.Bookings.{active_service}
use event_booking_ticketing.Sweeper.Liveness.{released_expired_holds_live, IsReleased}
use event_booking_ticketing.Tests.Memory.{memory, Memory}
use event_booking_ticketing.Tests.{
  concert, busy_db, env, stripe, late_env, booking, empty_db, customer_7,
}
use event_booking_ticketing.Discovery.{Wire}
use event_booking_ticketing.Storefront.{
  leads, reads, idle, finishes, replay_site, sells, looks, SiteEvent, run_site, Site,
}
use event_booking_ticketing.Model.{pending, seller, Db, Booking, ServiceTier, User}
use event_booking_ticketing.Session.{ok, open_session, Both}
use event_booking_ticketing.Catalog.Search.{price_desc, fetch_page, is_match, SearchQuery}
use event_booking_ticketing.Catalog.Seating.{
  has_tier_named, owned_service, bulk_create_inventory, validate_unique_identifier_codes,
  commit_tier, BulkInventoryCreate, create_service_tier, ServiceTierCreate, request_bulk_inventory,
}
use event_booking_ticketing.Cache.{invalidate_services_cache_sync, invalidate_services_cache}
use event_booking_ticketing.Common.{
  Chain, inl, All, Occurs, false, refl, if◌then◌else◌, arith, any, [], ◌+◌, ◌≤◌, true, some, ◌≡◌,
  str_eq, none, ◌∷◌, length, String, List,
}

abbrev same_text : String → String
same_text s = s

abbrev wire : Wire
wire = record {
  cache_services_ttl = 60;
  cache_seats_ttl = 10;
  clean = same_text;
  strip = same_text;
  lower = same_text;
  ilike = str_eq;
  digest = λ q. "0123456789abcdef";
  dump_services = λ rows. "[]";
  dump_service = λ o. o.service.service_name;
  dump_seats = λ rows. "[]";
}

-- The owner of the concert, and a tier for its two seats.
abbrev seller_7 : User
seller_7 = record customer_7 {
  role = seller;
  seller_profile = some (record {
    id = 1;
    user_id = 7;
    business_name = "Halls";
    business_desc = none;
    is_verified = true;
  });
}

abbrev stalls : ServiceTier
stalls = record { id = 1; service_id = 1; name = "Stalls"; price = 2000 }

abbrev tier_db : Db
tier_db = record empty_db { tiers = stalls ∷ [] }

abbrev new_seats : BulkInventoryCreate
new_seats = record { tier_id = 1; identifier_codes = "C1" ∷ "C2" ∷ [] }

request_bulk_inventory-codes_example :
    let s = open_session tier_db in
    (2 ≡ length new_seats.identifier_codes)
    × (seat_count 1 "C2" (request_bulk_inventory same_text 1 new_seats seller_7 s).1.saved
        ≡ seat_count 1 "C2" s.db + (if true then 1 else 0))
    × (true ≡ true → seat_count 1 "C2" s.db ≡ 0)
unfolding request_bulk_inventory validate_unique_identifier_codes bulk_create_inventory
    owned_service active_service
request_bulk_inventory-codes_example =
    request_bulk_inventory-codes same_text 1 new_seats seller_7 (open_session tier_db) 2 1 "C2" refl

abbrev balcony : ServiceTierCreate
balcony = record { name = "Balcony"; price = 1500 }

create_service_tier-name_example :
    let s = open_session tier_db in
    (any (has_tier_named (λ x. str_eq x "Balcony") 1) s.db.tiers ≡ false)
    × (tier_count 1 "Balcony" s.db ≡ 0)
    × (tier_count 1 "Balcony" (create_service_tier same_text same_text 1 balcony seller_7 s).1.saved
        ≡ tier_count 1 "Balcony" s.db + (if true then 1 else 0))
unfolding create_service_tier commit_tier owned_service active_service
create_service_tier-name_example =
    create_service_tier-name same_text same_text 1 balcony seller_7 (open_session tier_db) 2 1
      "Balcony" refl

abbrev query : SearchQuery
query = record {
  city = none;
  country = none;
  booking_mode = none;
  min_price = none;
  max_price = none;
  date_from = none;
  date_to = none;
  include_past = true;
  sort_by = some price_desc;
  limit = 100;
  offset = 0;
}

abbrev listed_db : Db
listed_db = record empty_db {
  locations =
      record {
        id = 1;
        seller_id = 1;
        city = "Bern";
        country = "Switzerland";
        address_line = "Ring 1";
      }
      ∷ [];
}

-- Events in Bern of 5 to 15, still to come.
abbrev in_bern : SearchQuery
in_bern = record query {
  city = some "Bern";
  country = some "";
  min_price = some 500;
  max_price = some 1500;
  include_past = false;
}

fetch_page_sound_example :
    (length (fetch_page str_eq 0 in_bern listed_db) ≤ 100)
    × All (Fits str_eq 0 in_bern listed_db) (fetch_page str_eq 0 in_bern listed_db)
    × Chain (Before (some price_desc)) (fetch_page str_eq 0 in_bern listed_db)
fetch_page_sound_example = fetch_page_sound str_eq 0 in_bern listed_db

-- One event on each page.
abbrev by_ones : SearchQuery
by_ones = record in_bern { limit = 1 }

fetch_page_complete_example :
    Occurs concert (read_search str_eq 3 0 by_ones listed_db)
    × Chain (Before (some price_desc)) (read_search str_eq 3 0 by_ones listed_db)
unfolding is_match
fetch_page_complete_example =
    fetch_page_complete str_eq 3 0 by_ones listed_db concert refl (omega arith) (inl refl)
      (refl, (refl, tt), tt, omega arith, omega arith, omega arith, tt)

-- A reader, a seller who archives the event, the task of the archiving, and a reader who waits while
-- another reads without Redis and the one with the lock fills the cache.
abbrev day : List SiteEvent
day =
    looks 1000 1000 1 1 true []
    ∷ sells 2000 env (deletes 1) seller_7
    ∷ finishes 2500 true
    ∷ looks 3000 3500 1 2 true (idle 3100 ∷ reads 3200 1 3 false ∷ leads 3300 1 4 ∷ [])
    ∷ []

abbrev site : Site Memory
site = record { committed = empty_db; redis = []; pending = [] }

run_site_refines_example : run_site memory wire day site ≡ replay_site wire day empty_db
run_site_refines_example =
    run_site_refines memory wire day site 0 (λ k x h. cc) refl
      (
        omega arith,
        omega arith,
        tt,
        (
          omega arith,
          (
            omega arith,
            (
              omega arith,
              omega arith,
              (
                omega arith,
                omega arith,
                (omega arith, omega arith, (omega arith, omega arith, tt)),
              ),
              tt,
            ),
          ),
        ),
      )
      (refl, (refl, (refl, (refl, tt))))

invalidate_services_cache_sync-same_example :
    invalidate_services_cache_sync memory 5 (some 1) (visit [])
    ≡ invalidate_services_cache memory 5 (some 1) (visit [])
invalidate_services_cache_sync-same_example =
    invalidate_services_cache_sync-same memory 5 (some 1) (visit [])

abbrev expired : Booking
expired = booking 1 2 pending 600000000

released_expired_holds_live_example :
    Both
      (IsReleased late_env stripe (λ pid. refl) 1 expired refl)
      (released_expired_holds late_env stripe (open_session busy_db))
released_expired_holds_live_example =
    released_expired_holds_live late_env stripe (λ pid. refl) 1 expired refl (open_session busy_db)
      (record { seen = refl; kept = refl }) refl refl

sweep_round_once_example :
    let v = visit [] in
    ((sweep_round memory late_env stripe 1 v).1.saved
      ≡ (released_expired_holds late_env stripe (open_session v.saved)).saved)
    × (sweep_round memory
          (record late_env { now = 1340000000 })
          stripe
          2
          (visit (sweep_round memory late_env stripe 1 v).1.redis)
        ≡ (ok tt, visit (sweep_round memory late_env stripe 1 v).1.redis))
sweep_round_once_example =
    sweep_round_once memory late_env (record late_env { now = 1340000000 }) stripe stripe 1 2
      (visit []) (visit (sweep_round memory late_env stripe 1 (visit [])).1.redis) refl refl refl
      (omega arith) (omega arith)
