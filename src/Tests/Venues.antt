-- ===== src/Tests/Venues.antt =====
-- The theorems on the venues and on the update and the deletion of an account at inputs where their
-- hypotheses hold.
use event_booking_ticketing.Locations.Listing.{LocationQuery}
use event_booking_ticketing.Accounts.Closing.{update_user_ends_sessions, delete_user_ends_sessions}
use event_booking_ticketing.Auth.Refresh.{refresh_token}
use event_booking_ticketing.Auth.Tokens.{get_current_user}
use event_booking_ticketing.Redis.{second, RedisKey-discrete}
use event_booking_ticketing.Tests.Memory.{memory, is_key}
use event_booking_ticketing.Auth.Sessions.{del_all, revoke_all_user_sessions}
use event_booking_ticketing.Accounts.Password.{revoke_access_tokens, revoke_all}
use event_booking_ticketing.Accounts.Profile.{
  updated_user, update_found_user, update_user, UserUpdate, delete_found, delete_user,
}
use event_booking_ticketing.Locations.Removal.{delete_location-gone, create_location-get}
use event_booking_ticketing.Catalog.{has_location_id}
use event_booking_ticketing.Tests.Accounts.{
  cookie, bearer, plain, with_session, visit, now, at_time, accounts_db, ann,
}
use event_booking_ticketing.Session.{unauthorized, err, ok, close, open_session, Session}
use event_booking_ticketing.Locations.{
  is_held_at, update_location, created_location, get_location_by_id, owned_location,
  delete_location, create_location, LocationUpdate, LocationCreate,
}
use event_booking_ticketing.Model.{Db, slot_capacity, Services, SellerProfile, User}
use event_booking_ticketing.Common.{
  ◌&&◌, str_eq, Bool, String, arith, ◌+◌, refl, select, any, [], ◌≡◌, ◌∷◌, first, false, true, none,
  some,
}

abbrev halls : SellerProfile
halls = record {
  id = 3;
  user_id = 7;
  business_name = "Halls";
  business_desc = none;
  is_verified = true;
}

abbrev owner : User
owner = record ann { seller_profile = some halls }

abbrev hall : LocationCreate
hall = record { city = "Bern"; country = "Switzerland"; address_line = "Ring 1" }

abbrev moved : LocationUpdate
moved = record { city = some "Basel"; country = none; address_line = none }

abbrev archived : Services
archived = record {
  id = 4;
  seller_id = 3;
  location_id = some 1;
  service_name = "Concert";
  service_desc = none;
  booking_mode = slot_capacity;
  max_capacity = some 100;
  base_price = 2500;
  start_time = 10;
  end_time = 20;
  is_active = false;
}

abbrev with_hall : Session
with_hall = open_session (record accounts_db {
  locations = created_location halls hall accounts_db ∷ [];
  services = archived ∷ [];
})

delete_location-gone_example :
    let db' = (delete_location 1 owner with_hall).1.saved in
    (first (has_location_id 1) db'.locations ≡ none)
    × (any (is_held_at 1) db'.services ≡ false)
    × (select (λ x. x.is_active) db'.services ≡ select (λ x. x.is_active) with_hall.db.services)
unfolding delete_location owned_location get_location_by_id
delete_location-gone_example = delete_location-gone 1 owner with_hall refl

create_location-get_example :
    let created = create_location hall owner (open_session accounts_db) in
    let updated = update_location 1 moved owner (close created.1) in
    ((get_location_by_id 1 (close created.1)).0
      ≡ ok (record {
        id = 1;
        seller_id = 3;
        city = "Bern";
        country = "Switzerland";
        address_line = "Ring 1";
      }))
    × ((get_location_by_id 1 (close updated.1)).0
        ≡ ok (record {
          id = 1;
          seller_id = 3;
          city = "Basel";
          country = "Switzerland";
          address_line = "Ring 1";
        }))
create_location-get_example =
    create_location-get hall moved owner halls (open_session accounts_db) refl

delete_user_ends_sessions_example :
    let s = (delete_user memory (at_time now) "deleted" 7 ann (visit with_session)).1.redis in
    ((get_current_user memory plain (at_time (now + second)) bearer (visit s)).0 ≡ err unauthorized)
    × ((refresh_token memory plain (at_time (now + second)) (some cookie) (visit s)).0
        ≡ err unauthorized)
unfolding delete_user delete_found revoke_all revoke_all_user_sessions revoke_access_tokens del_all
    is_key RedisKey-discrete
delete_user_ends_sessions_example =
    delete_user_ends_sessions memory plain (at_time now) (at_time (now + second)) "deleted" 7 ann
      (visit with_session)
      (visit (delete_user memory (at_time now) "deleted" 7 ann (visit with_session)).1.redis) bearer
      cookie bearer cookie 500000000 1400 5 refl (omega arith) refl refl refl refl refl
      (omega arith) refl (omega arith) refl refl

abbrev any_venue : LocationQuery
any_venue = record { search = some "ring"; city = none; country = some ""; limit = 2; offset = 0 }

abbrev with_halls : Db
with_halls = record accounts_db {
  locations =
      record (created_location halls hall accounts_db) { id = 3 }
      ∷ record (created_location halls hall accounts_db) { id = 2; address_line = "Square 4" }
      ∷ record (created_location halls hall accounts_db) { id = 5 }
      ∷ created_location halls hall accounts_db
      ∷ [];
}

abbrev on_the_ring : String → String → Bool
on_the_ring text column = str_eq text "ring" && str_eq column "Ring 1"

abbrev new_secret : UserUpdate
new_secret = record {
  name = none;
  email = none;
  phone_no = none;
  password = some "new";
  current_password = some "secret";
}

update_user_ends_sessions_example :
    let s = (update_user memory (at_time now) 7 new_secret ann (visit with_session)).1.redis in
    ((get_current_user memory plain (at_time (now + second)) bearer (visit s)).0 ≡ err unauthorized)
    × ((refresh_token memory plain (at_time (now + second)) (some cookie) (visit s)).0
        ≡ err unauthorized)
unfolding update_user update_found_user updated_user revoke_all revoke_all_user_sessions
    revoke_access_tokens del_all is_key RedisKey-discrete
update_user_ends_sessions_example =
    update_user_ends_sessions memory plain (at_time now) (at_time (now + second)) new_secret 7 ann
      ann (updated_user (at_time now) new_secret false ann) (visit with_session)
      (visit (update_user memory (at_time now) 7 new_secret ann (visit with_session)).1.redis)
      bearer cookie bearer cookie 500000000 1400 5 refl refl refl (omega arith) refl refl refl refl
      refl (omega arith) refl (omega arith) refl refl
