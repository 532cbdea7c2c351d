-- ===== src/Accounts/Profile.antt =====
-- The profile of an account, of app/routers/auth/users.py.
use event_booking_ticketing.Catalog.{with_default}
use event_booking_ticketing.Auth.Login.{find_mailbox}
use event_booking_ticketing.Accounts.Password.{revoke_all}
use event_booking_ticketing.Accounts.Otp.{set_otp, is_phone_taken, has_phone, update_user_row}
use event_booking_ticketing.Session.{
  pure, not_found, conflict, or_raise, bad_request, forbidden, raise_if, ◌>>◌, ◌>>=◌, Handler,
}
use event_booking_ticketing.Redis.{Redis}
use event_booking_ticketing.Auth.Visit.{
  send_otp_email, enqueue, stale, commit_db, write_db, read_db, Visit, AuthEnv,
}
use event_booking_ticketing.Model.{
  seller, is_admin, is_confirmed, has_user_id, is_pending, User, SellerProfile, Services,
  BookingStatus, Booking, Db,
}
use event_booking_ticketing.Common.{
  str_eq, first, is_some, ◌&&◌, ◌||◌, update_all, ◌==◌, if◌then◌else◌, some, false, any, not, none,
  select, String, Bool, Option, ℕ,
}

abbrev pub is_active_status : BookingStatus → Bool
is_active_status status = is_pending status || is_confirmed status

-- The bookings of the user, and those of the events of a seller.
abbrev pub is_booking_of : ℕ → Booking → Bool
is_booking_of k b = b.user_id == k

abbrev pub is_event_of : ℕ → Services → Bool
is_event_of seller_id s = s.seller_id == seller_id

abbrev pub is_booking_with : ℕ → Db → Booking → Bool
is_booking_with seller_id db b =
    any (λ s. (s.id == b.service_id) && is_event_of seller_id s) db.services

-- `had_seller_profile` and one of the bookings of the seller's events passes the test.
abbrev pub has_event_booking : (Booking → Bool) → Option SellerProfile → Db → Bool
has_event_booking p none db = false
has_event_booking p (some profile) db =
    any (λ b. is_booking_with profile.id db b && p b) db.bookings

-- The account without what names its owner. `label` is the address
-- `f"deleted_{user.id}_{timestamp}@deleted.local"`.
unfoldable pub anonymized : AuthEnv → String → User → User
anonymized e label user = record user {
  name = "Deleted User";
  email = label;
  phone_no = none;
  password_hash = e.hash e.random_password;
  is_verified = false;
  is_active = false;
}

abbrev pub archive_events : Option SellerProfile → Db → Db
archive_events none db = db
archive_events (some profile) db = record db {
  services = update_all (is_event_of profile.id) (λ s. record s { is_active = false }) db.services;
}

abbrev pub remove_user : ℕ → Db → Db
remove_user k db = record db { users = select (λ u. not (has_user_id k u)) db.users }

-- An account with bookings or a profile is kept for the records.
unfoldable pub retire_user : AuthEnv → String → User → Bool → Db → Db
retire_user e label user has_any_bookings db =
    if has_any_bookings || is_some user.seller_profile
    then archive_events user.seller_profile (update_user_row user.id (anonymized e label) db)
    else remove_user user.id db

-- `schema.UserUpdate`, with `none` for a field that is not set, and without the date of birth. A
-- null is refused or, for a password, passed over; a phone number that is given may be null.
pub record UserUpdate : Type 0 where
  pub name : Option String
  pub email : Option String
  pub phone_no : Option (Option String)
  pub password : Option String
  pub current_password : Option String

-- `new_email != user.email.lower()`, for an email that is given.
abbrev pub is_email_changed : AuthEnv → UserUpdate → User → Bool
is_email_changed e u user = elim u.email [
  | none ↦ false
  | some email ↦ not (str_eq (e.clean email) (e.lower user.email))
]

abbrev new_email_of : AuthEnv → UserUpdate → User → String
new_email_of e u user = elim u.email [ none ↦ user.email | some email ↦ e.clean email ]

abbrev pub is_phone_changed : Option (Option String) → User → Db → Bool
is_phone_changed none user db = false
is_phone_changed (some none) user db = false
is_phone_changed (some (some phone)) user db =
    not (has_phone phone user) && is_phone_taken (some phone) db

-- `current_password` is given and right.
abbrev pub is_confirmed_by : AuthEnv → Option String → User → Bool
is_confirmed_by e none user = false
is_confirmed_by e (some password) user = e.verify_password password user.password_hash

-- `setattr` of each field that is given.
unfoldable pub updated_user : AuthEnv → UserUpdate → Bool → User → User
updated_user e u email_changed user =
    let given = record user {
      name = with_default u.name user.name;
      email = new_email_of e u user;
      phone_no = with_default u.phone_no user.phone_no;
      password_hash = elim u.password [
        | none ↦ user.password_hash
        | some password ↦ e.hash password
      ];
    } in
    if email_changed then set_otp e (record given { is_verified = false }) else given

abbrev new_profile : ℕ → ℕ → String → Option String → SellerProfile
new_profile k user_id business_name business_desc = record {
  id = k;
  user_id = user_id;
  business_name = business_name;
  business_desc = business_desc;
  is_verified = false;
}

module _ {S : Type 0} (redis : Redis S) where
  -- A new mailbox needs the password, and is sent a code.
  unfoldable pub change_email : AuthEnv → UserUpdate → User → Handler (Visit S) (Unit {0})
  change_email e u user = do
    raise_if (not (is_confirmed_by e u.current_password user)) bad_request
    let new_email = new_email_of e u user
    email_taken ← read_db (find_mailbox e new_email)
    raise_if (is_some email_taken) conflict
    enqueue (send_otp_email new_email e.new_otp)

  -- The steps of `update_user` on the account that was found. No unique key can fail that the
  -- queries have not seen to.
  unfoldable pub update_found_user : AuthEnv → UserUpdate → User → User → Handler (Visit S) User
  update_found_user e u user current_user = do
    let email_changed = is_email_changed e u user
    raise_if (not (user.id == current_user.id)) forbidden
    if email_changed then change_email e u user else pure tt
    phone_taken ← read_db (is_phone_changed u.phone_no user)
    raise_if phone_taken conflict
    raise_if (is_some u.password && not (is_confirmed_by e u.current_password user)) bad_request
    write_db (update_user_row user.id (updated_user e u email_changed))
    commit_db
    if is_some u.password || email_changed then revoke_all redis e user.id else pure tt
    pure (updated_user e u email_changed user)

  unfoldable pub update_user : AuthEnv → ℕ → UserUpdate → User → Handler (Visit S) User
  update_user e k u current_user = do
    found ← read_db (λ db. first (has_user_id k) db.users)
    user ← or_raise found not_found
    update_found_user e u user current_user

  unfoldable pub get_user_by_id : ℕ → User → Handler (Visit S) User
  get_user_by_id k current_user = do
    found ← read_db (λ db. first (has_user_id k) db.users)
    target_user ← or_raise found not_found
    raise_if (not (current_user.id == target_user.id) && not (is_admin current_user.role)) forbidden
    pure target_user

  -- The steps of `delete_user` on the account that was found. `had_seller_profile` implies the
  -- archiving, so that `seller_has_event_bookings` decides nothing.
  unfoldable pub delete_found : AuthEnv → String → ℕ → User → User → Handler (Visit S) (Unit {0})
  delete_found e label k user current_user = do
    raise_if (not (user.id == current_user.id)) forbidden
    active ←
        read_db (λ db. any (λ b. is_booking_of user.id b && is_active_status b.status) db.bookings)
    raise_if active bad_request
    seller_event_booking ←
        read_db (has_event_booking (λ b. is_active_status b.status) user.seller_profile)
    raise_if seller_event_booking conflict
    has_any_bookings ← read_db (λ db. any (is_booking_of user.id) db.bookings)
    write_db (retire_user e label user has_any_bookings)
    commit_db
    revoke_all redis e k
    if is_some user.seller_profile then stale else pure tt

  unfoldable pub delete_user : AuthEnv → String → ℕ → User → Handler (Visit S) (Unit {0})
  delete_user e label k current_user = do
    found ← read_db (λ db. first (has_user_id k) db.users)
    user ← or_raise found not_found
    delete_found e label k user current_user

  -- The row of the profile is the `seller_profile` of the user's row; `k` is the id that its table
  -- gives. `SellerProfileCreate` is the name and the description of the business.
  unfoldable pub become_seller : ℕ → String → Option String → User → Handler (Visit S) SellerProfile
  become_seller k business_name business_desc current_user = do
    existing_profile ←
        read_db
          (λ db. any (λ u. has_user_id current_user.id u && is_some u.seller_profile) db.users)
    raise_if existing_profile bad_request
    let seller_profile = new_profile k current_user.id business_name business_desc
    write_db (
        update_user_row current_user.id (λ u. record u {
          role = if is_admin current_user.role then u.role else seller;
          seller_profile = some seller_profile;
        }))
    commit_db
    pure seller_profile
