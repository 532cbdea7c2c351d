-- ===== src/Locations/Removal.antt =====
-- What the removal of a venue leaves, and what a venue reads after it was written.
use event_booking_ticketing.Session.{close, ok, Session}
use event_booking_ticketing.Catalog.{with_default, has_location_id}
use event_booking_ticketing.Model.{SellerProfile, User, Location, Services}
use event_booking_ticketing.Locations.{
  created_location, LocationUpdate, is_held_at, LocationCreate, updated_location, without_location,
  is_archived_at, remove_location, store_location, insert_location, is_active_at, disassociate,
  get_location_by_id, owned_location, update_location, create_location, delete_location,
}
use event_booking_ticketing.Common.{
  ◌∙◌, Option, String, update_all, ==-refl, inr, refl, inl, some, [], Option-cases, arith, ◌∷◌,
  false, none, not, ◌≡◌, any, first, select, List, ℕ,
}

update_all-any :
    (k : ℕ) (services : List Services)
    → any (is_active_at k) services ≡ false
    → any (is_held_at k) (update_all (is_archived_at k) without_location services) ≡ false
update_all-any k [] h = refl
update_all-any k (s ∷ services) h = ground (arith, update_all-any k services)

kept_services :
    (k : ℕ) (services : List Services)
    → select (λ s. s.is_active) (update_all (is_archived_at k) without_location services)
      ≡ select (λ s. s.is_active) services
kept_services k [] = refl
kept_services k (s ∷ services) = ground (arith, kept_services k services)

first-select :
    (k : ℕ) (locations : List Location)
    → first (has_location_id k) (select (λ l. not (has_location_id k l)) locations) ≡ none
first-select k [] = refl
first-select k (l ∷ locations) = ground (arith, first-select k locations)

-- A venue that is deleted is gone from the committed database, no event is left at it, and the
-- active events are those of before, unchanged.
pub delete_location-gone :
    (k : ℕ) (user : User) (s : Session)
    → (delete_location k user s).0 ≡ ok tt
    → let db' = (delete_location k user s).1.saved in
      (first (has_location_id k) db'.locations ≡ none)
      × (any (is_held_at k) db'.services ≡ false)
      × (select (λ x. x.is_active) db'.services ≡ select (λ x. x.is_active) s.db.services)
unfolding delete_location owned_location get_location_by_id disassociate remove_location
delete_location-gone k user s h = elim (Option-cases (first (has_location_id k) s.db.locations)) [
  | inl q ↦ absurd (ground arith)
  | inr (l, q) ↦ (
    ground (arith, first-select k s.db.locations),
    ground (arith, update_all-any k s.db.services),
    ground (arith, kept_services k s.db.services),
  )
]

-- A field of an update: the given text, and the stored one where none is given.
abbrev pub or_kept : String → Option String → String
or_kept stored none = stored
or_kept stored (some given) = given

kept_default : (stored : String) (o : Option String) → with_default o stored ≡ or_kept stored o
kept_default stored none = refl
kept_default stored (some given) = refl

reread_location :
    (req : LocationCreate) (u : LocationUpdate) (user : User) (profile : SellerProfile)
    (s : Session)
    → user.seller_profile ≡ some profile
    → let k = s.db.next_location_id in
      let created = create_location req user s in
      (get_location_by_id k (close (update_location k u user (close created.1)).1)).0
      ≡ ok (updated_location u (created_location profile req s.db))
unfolding create_location update_location owned_location get_location_by_id insert_location
    store_location updated_location
reread_location req u user profile s h = rw h (ground (arith, ==-refl s.db.next_location_id))

-- A seller reads back the venue that was created, under the next id, with the seller's profile and
-- the city, the country and the address of the request; and after an update of it each of the three
-- as the update gives it, or as it was created where the update gives none. Both are read from the
-- committed database.
pub create_location-get :
    (req : LocationCreate) (u : LocationUpdate) (user : User) (profile : SellerProfile)
    (s : Session)
    → user.seller_profile ≡ some profile
    → let k = s.db.next_location_id in
      let created = create_location req user s in
      let updated = update_location k u user (close created.1) in
      ((get_location_by_id k (close created.1)).0
        ≡ ok (record {
          id = k;
          seller_id = profile.id;
          city = req.city;
          country = req.country;
          address_line = req.address_line;
        }))
      × ((get_location_by_id k (close updated.1)).0
          ≡ ok (record {
            id = k;
            seller_id = profile.id;
            city = or_kept req.city u.city;
            country = or_kept req.country u.country;
            address_line = or_kept req.address_line u.address_line;
          }))
unfolding create_location get_location_by_id insert_location updated_location
create_location-get req u user profile s h =
    let city = kept_default req.city u.city in
    let country = kept_default req.country u.country in
    let address_line = kept_default req.address_line u.address_line in
    (
      (rw (h, ==-refl s.db.next_location_id) refl),
      reread_location req u user profile s h ∙ λ i. ok (record {
        id = s.db.next_location_id;
        seller_id = profile.id;
        city = city i;
        country = country i;
        address_line = address_line i;
      }),
    )
