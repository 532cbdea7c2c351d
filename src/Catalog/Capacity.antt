-- ===== src/Catalog/Capacity.antt =====
-- `update_service`, the capacity and the tickets that are booked or held.
use event_booking_ticketing.Inventory.Updates.{active_service-found}
use event_booking_ticketing.Bookings.{active_service}
use event_booking_ticketing.Inventory.Claims.{SeatSafe}
use event_booking_ticketing.Inventory.Capacity.{CapacitySafe}
use event_booking_ticketing.Session.{Result-cases, Both, ok, Session}
use event_booking_ticketing.Model.{
  Db, unit_assigned, active_booking_count, slot_capacity, has_service_id, User, BookingMode,
  Booking, Services,
}
use event_booking_ticketing.Env.{Env}
use event_booking_ticketing.Catalog.{
  update_service, updated_service, store_service, update_found, has_bookings, with_default,
  change_mode, ServiceUpdate, check_location, check_mode, check_capacity, check_times,
}
use event_booking_ticketing.Common.{
  Option-cases, ap, ◌∙◌, sym, subst, [], inl, ==→eq, ◌∷◌, inr, refl, ◌⊎◌, ◌≤◌, false, none, ◌==◌,
  update, any, arith, first, ◌≡◌, some, List, Option, ℕ,
}

pub check_location-state :
    (k : Option ℕ) (user : User) (s : Session) → (check_location k user s).1 ≡ s
unfolding check_location
check_location-state none user s = refl
check_location-state (some k) user s = ground arith

pub check_mode-state :
    (service : Services) (cap : Option (Option ℕ)) (m : Option BookingMode) (s : Session)
    → (check_mode service cap m s).1 ≡ s
unfolding check_mode change_mode
check_mode-state service cap none s = refl
check_mode-state service cap (some m) s = ground arith

-- The mode and the capacity that was given stay, or the event has no bookings.
check_mode-cases :
    (service : Services) (cap : Option (Option ℕ)) (m : Option BookingMode) (s : Session)
    (new : Option (Option ℕ))
    → (check_mode service cap m s).0 ≡ ok new
    → ((with_default m service.booking_mode ≡ service.booking_mode) × (new ≡ cap))
      ⊎ (has_bookings service.id s.db ≡ false)
unfolding check_mode change_mode
check_mode-cases service cap none s new h = inl (refl, ground arith)
check_mode-cases service cap (some m) s new h = ground arith

pub check_capacity-state :
    (e : Env) (k : ℕ) (cap : Option (Option ℕ)) (m : BookingMode) (s : Session)
    → (check_capacity e k cap m s).1 ≡ s
unfolding check_capacity
check_capacity-state e k (some cap) slot_capacity s = ground arith
check_capacity-state e k (some cap) unit_assigned s = refl
check_capacity-state e k none m s = refl

check_capacity-bound :
    (e : Env) (k : ℕ) (cap : ℕ) (s : Session)
    → (check_capacity e k (some (some cap)) slot_capacity s).0 ≡ ok tt
    → active_booking_count e.hold e.now k s.db.bookings ≤ cap
unfolding check_capacity
check_capacity-bound e k cap s h = ground arith

pub check_times-state :
    (e : Env) (service : Services) (u : ServiceUpdate) (s : Session)
    → (check_times e service u s).1 ≡ s
unfolding check_times
check_times-state e service u s = ground arith

no_bookings-count :
    (e : Env) (k : ℕ) (bs : List Booking)
    → any (λ b. b.service_id == k) bs ≡ false
    → active_booking_count e.hold e.now k bs ≡ 0
no_bookings-count e k [] h = refl
no_bookings-count e k (b ∷ bs) h = ground (arith, no_bookings-count e k bs)

first-update_service :
    (k n : ℕ) (new : Services) (ss : List Services) (x : Services)
    → first (has_service_id k) (update (has_service_id n) (λ s. new) ss) ≡ some x
    → new.id ≡ n
    → ((k ≡ n) × (x ≡ new)) ⊎ (first (has_service_id k) ss ≡ some x)
first-update_service k n new [] x h q = inr h
first-update_service k n new (s ∷ ss) x h q =
    ground (arith, first-update_service k n new ss x, ==→eq s.id n, ==→eq new.id k)

module _ (e : Env) (db : Db) (u : ServiceUpdate) (service : Services)
    (safe : CapacitySafe e.hold e.now db)
    (found : first (has_service_id service.id) db.services ≡ some service) where
  abbrev mode : BookingMode
  mode = with_default u.booking_mode service.booking_mode

  bound_of_new :
      (cap : Option (Option ℕ)) (c : ℕ)
      → mode ≡ service.booking_mode
      → ((n : ℕ)
          → cap ≡ some (some n)
          → active_booking_count e.hold e.now service.id db.bookings ≤ n)
      → mode ≡ slot_capacity
      → with_default cap service.max_capacity ≡ some c
      → active_booking_count e.hold e.now service.id db.bookings ≤ c
  bound_of_new none c same checked slot bound =
      safe.fits service.id service c found (sym same ∙ slot) bound
  bound_of_new (some none) c same checked slot bound = absurd (ground arith)
  bound_of_new (some (some n)) c same checked slot bound = ground (arith, checked n refl)

  store_service-CapacitySafe :
      (cap : Option (Option ℕ))
      → ((mode ≡ service.booking_mode) ⊎ (has_bookings service.id db ≡ false))
      → ((n : ℕ)
          → mode ≡ slot_capacity
          → cap ≡ some (some n)
          → active_booking_count e.hold e.now service.id db.bookings ≤ n)
      → CapacitySafe e.hold e.now (store_service (updated_service u cap service) db)
  unfolding store_service updated_service
  store_service-CapacitySafe cap kept checked = record {
    fits = λ k x c f slot bound.
        elim (first-update_service k service.id (updated_service u cap service) db.services x f
          refl) [
            | inr old ↦ safe.fits k x c old slot bound
            | inl (at, same) ↦
                let slot' : mode ≡ slot_capacity =
                  ap (λ (y : Services). y.booking_mode) (sym same) ∙ slot in
                let bound' : with_default cap service.max_capacity ≡ some c =
                  ap (λ (y : Services). y.max_capacity) (sym same) ∙ bound in
                subst (λ n. active_booking_count e.hold e.now n db.bookings ≤ c) (sym at)
                  (elim kept [
                    | inl m ↦ bound_of_new cap c m (λ n. checked n slot') slot' bound'
                    | inr empty ↦ omega (arith, no_bookings-count e service.id db.bookings empty)
                  ])
          ];
  }

-- Whoever updates whatever field, no service is oversold afterwards.
module _ (e : Env) (u : ServiceUpdate) (user : User) (s : Session) where
  checked_cap :
      (k : ℕ) (cap : Option (Option ℕ)) (m : BookingMode) (n : ℕ)
      → (check_capacity e k cap m s).0 ≡ ok tt
      → m ≡ slot_capacity
      → cap ≡ some (some n)
      → active_booking_count e.hold e.now k s.db.bookings ≤ n
  checked_cap k cap m n h slot given = check_capacity-bound e k n s (
      subst (λ c. (check_capacity e k c slot_capacity s).0 ≡ ok tt) given
        (subst (λ x. (check_capacity e k cap x s).0 ≡ ok tt) slot h))

  update_checked-CapacitySafe :
      (service : Services)
      → first (has_service_id service.id) s.db.services ≡ some service
      → Both (CapacitySafe e.hold e.now) s
      → (cap : Option (Option ℕ)) → (check_mode service u.max_capacity u.booking_mode s).0 ≡ ok cap
      → (check_capacity e service.id cap (with_default u.booking_mode service.booking_mode) s).0
        ≡ ok tt
      → CapacitySafe e.hold e.now (store_service (updated_service u cap service) s.db)
  update_checked-CapacitySafe service found h cap m c =
      store_service-CapacitySafe e s.db u service h.seen found cap
        (elim (check_mode-cases service u.max_capacity u.booking_mode s cap m) [
          | inl same ↦ inl same.0
          | inr empty ↦ inr empty
        ])
        (λ n slot given.
          checked_cap service.id cap (with_default u.booking_mode service.booking_mode) n c slot
            given)

update_found-Both :
    {P : Db → Type 0} (e : Env) (service : Services) (u : ServiceUpdate) (user : User) (s : Session)
    → ((cap : Option (Option ℕ))
        → (check_mode service u.max_capacity u.booking_mode s).0 ≡ ok cap
        → (check_capacity e service.id cap (with_default u.booking_mode service.booking_mode) s).0
          ≡ ok tt
        → P (store_service (updated_service u cap service) s.db))
    → Both P s
    → Both P (update_found e service u user s).1
unfolding update_found
update_found-Both e service u user s stored h =
    elim (Result-cases (check_mode service u.max_capacity u.booking_mode s).0) [
      | inr (f, q) ↦ ground (
        arith,
        check_location-state u.location_id user s,
        check_mode-state service u.max_capacity u.booking_mode s,
      )
      | inl (cap, q) ↦ ground (
        arith,
        check_location-state u.location_id user s,
        check_mode-state service u.max_capacity u.booking_mode s,
        check_capacity-state e service.id cap (with_default u.booking_mode service.booking_mode) s,
        check_times-state e service u s,
        stored cap q,
      )
    ]

update_service-Both :
    {P : Db → Type 0} (e : Env) (k : ℕ) (u : ServiceUpdate) (user : User) (s : Session)
    → ((service : Services) (cap : Option (Option ℕ))
        → first (has_service_id service.id) s.db.services ≡ some service
        → (check_mode service u.max_capacity u.booking_mode s).0 ≡ ok cap
        → (check_capacity e service.id cap (with_default u.booking_mode service.booking_mode) s).0
          ≡ ok tt
        → P (store_service (updated_service u cap service) s.db))
    → Both P s
    → Both P (update_service e k u user s).1
unfolding update_service
update_service-Both e k u user s stored h = elim (Option-cases (active_service k s.db)) [
  | inl q ↦ ground arith
  | inr (service, q) ↦ ground (
    arith,
    update_found-Both e service u user s
        (λ cap. stored service cap (active_service-found k s.db service q)) h,
  )
]

-- An update keeps the capacity of every service at or above its live bookings.
pub update_service-CapacitySafe :
    (e : Env) (k : ℕ) (u : ServiceUpdate) (user : User) (s : Session)
    → Both (CapacitySafe e.hold e.now) s
    → Both (CapacitySafe e.hold e.now) (update_service e k u user s).1
update_service-CapacitySafe e k u user s h =
    update_service-Both e k u user s
      (λ service cap found m c. update_checked-CapacitySafe e u user s service found h cap m c) h

pub update_service-SeatSafe :
    (e : Env) (k : ℕ) (u : ServiceUpdate) (user : User) (s : Session)
    → Both SeatSafe s
    → Both SeatSafe (update_service e k u user s).1
unfolding store_service
update_service-SeatSafe e k u user s h =
    update_service-Both e k u user s (λ service cap found m c. h.seen) h
