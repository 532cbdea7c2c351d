-- ===== src/Inventory/Updates.antt =====
-- The capacity under each change that the handlers make to a booking.
use event_booking_ticketing.Kept.Basics.{Claim, recorded_once, Claimed}
use event_booking_ticketing.Payments.Changes.{
  set_unit_statuses, free_reserved_units, release_booking, set_booking_status, confirm_booking,
}
use event_booking_ticketing.Payments.Webhook.{auto_refund_reason, withdraw_booking}
use event_booking_ticketing.Payments.Confirm.{claimed_quantity, claimed_count}
use event_booking_ticketing.Inventory.Capacity.{
  unit≢slot, CapacitySafe-Stable, insert_booking-CapacitySafe, Fits, CapacitySafe,
}
use event_booking_ticketing.Model.{
  BookingMode, slot_capacity, is_held, unit_assigned, active_booking_count, cancelled,
  InventoryItems, ServiceTier, confirmed, is_pending, Payment, BookingStatus, live_quantity,
  has_service_id, has_booking_id, Booking, User, Services, Db,
}
use event_booking_ticketing.Bookings.{
  insert_booking, seats_booking, slot_booking, hold_seats, BookingCreate, active_service,
}
use event_booking_ticketing.Env.{Env}
use event_booking_ticketing.Common.{
  refl, ap, if-cases, sym, ◌∙◌, first-true, ==-refl, ◌==◌, ==→eq, sum_by-mono_first, Bool-cases,
  inr, subst, true, sum_by-update, inl, ◌+◌, arith, List, Option, sum_by, Option-cases, ◌≤◌, some,
  first, ◌≡◌, ℕ,
}

pub active_service-found :
    (k : ℕ) (db : Db) (service : Services)
    → active_service k db ≡ some service
    → first (has_service_id service.id) db.services ≡ some service
unfolding active_service
active_service-found k db service h = elim (Option-cases (first (has_service_id k) db.services)) [
  | inl q ↦ absurd (ground arith)
  | inr (x, q) ↦
      let same : x ≡ service = ground arith in
      let named : service.id ≡ k =
        ==→eq service.id k (first-true (has_service_id k) db.services service (q ∙ ap some same)) in
      subst (λ n. first (has_service_id n) db.services ≡ some service) (sym named)
        (q ∙ ap some same)
]

module _ (e : Env) (req : BookingCreate) (user : User) (service : Services) (db : Db)
    (safe : CapacitySafe e.hold e.now db)
    (found : active_service req.service_id db ≡ some service) where
  pub slot_booking-CapacitySafe :
      (tier : Option ServiceTier) (cap : ℕ)
      → service.max_capacity ≡ some cap
      → active_booking_count e.hold e.now service.id db.bookings + req.quantity ≤ cap
      → CapacitySafe e.hold e.now (insert_booking (slot_booking e req user service tier db) db)
  unfolding slot_booking
  slot_booking-CapacitySafe tier cap bound h =
      insert_booking-CapacitySafe e.hold e.now db safe (slot_booking e req user service tier db)
        (λ x cap' f slot bound'.
          let same : some x ≡ some service =
            sym f ∙ active_service-found req.service_id db service found in
          ground arith)

  pub hold_seats-CapacitySafe :
      (seats : List InventoryItems)
      → service.booking_mode ≡ unit_assigned
      → CapacitySafe e.hold e.now (hold_seats (seats_booking e req user service seats db) db)
  unfolding hold_seats seats_booking
  hold_seats-CapacitySafe seats mode =
      insert_booking-CapacitySafe e.hold e.now db safe (seats_booking e req user service seats db)
        (λ x cap f slot bound.
          let same : some x ≡ some service =
            sym f ∙ active_service-found req.service_id db service found in
          absurd (ground arith))

module _ (e : Env) (db : Db) (b : Booking)
    (found : first (has_booking_id b.id) db.bookings ≡ some b)
    (safe : CapacitySafe e.hold e.now db) where
  abbrev live : ℕ → Booking → ℕ
  live k = live_quantity e.hold e.now k

  live_after :
      (st : BookingStatus) (k : ℕ)
      → sum_by (live k) (set_booking_status st b.id db).bookings + live k b
        ≡ sum_by (live k) db.bookings + live k (record b { status = st })
  unfolding set_booking_status
  live_after st k =
      sum_by-update (live k) (has_booking_id b.id) (λ x. record x { status = st }) db.bookings b
        found

  live-le-claimed : (x : Booking) → live b.service_id x ≤ claimed_quantity e b.service_id b.id x
  live-le-claimed x = ground arith

  -- A hold that has not expired counts already.
  pub confirm_held-CapacitySafe :
      is_pending b.status ≡ true
      → is_held e.hold e.now b ≡ true
      → CapacitySafe e.hold e.now (confirm_booking b db)
  unfolding confirm_booking set_booking_status set_unit_statuses
  confirm_held-CapacitySafe p held = record {
    fits = λ k service cap f slot bound.
        ground (arith, live_after confirmed k, safe.fits k service cap f slot bound);
  }

  -- One that has expired is confirmed only if it fits.
  confirm_fits :
      (k : ℕ) (cap : ℕ)
      → b.service_id ≡ k
      → claimed_count e b db ≤ cap
      → sum_by (live k) (set_booking_status confirmed b.id db).bookings ≤ cap
  confirm_fits k cap q h =
      subst (λ n. sum_by (live n) (set_booking_status confirmed b.id db).bookings ≤ cap) q
        (ground (
          arith,
          live_after confirmed b.service_id,
          sum_by-mono_first (live b.service_id) (claimed_quantity e b.service_id b.id)
              (has_booking_id b.id) db.bookings b live-le-claimed found,
          ==-refl b.id,
          ==-refl b.service_id,
        ))

  Claim-slot :
      (m : BookingMode) (service : Services)
      → Claim m e b service db
      → m ≡ slot_capacity
      → Claim slot_capacity e b service db
  Claim-slot unit_assigned service c q = absurd (unit≢slot unit_assigned refl q)
  Claim-slot slot_capacity service c q = c

  -- The capacity that the claim was tested against is that of the service.
  claim_bound :
      (k cap : ℕ) (service : Services)
      → b.service_id ≡ k
      → Claimed e b db
      → first (has_service_id k) db.services ≡ some service
      → service.booking_mode ≡ slot_capacity
      → service.max_capacity ≡ some cap
      → claimed_count e b db ≤ cap
  claim_bound k cap service q (x, fx, claim) f slot bound =
      let same : x ≡ service =
        ground (arith, subst (λ n. first (has_service_id n) db.services ≡ some x) q fx) in
      let c : Claim slot_capacity e b x db =
        Claim-slot x.booking_mode x claim (ap (λ (y : Services). y.booking_mode) same ∙ slot) in
      let caps : x.max_capacity ≡ some cap = ap (λ (y : Services). y.max_capacity) same ∙ bound in
      let cap_eq : some c.0 ≡ some cap = sym c.1 ∙ caps in ground (arith, c.2)

  pub confirm-Claimed-CapacitySafe :
      Claimed e b db → CapacitySafe e.hold e.now (confirm_booking b db)
  unfolding confirm_booking set_booking_status set_unit_statuses
  confirm-Claimed-CapacitySafe claimed = record {
    fits = λ k service cap f slot bound. elim (Bool-cases (b.service_id == k)) [
      | inl q ↦
          let same : b.service_id ≡ k = ==→eq b.service_id k q in
          confirm_fits k cap same (claim_bound k cap service same claimed f slot bound)
      | inr q ↦ ground (arith, live_after confirmed k, safe.fits k service cap f slot bound)
    ];
  }

  pub release_booking-CapacitySafe : CapacitySafe e.hold e.now (release_booking b db)
  unfolding release_booking set_booking_status set_unit_statuses
  release_booking-CapacitySafe = record {
    fits = λ k service cap f slot bound.
        ground (arith, live_after cancelled k, safe.fits k service cap f slot bound);
  }

  pub withdraw_booking-CapacitySafe :
      (p : Payment) → CapacitySafe e.hold e.now (withdraw_booking p b db)
  unfolding withdraw_booking set_booking_status free_reserved_units
  withdraw_booking-CapacitySafe p =
      recorded_once (CapacitySafe-Stable e.hold e.now) b.id p.amount auto_refund_reason _ (
        if-cases (CapacitySafe e.hold e.now) (is_pending b.status) (λ q. withdrawn)
          (λ q. withdrawn))
    where
      withdrawn : Fits e.hold e.now db.services (set_booking_status cancelled b.id db).bookings
      withdrawn = record {
        fits = λ k service cap f slot bound.
            ground (arith, live_after cancelled k, safe.fits k service cap f slot bound);
      }
