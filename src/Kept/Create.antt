-- ===== src/Kept/Create.antt =====
-- Properties that `create_booking` keeps, with what its tests establish first.
use event_booking_ticketing.Inventory.Rooms.{is_taken}
use event_booking_ticketing.Session.{Both, Session}
use event_booking_ticketing.Bookings.{
  create_for, tier_of_service, is_given, seats_booking, hold_seats, slot_booking, active_service,
  insert_booking, requested_seats, create_slot_capacity, create_booking, create_unit_assigned,
  create_in_mode, BookingCreate,
}
use event_booking_ticketing.Env.{Env}
use event_booking_ticketing.Model.{
  slot_capacity, active_booking_count, ServiceTier, unit_assigned, BookingMode, Services, User, Db,
}
use event_booking_ticketing.Common.{
  none, if◌then◌else◌, inr, refl, inl, Option-cases, arith, true, distinct, ◌+◌, false, some, any,
  Option, ◌≡◌, ◌≤◌, ℕ,
}

module _ {P : Db → Type 0} (e : Env) (req : BookingCreate) (user : User) (s : Session) where
  create_unit_assigned-Both :
      (service : Services)
      → (let seats = requested_seats req.assigned_unit_ids service.id s.db in
          any is_taken seats ≡ false
          → distinct req.assigned_unit_ids ≡ true
          → P (hold_seats (seats_booking e req user service seats s.db) s.db))
      → Both P s
      → Both P (create_unit_assigned e req user service s).1
  unfolding create_unit_assigned
  create_unit_assigned-Both service step h = ground arith

  create_slot_capacity-Both :
      (service : Services) (tier : Option ServiceTier)
      → ((cap : ℕ)
          → service.max_capacity ≡ some cap
          → active_booking_count e.hold e.now service.id s.db.bookings + req.quantity ≤ cap
          → P (insert_booking (slot_booking e req user service tier s.db) s.db))
      → Both P s
      → Both P (create_slot_capacity e req user service tier s).1
  unfolding create_slot_capacity
  create_slot_capacity-Both service tier step h = elim (Option-cases service.max_capacity) [
    | inl q ↦ ground arith
    | inr (cap, q) ↦ ground (arith, step cap)
  ]

  create_in_mode-Both :
      (mode : BookingMode) (service : Services) (tier : Option ServiceTier)
      → (mode ≡ unit_assigned
          → let seats = requested_seats req.assigned_unit_ids service.id s.db in
            any is_taken seats ≡ false
            → distinct req.assigned_unit_ids ≡ true
            → P (hold_seats (seats_booking e req user service seats s.db) s.db))
      → (mode ≡ slot_capacity
          → (cap : ℕ) → service.max_capacity ≡ some cap
          → active_booking_count e.hold e.now service.id s.db.bookings + req.quantity ≤ cap
          → P (insert_booking (slot_booking e req user service tier s.db) s.db))
      → Both P s
      → Both P (create_in_mode mode e req user service tier s).1
  unfolding create_in_mode
  create_in_mode-Both unit_assigned service tier units slots h =
      create_unit_assigned-Both service (units refl) h
  create_in_mode-Both slot_capacity service tier units slots h =
      create_slot_capacity-Both service tier (slots refl) h

  create_for-Both :
      (service : Services)
      → (service.booking_mode ≡ unit_assigned
          → let seats = requested_seats req.assigned_unit_ids service.id s.db in
            any is_taken seats ≡ false
            → distinct req.assigned_unit_ids ≡ true
            → P (hold_seats (seats_booking e req user service seats s.db) s.db))
      → ((tier : Option ServiceTier) (cap : ℕ)
          → service.booking_mode ≡ slot_capacity
          → service.max_capacity ≡ some cap
          → active_booking_count e.hold e.now service.id s.db.bookings + req.quantity ≤ cap
          → P (insert_booking (slot_booking e req user service tier s.db) s.db))
      → Both P s
      → Both P (create_for e req user service s).1
  unfolding create_for
  create_for-Both service units slots h =
      let tier : Option ServiceTier =
        if is_given req.tier_id then tier_of_service req.tier_id service.id s.db else none in
      ground (
        arith,
        create_in_mode-Both service.booking_mode service tier units (λ m cap. slots tier cap m) h,
      )

  pub create_booking-Both :
      ((service : Services)
        → active_service req.service_id s.db ≡ some service
        → service.booking_mode ≡ unit_assigned
        → let seats = requested_seats req.assigned_unit_ids service.id s.db in
          any is_taken seats ≡ false
          → distinct req.assigned_unit_ids ≡ true
          → P (hold_seats (seats_booking e req user service seats s.db) s.db))
      → ((service : Services) (tier : Option ServiceTier) (cap : ℕ)
          → active_service req.service_id s.db ≡ some service
          → service.booking_mode ≡ slot_capacity
          → service.max_capacity ≡ some cap
          → active_booking_count e.hold e.now service.id s.db.bookings + req.quantity ≤ cap
          → P (insert_booking (slot_booking e req user service tier s.db) s.db))
      → Both P s
      → Both P (create_booking e req user s).1
  unfolding create_booking
  create_booking-Both units slots h = elim (Option-cases (active_service req.service_id s.db)) [
    | inl q ↦ ground arith
    | inr (service, q) ↦
        ground (
          arith,
          create_for-Both service (units service q) (λ tier cap. slots service tier cap q) h,
        )
  ]
