-- ===== src/Bookings/Limits.antt =====
-- The limits against hoarding, as `create_booking` keeps them.

use event_booking_ticketing.Session.{Result, ok, Session}
use event_booking_ticketing.Env.{Env}
use event_booking_ticketing.Model.{
  slot_capacity, unit_assigned, has_booking_id, ServiceTier, Booking, Services, User, BookingMode,
}
use event_booking_ticketing.Bookings.{
  create_for, tier_of_service, is_given, active_service, max_pending_holds_per_user,
  max_tickets_per_booking, active_user_holds, requested_qty, BookingCreate, hold_seats,
  slot_booking, seats_booking, create_slot_capacity, create_in_mode, create_booking,
  create_unit_assigned,
}
use event_booking_ticketing.Common.{
  ◌<◌, ◌∙◌, sym, ap, none, if◌then◌else◌, inr, ==-refl, inl, Option-cases, arith, ◌+◌, some, ◌≤◌,
  first, ◌≡◌, Option,
}

unit_limits :
    (e : Env) (req : BookingCreate) (user : User) (service : Services) (s : Session) (b : Booking)
    → (create_unit_assigned e req user service s).0 ≡ ok b
    → (b.quantity ≡ requested_qty req)
      × (active_user_holds e user.id (create_unit_assigned e req user service s).1.saved
          ≤ active_user_holds e user.id s.db + 1)
      × (first (has_booking_id b.id) (create_unit_assigned e req user service s).1.saved.bookings
          ≡ some b)
unfolding create_unit_assigned seats_booking hold_seats requested_qty
unit_limits e req user service s b h = ground (arith, ==-refl b.id)

slot_limits :
    (e : Env) (req : BookingCreate) (user : User) (service : Services) (tier : Option ServiceTier)
    (s : Session) (b : Booking)
    → (create_slot_capacity e req user service tier s).0 ≡ ok b
    → (b.quantity ≡ requested_qty req)
      × (active_user_holds e user.id (create_slot_capacity e req user service tier s).1.saved
          ≤ active_user_holds e user.id s.db + 1)
      × (first
            (has_booking_id b.id)
            (create_slot_capacity e req user service tier s).1.saved.bookings
          ≡ some b)
unfolding create_slot_capacity slot_booking requested_qty
slot_limits e req user service tier s b h = elim (Option-cases service.max_capacity) [
  | inl q ↦ ground arith
  | inr (cap, q) ↦ ground (arith, ==-refl b.id)
]

mode_limits :
    (m : BookingMode) (e : Env) (req : BookingCreate) (user : User) (service : Services)
    (tier : Option ServiceTier) (s : Session) (b : Booking)
    → (create_in_mode m e req user service tier s).0 ≡ ok b
    → (b.quantity ≡ requested_qty req)
      × (active_user_holds e user.id (create_in_mode m e req user service tier s).1.saved
          ≤ active_user_holds e user.id s.db + 1)
      × (first (has_booking_id b.id) (create_in_mode m e req user service tier s).1.saved.bookings
          ≡ some b)
unfolding create_in_mode
mode_limits unit_assigned e req user service tier s b h = unit_limits e req user service s b h
mode_limits slot_capacity e req user service tier s b h = slot_limits e req user service tier s b h

for_limits :
    (e : Env) (req : BookingCreate) (user : User) (service : Services) (s : Session) (b : Booking)
    → (create_for e req user service s).0 ≡ ok b
    → (b.quantity ≡ requested_qty req)
      × (active_user_holds e user.id (create_for e req user service s).1.saved
          ≤ active_user_holds e user.id s.db + 1)
      × (first (has_booking_id b.id) (create_for e req user service s).1.saved.bookings ≡ some b)
unfolding create_for
for_limits e req user service s b h =
    let tier : Option ServiceTier =
      if is_given req.tier_id then tier_of_service req.tier_id service.id s.db else none in
    ground (arith, mode_limits service.booking_mode e req user service tier s b)

-- A booking that is created passed the first tests.
created_for :
    (e : Env) (req : BookingCreate) (user : User) (s : Session) (b : Booking)
    → (create_booking e req user s).0 ≡ ok b
    → (service : Services) × (requested_qty req ≤ max_tickets_per_booking)
      × (active_user_holds e user.id s.db < max_pending_holds_per_user)
      × (create_booking e req user s ≡ create_for e req user service s)
unfolding create_booking
created_for e req user s b h = elim (Option-cases (active_service req.service_id s.db)) [
  | inl q ↦ absurd (ground arith)
  | inr (service, q) ↦ (service, ground arith, ground arith, ground arith)
]

-- A booking that is created is committed, has the requested number of tickets, at most ten, and
-- leaves its user with at most five PENDING bookings within the hold.
pub create_booking_limits :
    (e : Env) (req : BookingCreate) (user : User) (s : Session) (b : Booking)
    → (create_booking e req user s).0 ≡ ok b
    → (first (has_booking_id b.id) (create_booking e req user s).1.saved.bookings ≡ some b)
      × (b.quantity ≡ requested_qty req)
      × (b.quantity ≤ max_tickets_per_booking)
      × (active_user_holds e user.id (create_booking e req user s).1.saved
          ≤ max_pending_holds_per_user)
create_booking_limits e req user s b h =
    let (service, few, holds, same) = created_for e req user s b h in
    let limits =
      for_limits e req user service s b
        (ap (λ (r : Result Booking × Session). r.0) (sym same) ∙ h) in
    rw same (limits.2, limits.0, ground (arith, limits.0, few), omega (arith, limits.1, holds))
