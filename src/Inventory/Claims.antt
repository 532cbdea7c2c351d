-- ===== src/Inventory/Claims.antt =====
-- `SeatSafe`, the invariant on the seats, under each change that the handlers make to the tables.
use event_booking_ticketing.Payments.Webhook.{auto_refund_reason, withdraw_booking}
use event_booking_ticketing.Env.{Env}
use event_booking_ticketing.Kept.Basics.{recorded_once, Stable}
use event_booking_ticketing.Bookings.{
  insert_booking, slot_booking, BookingCreate, item_id, seats_booking, hold_seats, is_requested,
  requested_seats,
}
use event_booking_ticketing.Inventory.Rooms.{
  free_reserved-Keyed, seat_room-free_reserved, seat_room-reserved, reserved-room,
  available-no-room, count-select-le, count-order_by, seat_room-available, set_status-Keyed,
  seat_room-le, seat_room-booked, held_units, Keyed, seat_room, holders, is_taken,
}
use event_booking_ticketing.Model.{
  ServiceTier, Payment, available, booked, Services, confirmed, User, cancelled, reserved,
  set_status, invoices_payment, is_cancelled, is_pending, BookingStatus, has_booking_id,
  InventoryItems, Booking, Db,
}
use event_booking_ticketing.Payments.Changes.{
  free_reserved_units, set_unit_statuses, release_booking, set_booking_status, confirm_booking,
  insert_cancellation, add_invoice, replace_payment, insert_payment, set_payment_status,
}
use event_booking_ticketing.Common.{
  Option, count-not-mem, inr, ◌∙◌, any-order_by, sym, mem-count, inl, mem, Bool-cases,
  sum_by-update, true, arith, is_some, ◌+◌, if-cases, map, count, some, false, ◌≡◌, ◌≤◌, select,
  first, any, List, ℕ,
}

pub record SeatClaims (bookings : List Booking) (items : List InventoryItems) (next_id : ℕ)
    : Type 0 where
  pub bounded : (u : ℕ) → holders u bookings ≤ seat_room u items
  pub keyed : Keyed next_id items

abbrev pub SeatSafe : Db → Type 0
SeatSafe db = SeatClaims db.bookings db.items db.next_item_id

pub SeatSafe-Stable : Stable SeatSafe
unfolding set_payment_status insert_payment replace_payment add_invoice insert_cancellation
SeatSafe-Stable = record {
  status_set = λ st k db h. h;
  inserted = λ p db h. h;
  replaced = λ p db h. h;
  invoiced = λ e p db h.
      if-cases SeatSafe (is_some (first (invoices_payment p.id) db.invoices)) (λ _. h) (λ _. h);
  recorded = λ k amount reason db h. h;
}

-- A booking of general admission holds no seat.
pub slot_booking-SeatSafe :
    (e : Env) (req : BookingCreate) (user : User) (service : Services) (tier : Option ServiceTier)
    (db : Db)
    → SeatSafe db
    → SeatSafe (insert_booking (slot_booking e req user service tier db) db)
unfolding slot_booking
slot_booking-SeatSafe e req user service tier db safe = record {
  bounded = λ u. omega (arith, safe.bounded u);
  keyed = safe.keyed;
}

module _ (db : Db) (ids : List ℕ) (service_id : ℕ) (safe : SeatSafe db) where
  abbrev seats : List InventoryItems
  seats = requested_seats ids service_id db

  abbrev rows : List InventoryItems
  rows = select (is_requested ids service_id) db.items

  module _ (free : any is_taken seats ≡ false) where
    hold_one :
        (u : ℕ)
        → count u (map item_id seats) + holders u db.bookings
          ≤ seat_room u (set_status reserved (map item_id seats) db.items)
    hold_one u = elim (Bool-cases (mem u (map item_id seats))) [
      | inl m ↦ omega (
        arith,
        safe.bounded u,
        count-order_by u rows,
        count-select-le u db.next_item_id (is_requested ids service_id) db.items safe.keyed,
        mem-count u (map item_id seats) m,
        available-no-room u db.next_item_id (is_requested ids service_id) db.items safe.keyed
            (sym (any-order_by is_taken item_id rows) ∙ free),
        reserved-room u (map item_id seats) (is_requested ids service_id) db.items m,
      )
      | inr m ↦ omega (
        arith,
        safe.bounded u,
        count-not-mem u (map item_id seats) m,
        seat_room-reserved u (map item_id seats) db.items,
      )
    ]

    pub hold_seats-SeatSafe :
        (e : Env) (req : BookingCreate) (user : User) (service : Services)
        → SeatSafe (hold_seats (seats_booking e req user service seats db) db)
    unfolding hold_seats seats_booking
    hold_seats-SeatSafe e req user service = record {
      bounded = hold_one;
      keyed = set_status-Keyed reserved (map item_id seats) _ db.items safe.keyed;
    }

module _ (db : Db) (b : Booking) (found : first (has_booking_id b.id) db.bookings ≡ some b)
    (safe : SeatSafe db) where
  after :
      (st : BookingStatus) (u : ℕ)
      → holders u (set_booking_status st b.id db).bookings + held_units u b
        ≡ holders u db.bookings + held_units u (record b { status = st })
  unfolding set_booking_status
  after st u =
      sum_by-update (held_units u) (has_booking_id b.id) (λ x. record x { status = st }) db.bookings
        b found

  pub confirm_booking-SeatSafe : is_pending b.status ≡ true → SeatSafe (confirm_booking b db)
  unfolding confirm_booking set_booking_status set_unit_statuses
  confirm_booking-SeatSafe p = record {
    bounded = λ u.
        ground
          (arith, after confirmed u, safe.bounded u, seat_room-booked u b.assigned_units db.items);
    keyed = set_status-Keyed booked b.assigned_units _ db.items safe.keyed;
  }

  pub release_booking-SeatSafe : is_cancelled b.status ≡ false → SeatSafe (release_booking b db)
  unfolding release_booking set_booking_status set_unit_statuses
  release_booking-SeatSafe p = record {
    bounded = λ u. ground (
      arith,
      after cancelled u,
      safe.bounded u,
      seat_room-le u db.items,
      Bool-cases (mem u b.assigned_units),
      mem-count u b.assigned_units,
      seat_room-available u b.assigned_units db.items,
    );
    keyed = set_status-Keyed available b.assigned_units _ db.items safe.keyed;
  }

  pub withdraw_booking-SeatSafe : (p : Payment) → SeatSafe (withdraw_booking p b db)
  unfolding withdraw_booking set_booking_status free_reserved_units
  withdraw_booking-SeatSafe p = recorded_once SeatSafe-Stable b.id p.amount auto_refund_reason _ (
      if-cases SeatSafe (is_pending b.status)
        (λ q. record {
          bounded = λ u. ground (
            arith,
            after cancelled u,
            safe.bounded u,
            seat_room-le u db.items,
            Bool-cases (mem u b.assigned_units),
            mem-count u b.assigned_units,
            seat_room-free_reserved u b.assigned_units db.items,
          );
          keyed = free_reserved-Keyed b.assigned_units _ db.items safe.keyed;
        })
        (λ q. record {
          bounded = λ u. ground (arith, after cancelled u, safe.bounded u);
          keyed = safe.keyed;
        }))
