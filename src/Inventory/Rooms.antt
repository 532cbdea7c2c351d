-- ===== src/Inventory/Rooms.antt =====
-- How the seats' statuses and the bookings' claims on the seats are counted, and how each update
-- of the tables changes the two counts.
use event_booking_ticketing.Payments.Changes.{free_reserved}
use event_booking_ticketing.Common.{
  ℕ, ◌≤◌, ◌<◌, ◌≡◌, refl, Bool, true, false, not, List, [], ◌∷◌, map, arith, ◌==◌, if◌then◌else◌,
  select, sum_by, any, mem, count, order_by, sum_by-order_by, ==→eq,
}
use event_booking_ticketing.Model.{
  InventoryItems, Booking, ItemStatus, available, reserved, booked, is_cancelled, is_available,
  set_status,
}
use event_booking_ticketing.Bookings.{item_id}

-- A RESERVED or BOOKED seat has room for one booking, any other for none.
abbrev pub occupied : ItemStatus → ℕ
occupied reserved = 1
occupied booked = 1
occupied _ = 0

abbrev pub seat_room : ℕ → List InventoryItems → ℕ
seat_room u [] = 0
seat_room u (i ∷ is) = if i.id == u then occupied i.status else seat_room u is

-- How often a booking that is not CANCELLED holds the seat.
abbrev pub held_units : ℕ → Booking → ℕ
held_units u b = if is_cancelled b.status then 0 else count u b.assigned_units

abbrev pub holders : ℕ → List Booking → ℕ
holders u bs = sum_by (held_units u) bs

-- The ids of a table fall strictly, below a bound: no id occurs twice.
abbrev pub Keyed : ℕ → List InventoryItems → Type 0
Keyed n [] = Unit
Keyed n (i ∷ is) = (i.id < n) × Keyed i.id is

pub seat_room-le : (u : ℕ) (is : List InventoryItems) → seat_room u is ≤ 1
seat_room-le u [] = omega arith
seat_room-le u (i ∷ is) = ground (arith, seat_room-le u is)

pub seat_room-booked :
    (u : ℕ) (ids : List ℕ) (is : List InventoryItems)
    → seat_room u is ≤ seat_room u (set_status booked ids is)
seat_room-booked u ids [] = omega arith
seat_room-booked u ids (i ∷ is) = ground (arith, seat_room-booked u ids is)

pub seat_room-reserved :
    (u : ℕ) (ids : List ℕ) (is : List InventoryItems)
    → seat_room u is ≤ seat_room u (set_status reserved ids is)
seat_room-reserved u ids [] = omega arith
seat_room-reserved u ids (i ∷ is) = ground (arith, seat_room-reserved u ids is)

-- Freeing seats leaves the room of every other seat.
pub seat_room-available :
    (u : ℕ) (ids : List ℕ) (is : List InventoryItems)
    → mem u ids ≡ false
    → seat_room u (set_status available ids is) ≡ seat_room u is
seat_room-available u ids [] h = refl
seat_room-available u ids (i ∷ is) h = ground (arith, seat_room-available u ids is, ==→eq i.id u)

pub seats_of : List InventoryItems → List ℕ
seats_of is = map item_id is

one_if : ℕ → InventoryItems → ℕ
one_if u i = if i.id == u then 1 else 0

count-map : (u : ℕ) (is : List InventoryItems) → count u (map item_id is) ≡ sum_by (one_if u) is
unfolding one_if
count-map u [] = refl
count-map u (i ∷ is) = omega (arith, count-map u is)

pub count-order_by :
    (u : ℕ) (is : List InventoryItems)
    → count u (map item_id (order_by item_id is)) ≡ count u (map item_id is)
count-order_by u is = omega (
  arith,
  count-map u is,
  count-map u (order_by item_id is),
  sum_by-order_by (one_if u) item_id is,
)

-- Ids below the bound of a keyed table are not above it.
count_above :
    (u n : ℕ) (p : InventoryItems → Bool) (is : List InventoryItems)
    → Keyed n is
    → n ≤ u
    → count u (map item_id (select p is)) ≡ 0
count_above u n p [] k h = refl
count_above u n p (i ∷ is) k h = ground (arith, count_above u i.id p is)

pub count-select-le :
    (u n : ℕ) (p : InventoryItems → Bool) (is : List InventoryItems)
    → Keyed n is
    → count u (map item_id (select p is)) ≤ 1
count-select-le u n p [] k = omega arith
count-select-le u n p (i ∷ is) k =
    ground (arith, count-select-le u i.id p is, count_above u i.id p is, ==→eq i.id u)

abbrev pub is_taken : InventoryItems → Bool
is_taken i = not (is_available i.status)

-- A seat among rows that are all AVAILABLE has no room before, and has room once RESERVED.
pub available-no-room :
    (u n : ℕ) (p : InventoryItems → Bool) (is : List InventoryItems)
    → Keyed n is
    → any is_taken (select p is) ≡ false
    → 1 ≤ count u (map item_id (select p is))
    → seat_room u is ≡ 0
available-no-room u n p [] k h c = omega arith
available-no-room u n p (i ∷ is) k h c =
    ground (arith, available-no-room u i.id p is, count_above u i.id p is, ==→eq i.id u)

pub reserved-room :
    (u : ℕ) (ids : List ℕ) (p : InventoryItems → Bool) (is : List InventoryItems)
    → mem u ids ≡ true
    → 1 ≤ count u (map item_id (select p is))
    → seat_room u (set_status reserved ids is) ≡ 1
reserved-room u ids p [] m c = absurd (omega arith)
reserved-room u ids p (i ∷ is) m c = ground (arith, reserved-room u ids p is, ==→eq i.id u)

pub seat_room-free_reserved :
    (u : ℕ) (ids : List ℕ) (is : List InventoryItems)
    → mem u ids ≡ false
    → seat_room u (free_reserved ids is) ≡ seat_room u is
seat_room-free_reserved u ids [] h = refl
seat_room-free_reserved u ids (i ∷ is) h =
    ground (arith, seat_room-free_reserved u ids is, ==→eq i.id u)

pub set_status-Keyed :
    (st : ItemStatus) (ids : List ℕ) (n : ℕ) (is : List InventoryItems)
    → Keyed n is
    → Keyed n (set_status st ids is)
set_status-Keyed st ids n [] k = tt
set_status-Keyed st ids n (i ∷ is) k = ground (arith, set_status-Keyed st ids i.id is)

pub free_reserved-Keyed :
    (ids : List ℕ) (n : ℕ) (is : List InventoryItems) → Keyed n is → Keyed n (free_reserved ids is)
free_reserved-Keyed ids n [] k = tt
free_reserved-Keyed ids n (i ∷ is) k = ground (arith, free_reserved-Keyed ids i.id is)
