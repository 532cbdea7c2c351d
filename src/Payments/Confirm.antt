-- ===== src/Payments/Confirm.antt =====
-- `confirm_booking_and_invoice` of app/routers/payments.py, and the test of a claim on the
-- inventory that the webhook and the sweeper make first.
use event_booking_ticketing.Bookings.{item_id}
use event_booking_ticketing.Model.{
  succeeded, slot_capacity, unit_assigned, is_reserved, is_held, invoices_payment, is_pending,
  has_service_id, has_user_id, InvoiceNumber, Services, Db, Payment, is_confirmed, User,
  BookingMode, InventoryItems, Booking,
}
use event_booking_ticketing.Env.{Env}
use event_booking_ticketing.Common.{
  leb, none, all, select, is_empty, ◌&&◌, not, first, length, ◌==◌, order_by, ◌||◌, sum_by, some,
  if◌then◌else◌, mem, true, false, List, Bool, Option, ℕ,
}
use event_booking_ticketing.Session.{
  send_invoice_email, commit, pure, unhandled, invalidate_services_cache, modify, or_raise,
  add_task, ◌>>=◌, ◌>>◌, query, Action,
}
use event_booking_ticketing.Payments.Changes.{set_payment_status, confirm_booking, add_invoice}
use Prim.Native.String.{String}

abbrev pub is_text : String → Bool
is_text String.[] = false
is_text (String.◌∷◌ c s) = true

abbrev has_email : Option User → Bool
has_email none = false
has_email (some user) = is_text user.email

-- `booking.user and booking.user.email`
unfoldable pub is_reachable : Booking → Db → Bool
is_reachable b db = has_email (first (has_user_id b.user_id) db.users)

abbrev invoice_number_of : Env → Payment → Db → InvoiceNumber
invoice_number_of e p db = elim (first (invoices_payment p.id) db.invoices) [
  | none ↦ record { year = e.year; payment_id = p.id }
  | some invoice ↦ invoice.invoice_number
]

-- The cache is invalidated only where the caller hands background tasks over.
unfoldable pub notify_confirmed : Bool → Booking → Payment → InvoiceNumber → Action (Unit {0})
notify_confirmed background b p number = do
  if background then add_task (invalidate_services_cache b.service_id) else pure tt
  reachable ← query (is_reachable b)
  if reachable then add_task (send_invoice_email b.id number p.amount) else pure tt

unfoldable pub confirm_booking_and_invoice : Env → Bool → Booking → Payment → Action (Unit {0})
confirm_booking_and_invoice e background b p = do
  number ← query (invoice_number_of e p)
  modify (set_payment_status succeeded p.id)
  modify (confirm_booking b)
  modify (add_invoice e p)
  commit
  notify_confirmed background b p number

-- `db.query(InventoryItems).filter(InventoryItems.id.in_(unit_ids))…all()`
abbrev pub is_unit : List ℕ → InventoryItems → Bool
is_unit ids i = mem i.id ids

abbrev pub locked_seats : Booking → Db → List InventoryItems
locked_seats b db = order_by item_id (select (is_unit b.assigned_units) db.items)

abbrev pub are_reserved : Booking → Db → Bool
are_reserved b db =
    (length (locked_seats b db) == length b.assigned_units)
    && all (λ i. is_reserved i.status) (locked_seats b db)

-- CONFIRMED, or this booking, or PENDING within the hold.
abbrev pub is_claiming : Env → ℕ → Booking → Bool
is_claiming e k b =
    is_confirmed b.status || ((b.id == k) || (is_pending b.status && is_held e.hold e.now b))

abbrev pub claimed_quantity : Env → ℕ → ℕ → Booking → ℕ
claimed_quantity e service_id k b =
    if (b.service_id == service_id) && is_claiming e k b then b.quantity else 0

abbrev pub claimed_count : Env → Booking → Db → ℕ
claimed_count e b db = sum_by (claimed_quantity e b.service_id b.id) db.bookings

-- `active_booking_count <= max_cap`, which raises where `max_cap` is None.
unfoldable pub fits_capacity : Env → Booking → Services → Action Bool
fits_capacity e b service = do
  cap ← or_raise service.max_capacity unhandled
  query (λ db. leb (claimed_count e b db) cap)

abbrev pub service_of : Booking → Db → Option Services
service_of b db = first (has_service_id b.service_id) db.services

-- The webhook's test of a PENDING booking: no seats are no claim.
unfoldable pub can_confirm_in_mode : BookingMode → Env → Booking → Services → Action Bool
can_confirm_in_mode unit_assigned e b service =
    query (λ db. not (is_empty b.assigned_units) && are_reserved b db)
can_confirm_in_mode slot_capacity e b service = fits_capacity e b service

-- The sweeper has its own text of these tests. Its seats:
abbrev pub late_locked_seats : Booking → Db → List InventoryItems
late_locked_seats b db = order_by item_id (select (is_unit b.assigned_units) db.items)

abbrev pub are_still_reserved : Booking → Db → Bool
are_still_reserved b db =
    (length (late_locked_seats b db) == length b.assigned_units)
    && all (λ unit. is_reserved unit.status) (late_locked_seats b db)

-- Its count: the bookings of the event that are CONFIRMED, this one, and PENDING within the hold.
abbrev pub late_quantity : Env → Booking → Booking → ℕ
late_quantity e b x =
    if (x.service_id == b.service_id)
      && (is_confirmed x.status
          || ((x.id == b.id) || (is_pending x.status && is_held e.hold e.now x)))
    then x.quantity
    else 0

unfoldable pub still_fits_capacity : Env → Booking → Services → Action Bool
still_fits_capacity e b service = do
  max_cap ← or_raise service.max_capacity unhandled
  query (λ db. leb (sum_by (late_quantity e b) db.bookings) max_cap)

-- Its test of a PENDING booking, which does not look for an empty list of seats.
unfoldable pub can_confirm_late_in_mode : BookingMode → Env → Booking → Services → Action Bool
can_confirm_late_in_mode unit_assigned e b service = query (are_still_reserved b)
can_confirm_late_in_mode slot_capacity e b service = still_fits_capacity e b service
