-- ===== src/Payments/Changes.antt =====
-- The changes that app/routers/payments.py and app/core/tasks.py make to the tables.
use event_booking_ticketing.Common.{
  ℕ, ◌+◌, String, Bool, not, ◌&&◌, List, [], ◌∷◌, if◌then◌else◌, first, update, any, mem, is_some,
  ◌==◌,
}
use event_booking_ticketing.Model.{
  Db, Booking, Payment, InventoryItems, BookingStatus, PaymentStatus, IntentId, ItemStatus,
  confirmed, cancelled, booked, available, is_reserved, has_booking_id, has_payment_id,
  invoices_payment, cancels_booking, set_status, has_intent,
}
use event_booking_ticketing.Env.{Env}

-- `payment.status = st`
unfoldable pub set_payment_status : PaymentStatus → ℕ → Db → Db
set_payment_status st k db = record db {
  payments = update (has_payment_id k) (λ p. record p { status = st }) db.payments;
}

-- `booking.status = st`
unfoldable pub set_booking_status : BookingStatus → ℕ → Db → Db
set_booking_status st k db = record db {
  bookings = update (has_booking_id k) (λ b. record b { status = st }) db.bookings;
}

-- `for unit in booking.assigned_units: unit.status = st`
unfoldable pub set_unit_statuses : ItemStatus → List ℕ → Db → Db
set_unit_statuses st ids db = record db { items = set_status st ids db.items }

abbrev pub free_reserved : List ℕ → List InventoryItems → List InventoryItems
free_reserved ids [] = []
free_reserved ids (i ∷ is) =
    (if mem i.id ids && is_reserved i.status then record i { status = available } else i)
    ∷ free_reserved ids is

-- The same, of the units that are RESERVED.
unfoldable pub free_reserved_units : List ℕ → Db → Db
free_reserved_units ids db = record db { items = free_reserved ids db.items }

-- The booking becomes CONFIRMED and its seats BOOKED.
unfoldable pub confirm_booking : Booking → Db → Db
unfolding set_booking_status set_unit_statuses
confirm_booking b db =
    set_unit_statuses booked b.assigned_units (set_booking_status confirmed b.id db)

-- The booking becomes CANCELLED and its seats AVAILABLE.
unfoldable pub release_booking : Booking → Db → Db
unfolding set_booking_status set_unit_statuses
release_booking b db =
    set_unit_statuses available b.assigned_units (set_booking_status cancelled b.id db)

-- An invoice for the payment, unless there is one.
unfoldable pub add_invoice : Env → Payment → Db → Db
add_invoice e p db = if is_some (first (invoices_payment p.id) db.invoices) then db else record db {
  invoices =
      record {
        id = db.next_invoice_id;
        payment_id = p.id;
        invoice_number = record { year = e.year; payment_id = p.id };
      }
      ∷ db.invoices;
  next_invoice_id = db.next_invoice_id + 1;
}

abbrev pub is_cancellation_recorded : ℕ → Db → Bool
is_cancellation_recorded booking_id db =
    is_some (first (cancels_booking booking_id) db.cancellations)

unfoldable pub insert_cancellation : ℕ → ℕ → String → Db → Db
insert_cancellation booking_id amount reason db = record db {
  cancellations =
      record {
        id = db.next_cancellation_id;
        booking_id = booking_id;
        refund_amount = amount;
        reason = reason;
      }
      ∷ db.cancellations;
  next_cancellation_id = db.next_cancellation_id + 1;
}

-- The same, unless the booking has one.
unfoldable pub record_cancellation : ℕ → ℕ → String → Db → Db
unfolding insert_cancellation
record_cancellation booking_id amount reason db =
    if is_cancellation_recorded booking_id db
    then db
    else insert_cancellation booking_id amount reason db

unfoldable pub insert_payment : Payment → Db → Db
insert_payment p db = record db {
  payments = p ∷ db.payments;
  next_payment_id = db.next_payment_id + 1;
}

-- The columns that a new payment intent changes.
unfoldable pub replace_payment : Payment → Db → Db
replace_payment p db = record db { payments = update (has_payment_id p.id) (λ q. p) db.payments }

-- The unique key of `payments.stripe_payment_intent_id`: another row has the id.
abbrev pub is_intent_taken : IntentId → ℕ → Db → Bool
is_intent_taken pid k db = any (λ p. has_intent pid p && not (p.id == k)) db.payments
