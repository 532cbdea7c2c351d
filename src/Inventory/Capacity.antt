-- ===== src/Inventory/Capacity.antt =====
-- `CapacitySafe`, the invariant on general admission: the tickets of the live bookings, those
-- CONFIRMED and those PENDING within the hold, against the capacity of the service.
use event_booking_ticketing.Kept.Basics.{Stable}
use event_booking_ticketing.Payments.Changes.{
  insert_cancellation, add_invoice, replace_payment, insert_payment, set_payment_status,
}
use event_booking_ticketing.Model.{
  invoices_payment, active_booking_count, slot_capacity, has_service_id, live_quantity,
  unit_assigned, Services, Booking, BookingMode, Db,
}
use event_booking_ticketing.Common.{
  inr, sym, subst, ==→eq, inl, ◌==◌, Bool-cases, is_some, ◌∷◌, if-cases, ◌+◌, some, ◌≢◌,
  sum_by_mono, arith, first, ◌≡◌, ◌≤◌, List, ℕ,
}

pub record Fits (hold now : ℕ) (services : List Services) (bookings : List Booking) : Type 0 where
  pub fits :
      (k : ℕ) (service : Services) (cap : ℕ)
      → first (has_service_id k) services ≡ some service
      → service.booking_mode ≡ slot_capacity
      → service.max_capacity ≡ some cap
      → active_booking_count hold now k bookings ≤ cap

abbrev pub CapacitySafe : ℕ → ℕ → Db → Type 0
CapacitySafe hold now db = Fits hold now db.services db.bookings

pub CapacitySafe-Stable : (hold now : ℕ) → Stable (CapacitySafe hold now)
unfolding set_payment_status insert_payment replace_payment add_invoice insert_cancellation
CapacitySafe-Stable hold now = record {
  status_set = λ st k db h. h;
  inserted = λ p db h. h;
  replaced = λ p db h. h;
  invoiced = λ e p db h.
      if-cases (CapacitySafe hold now) (is_some (first (invoices_payment p.id) db.invoices))
        (λ _. h) (λ _. h);
  recorded = λ k amount reason db h. h;
}

live_quantity_later :
    (hold now later k : ℕ) (b : Booking)
    → now ≤ later
    → live_quantity hold later k b ≤ live_quantity hold now k b
live_quantity_later hold now later k b h = ground arith

-- Holds only expire.
pub CapacitySafe-later :
    (hold now later : ℕ) (db : Db)
    → now ≤ later
    → CapacitySafe hold now db
    → CapacitySafe hold later db
CapacitySafe-later hold now later db h safe = record {
  fits = λ k service cap found slot bound. omega (
    arith,
    safe.fits k service cap found slot bound,
    sum_by_mono (live_quantity hold later k) (live_quantity hold now k) db.bookings
        (λ b. live_quantity_later hold now later k b h),
  );
}

pub unit≢slot : (m : BookingMode) → m ≡ unit_assigned → m ≢ slot_capacity
unit≢slot m p q = cc

module _ (hold now : ℕ) (db : Db) (safe : CapacitySafe hold now db) where
  -- A booking of another kind of service, or one that fits.
  pub insert_booking-CapacitySafe :
      (b : Booking)
      → ((service : Services) (cap : ℕ)
          → first (has_service_id b.service_id) db.services ≡ some service
          → service.booking_mode ≡ slot_capacity
          → service.max_capacity ≡ some cap
          → active_booking_count hold now b.service_id db.bookings + b.quantity ≤ cap)
      → Fits hold now db.services (b ∷ db.bookings)
  insert_booking-CapacitySafe b h = record {
    fits = λ k service cap found slot bound. elim (Bool-cases (b.service_id == k)) [
      | inl q ↦
          let q' : b.service_id ≡ k = ==→eq b.service_id k q in
          let bound' : active_booking_count hold now k db.bookings + b.quantity ≤ cap =
            subst (λ n. active_booking_count hold now n db.bookings + b.quantity ≤ cap) q'
              (h service cap
                (subst (λ n. first (has_service_id n) db.services ≡ some service) (sym q') found)
                slot bound) in
          ground arith
      | inr q ↦ ground (arith, safe.fits k service cap found slot bound)
    ];
  }
