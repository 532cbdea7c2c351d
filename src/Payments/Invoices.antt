-- ===== src/Payments/Invoices.antt =====
-- The invoices of a payment, and the two tests of a claim.
use event_booking_ticketing.Payments.Repeats.{first-update_self}
use event_booking_ticketing.Session.{Result, ok, Session}
use event_booking_ticketing.Env.{Env}
use event_booking_ticketing.Payments.Changes.{
  add_invoice, set_unit_statuses, set_booking_status, confirm_booking, set_payment_status,
}
use event_booking_ticketing.Payments.Confirm.{
  still_fits_capacity, fits_capacity, are_still_reserved, is_unit, notify_confirmed,
  can_confirm_late_in_mode, can_confirm_in_mode, confirm_booking_and_invoice,
}
use event_booking_ticketing.Model.{
  InventoryItems, slot_capacity, confirmed, has_booking_id, Payment, unit_assigned, Services,
  Booking, BookingMode, invoices_payment, Db, Invoice,
}
use event_booking_ticketing.Common.{
  ap, ◌&&◌, not, select, is_empty, inr, ==-refl, Option-cases, inl, true, false, refl, Bool, [],
  arith, ◌∷◌, ◌≤◌, some, none, ◌≡◌, sum_by, if◌then◌else◌, first, List, ℕ,
}

one_invoice : ℕ → Invoice → ℕ
one_invoice k i = if invoices_payment k i then 1 else 0

-- The number of invoices of a payment.
unfoldable pub invoice_count : ℕ → Db → ℕ
unfolding one_invoice
invoice_count k db = sum_by (one_invoice k) db.invoices

none-count :
    (k : ℕ) (is : List Invoice)
    → first (invoices_payment k) is ≡ none
    → sum_by (one_invoice k) is ≡ 0
unfolding one_invoice
none-count k [] h = refl
none-count k (i ∷ is) h = ground (arith, none-count k is)

some-count :
    (k : ℕ) (is : List Invoice) (x : Invoice)
    → first (invoices_payment k) is ≡ some x
    → 1 ≤ sum_by (one_invoice k) is
unfolding one_invoice
some-count k [] x h = cc
some-count k (i ∷ is) x h = ground (arith, some-count k is x)

-- Confirming a booking commits its payment's invoice, and never a second one: there is one
-- afterwards if there was none or one before. It commits the booking as CONFIRMED.
pub confirm_booking_and_invoice_once :
    (e : Env) (background : Bool) (b : Booking) (p : Payment) (s : Session)
    → first (has_booking_id b.id) s.db.bookings ≡ some b
    → invoice_count p.id s.db ≤ 1
    → let s' = (confirm_booking_and_invoice e background b p s).1 in
      (invoice_count p.id s'.saved ≡ 1)
      × (first (has_booking_id b.id) s'.saved.bookings ≡ some (record b { status = confirmed }))
unfolding confirm_booking_and_invoice notify_confirmed set_payment_status confirm_booking
    set_booking_status set_unit_statuses add_invoice invoice_count
confirm_booking_and_invoice_once e background b p s found few =
    let moved =
      first-update_self b.id (λ x. record x { status = confirmed }) s.db.bookings b refl found in
    elim (Option-cases (first (invoices_payment p.id) s.db.invoices)) [
      | inl q ↦ ground (arith, none-count p.id s.db.invoices q, moved, ==-refl p.id)
      | inr (i, q) ↦ ground (arith, some-count p.id s.db.invoices i q, moved)
    ]

no_units : (is : List InventoryItems) → select (is_unit []) is ≡ []
no_units [] = refl
no_units (i ∷ is) = no_units is

none_reserved :
    (b : Booking) (db : Db) → are_still_reserved (record b { assigned_units = [] }) db ≡ true
none_reserved b db = simp (no_units db.items) refl

seated :
    (units : List ℕ) (late : Bool)
    → (not (is_empty units) && late) ≡ (if is_empty units then false else late)
seated [] late = refl
seated (x ∷ xs) late = refl

-- What the webhook makes of the sweeper's answer.
abbrev pub unless_seatless : BookingMode → Booking → Result Bool → Result Bool
unless_seatless unit_assigned b answer = if is_empty b.assigned_units then ok false else answer
unless_seatless slot_capacity b answer = answer

-- The webhook answers on the claim of a PENDING booking as the sweeper does, but that it refuses a
-- booking of reserved seating with no seats, which the sweeper always accepts.
pub claims_agree :
    (m : BookingMode) (e : Env) (b : Booking) (service : Services) (s : Session)
    → ((can_confirm_in_mode m e b service s).0
        ≡ unless_seatless m b (can_confirm_late_in_mode m e b service s).0)
      × ((can_confirm_late_in_mode unit_assigned e (record b { assigned_units = [] }) service s).0
          ≡ ok true)
unfolding can_confirm_in_mode can_confirm_late_in_mode fits_capacity still_fits_capacity
claims_agree slot_capacity e b service s = (refl, ap ok (none_reserved b s.db))
claims_agree unit_assigned e b service s = (
  ground (arith, seated b.assigned_units (are_still_reserved b s.db)),
  ap ok (none_reserved b s.db),
)
