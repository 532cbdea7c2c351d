-- ===== src/Model/Tables.antt =====
-- The database, and the queries that several handlers make of it.
use event_booking_ticketing.Common.{
  ℕ, ◌+◌, ◌*◌, Bool, true, false, ◌&&◌, ◌||◌, List, [], ◌∷◌, leb, ◌==◌, if◌then◌else◌, sum_by, mem,
}
use event_booking_ticketing.Model.Rows.{
  User, Location, Services, ServiceTier, InventoryItems, Booking, Payment, Invoice, Cancellation,
  Review, ItemStatus, IntentId, blank, free_booking, from_stripe, is_pending, is_confirmed,
}

-- One list for each table, newest row first, and the value that its id sequence gives next.
pub record Db : Type 0 where
  pub users : List User
  pub locations : List Location
  pub services : List Services
  pub tiers : List ServiceTier
  pub items : List InventoryItems
  pub bookings : List Booking
  pub payments : List Payment
  pub invoices : List Invoice
  pub cancellations : List Cancellation
  pub reviews : List Review
  pub next_location_id : ℕ
  pub next_service_id : ℕ
  pub next_tier_id : ℕ
  pub next_item_id : ℕ
  pub next_booking_id : ℕ
  pub next_payment_id : ℕ
  pub next_invoice_id : ℕ
  pub next_cancellation_id : ℕ
  pub next_review_id : ℕ

abbrev pub has_user_id : ℕ → User → Bool
has_user_id k u = u.id == k

abbrev pub has_service_id : ℕ → Services → Bool
has_service_id k s = s.id == k

abbrev pub has_tier_id : ℕ → ServiceTier → Bool
has_tier_id k t = t.id == k

abbrev pub has_item_id : ℕ → InventoryItems → Bool
has_item_id k i = i.id == k

abbrev pub has_booking_id : ℕ → Booking → Bool
has_booking_id k b = b.id == k

abbrev pub has_payment_id : ℕ → Payment → Bool
has_payment_id k p = p.id == k

-- The payment of a booking, the invoice of a payment, and so on.
abbrev pub pays_for : ℕ → Payment → Bool
pays_for k p = p.booking_id == k

abbrev pub invoices_payment : ℕ → Invoice → Bool
invoices_payment k i = i.payment_id == k

abbrev pub cancels_booking : ℕ → Cancellation → Bool
cancels_booking k c = c.booking_id == k

abbrev pub reviews_booking : ℕ → Review → Bool
reviews_booking k r = r.booking_id == k

abbrev pub intent_eq : IntentId → IntentId → Bool
intent_eq blank blank = true
intent_eq (free_booking a) (free_booking b) = a == b
intent_eq (from_stripe a) (from_stripe b) = a == b
intent_eq _ _ = false

abbrev pub has_intent : IntentId → Payment → Bool
has_intent pid p = intent_eq p.stripe_payment_intent_id pid

-- An assignment of a status to each listed seat.
abbrev pub set_status : ItemStatus → List ℕ → List InventoryItems → List InventoryItems
set_status st ids [] = []
set_status st ids (i ∷ is) =
    (if mem i.id ids then record i { status = st } else i) ∷ set_status st ids is

abbrev pub minutes : ℕ → ℕ
minutes m = m * 60000000

-- `created_at >= now - timedelta(minutes=HOLD_DURATION_MINUTES)`, with the duration `hold` in
-- microseconds.
abbrev pub is_held : ℕ → ℕ → Booking → Bool
is_held hold now b = leb now (b.created_at + hold)

-- CONFIRMED, or PENDING within the hold.
abbrev pub is_live : ℕ → ℕ → Booking → Bool
is_live hold now b = is_confirmed b.status || (is_pending b.status && is_held hold now b)

-- The tickets of a service that count towards its capacity.
abbrev pub live_quantity : ℕ → ℕ → ℕ → Booking → ℕ
live_quantity hold now service_id b =
    if (b.service_id == service_id) && is_live hold now b then b.quantity else 0

abbrev pub active_booking_count : ℕ → ℕ → ℕ → List Booking → ℕ
active_booking_count hold now service_id bs = sum_by (live_quantity hold now service_id) bs
