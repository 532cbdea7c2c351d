-- ===== src/Kept/Basics.antt =====
-- What a property of the database has to stand for the handlers to keep it.
use event_booking_ticketing.Payments.Confirm.{
  claimed_count, are_reserved, service_of, fits_capacity,
}
use event_booking_ticketing.Session.{err, ok, Result, Both, Session}
use event_booking_ticketing.Payments.Webhook.{booking_of}
use event_booking_ticketing.Env.{Env}
use event_booking_ticketing.Payments.Changes.{
  insert_cancellation, add_invoice, replace_payment, insert_payment, is_cancellation_recorded,
  set_payment_status, record_cancellation,
}
use event_booking_ticketing.Payments.Pay.{store_payment}
use event_booking_ticketing.Model.{
  unit_assigned, slot_capacity, Services, BookingMode, has_booking_id, Booking, Payment,
  PaymentStatus, Db,
}
use event_booking_ticketing.Common.{
  ◌≤◌, Option-cases, refl, false, ◌≢◌, ◌⊎◌, true, Bool, sym, subst, inr, arith, inl, first-true,
  ◌==◌, Bool-cases, ==→eq, first, List, none, some, if-cases, Option, String, ◌≡◌, ℕ,
}

-- Changes to the payments, the invoices and the cancellations keep the property.
pub record Stable (P : Db → Type 0) : Type 0 where
  pub status_set : (st : PaymentStatus) (k : ℕ) (db : Db) → P db → P (set_payment_status st k db)
  pub inserted : (p : Payment) (db : Db) → P db → P (insert_payment p db)
  pub replaced : (p : Payment) (db : Db) → P db → P (replace_payment p db)
  pub invoiced : (e : Env) (p : Payment) (db : Db) → P db → P (add_invoice e p db)
  pub recorded :
      (k amount : ℕ) (reason : String) (db : Db) → P db → P (insert_cancellation k amount reason db)

-- The two databases have the same seats, bookings and services.
abbrev pub SameStock : Db → Db → Type 0
SameStock a b =
    (b.items ≡ a.items)
    × (b.bookings ≡ a.bookings)
    × (b.services ≡ a.services)
    × (b.next_item_id ≡ a.next_item_id)

-- The stock is that of `db0`, and the property holds.
abbrev pub Ready : (Db → Type 0) → Db → Session → Type 0
Ready P db0 s = SameStock db0 s.db × Both P s

-- A change to one booking, from any database with the stock of `db0`.
abbrev pub Step : (Db → Type 0) → Db → (Db → Db) → Type 0
Step P db0 f = (db : Db) → SameStock db0 db → P db → P (f db)

module _ {P : Db → Type 0} (stable : Stable P) where
  pub stored : (old : Option Payment) (p : Payment) (db : Db) → P db → P (store_payment old p db)
  unfolding store_payment
  stored none p db h = stable.inserted p db h
  stored (some q) p db h = stable.replaced p db h

  pub recorded_once :
      (k amount : ℕ) (reason : String) (db : Db) → P db → P (record_cancellation k amount reason db)
  unfolding record_cancellation
  recorded_once k amount reason db h =
      if-cases P (is_cancellation_recorded k db) (λ _. h)
        (λ _. stable.recorded k amount reason db h)

-- The row that a query finds by an id is found by its own id.
pub found_by_id :
    (k : ℕ) (b : Booking) (bs : List Booking)
    → first (has_booking_id k) bs ≡ some b
    → first (has_booking_id b.id) bs ≡ some b
found_by_id k b bs h =
    subst (λ n. first (has_booking_id n) bs ≡ some b)
      (sym (==→eq b.id k (first-true (has_booking_id k) bs b h))) h

pub booking_of-found :
    (p : Payment) (b : Booking) (db : Db)
    → booking_of p db ≡ some b
    → first (has_booking_id b.id) db.bookings ≡ some b
booking_of-found p b db h = elim (Bool-cases (p.booking_id == 0)) [
  | inl q ↦ ground arith
  | inr q ↦ ground (arith, found_by_id p.booking_id b db.bookings)
]

-- Whether a claim stands, with the equation.
pub claim-cases : (r : Result Bool) → (r ≡ ok true) ⊎ (r ≢ ok true)
claim-cases (ok true) = inl refl
claim-cases (ok false) = inr (λ q. cc)
claim-cases (err f) = inr (λ q. cc)

-- What a claim on the inventory that stands says of the database.
abbrev pub Claim : BookingMode → Env → Booking → Services → Db → Type 0
Claim unit_assigned e b service db = are_reserved b db ≡ true
Claim slot_capacity e b service db =
    (cap : ℕ) × (service.max_capacity ≡ some cap) × (claimed_count e b db ≤ cap)

abbrev pub Claimed : Env → Booking → Db → Type 0
Claimed e b db =
    (service : Services) × (service_of b db ≡ some service)
    × Claim service.booking_mode e b service db

pub fits_capacity-Claim :
    (e : Env) (b : Booking) (service : Services) (s : Session)
    → (fits_capacity e b service s).0 ≡ ok true
    → Claim slot_capacity e b service s.db
unfolding fits_capacity
fits_capacity-Claim e b service s h = elim (Option-cases service.max_capacity) [
  | inl q ↦ absurd (ground arith)
  | inr (cap, q) ↦ (cap, q, ground arith)
]

-- Every database has this property, which carries a result on the stock alone.
abbrev pub AnyDb : Db → Type 0
AnyDb db = Unit

pub AnyDb-Stable : Stable AnyDb
AnyDb-Stable = record {
  status_set = λ st k db h. tt;
  inserted = λ p db h. tt;
  replaced = λ p db h. tt;
  invoiced = λ e p db h. tt;
  recorded = λ k amount reason db h. tt;
}
