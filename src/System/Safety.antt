-- ===== src/System/Safety.antt =====
-- The invariants on the seats and on general admission, along the histories of requests.
use event_booking_ticketing.Sweeper.{is_expired}
use event_booking_ticketing.Catalog.Capacity.{update_service-SeatSafe, update_service-CapacitySafe}
use event_booking_ticketing.Payments.Confirm.{claimed_count, are_reserved}
use event_booking_ticketing.Bookings.{requested_seats}
use event_booking_ticketing.Inventory.Updates.{
  release_booking-CapacitySafe, confirm-Claimed-CapacitySafe, withdraw_booking-CapacitySafe,
  confirm_held-CapacitySafe, slot_booking-CapacitySafe, hold_seats-CapacitySafe,
}
use event_booking_ticketing.Inventory.Capacity.{
  CapacitySafe-later, CapacitySafe-Stable, CapacitySafe,
}
use event_booking_ticketing.Kept.Sweep.{released_expired_holds-Both}
use event_booking_ticketing.Kept.Cancel.{cancel_booking_and_refund-Both}
use event_booking_ticketing.Kept.Webhook.{stripe_webhook-Both}
use event_booking_ticketing.Kept.Reconcile.{create_payment_intent_for_booking-Both}
use event_booking_ticketing.Kept.Create.{create_booking-Both}
use event_booking_ticketing.Inventory.Claims.{
  slot_booking-SeatSafe, release_booking-SeatSafe, withdraw_booking-SeatSafe,
  confirm_booking-SeatSafe, SeatSafe-Stable, hold_seats-SeatSafe, SeatSafe,
}
use event_booking_ticketing.Session.{open_session, Both, Session}
use event_booking_ticketing.Gateway.{Stripe}
use event_booking_ticketing.Kept.Basics.{Claim, Claimed, found_by_id, SameStock}
use event_booking_ticketing.Env.{Env}
use event_booking_ticketing.System.{
  updates, here, serves, next, Reach, Step, World, serve, sweeps, cancels, delivers, pays, creates,
  Request, handle,
}
use event_booking_ticketing.Model.{
  slot_capacity, cancelled, unit_assigned, confirmed, pending, has_service_id, is_cancelled,
  Services, BookingMode, has_booking_id, Booking, is_pending, BookingStatus, Db,
}
use event_booking_ticketing.Common.{
  and-left, refl, ◌≤◌, sym, false, subst, ◌∙◌, true, ap, some, ◌≡◌, first, ℕ,
}

-- The facts about a found booking, moved to a database with the same stock.
found_in :
    (db0 db : Db) (k : ℕ) (b : Booking)
    → SameStock db0 db
    → first (has_booking_id k) db0.bookings ≡ some b
    → first (has_booking_id k) db.bookings ≡ some b
found_in db0 db k b same h = ap (first (has_booking_id k)) same.1 ∙ h

Claim-in :
    (db0 db : Db) (e : Env) (m : BookingMode) (b : Booking) (service : Services)
    → SameStock db0 db
    → Claim m e b service db0
    → Claim m e b service db
Claim-in db0 db e unit_assigned b service same c =
    subst (λ is. are_reserved b (record db0 { items = is }) ≡ true) (sym same.0) c
Claim-in db0 db e slot_capacity b service same (cap, bound, c) = (
  cap,
  bound,
  subst (λ bs. claimed_count e b (record db0 { bookings = bs }) ≤ cap) (sym same.1) c,
)

Claimed-in :
    (db0 db : Db) (e : Env) (b : Booking) → SameStock db0 db → Claimed e b db0 → Claimed e b db
Claimed-in db0 db e b same (service, found, c) = (
  service,
  ap (first (has_service_id b.service_id)) same.2 ∙ found,
  Claim-in db0 db e service.booking_mode b service same c,
)

not_cancelled : (st : BookingStatus) → is_pending st ≡ true → is_cancelled st ≡ false
not_cancelled pending h = refl
not_cancelled confirmed h = refl
not_cancelled cancelled h = sym h

-- No request lets two bookings have one seat.
pub handle-SeatSafe :
    (e : Env) (stripe : Stripe) (r : Request) (s : Session)
    → Both SeatSafe s
    → Both SeatSafe (handle e stripe r s)
unfolding handle
handle-SeatSafe e stripe (creates req user) s h =
    create_booking-Both e req user s
      (λ service a mode free alone.
        hold_seats-SeatSafe s.db req.assigned_unit_ids service.id h.seen free e req user service)
      (λ service tier cap a mode bound fit.
        slot_booking-SeatSafe e req user service tier s.db h.seen)
      h
handle-SeatSafe e stripe (pays k user) s h =
    create_payment_intent_for_booking-Both SeatSafe-Stable e stripe k user s
      (λ b found p held db same safe.
        confirm_booking-SeatSafe db b
          (found_in s.db db b.id b same (found_by_id k b s.db.bookings found)) safe p)
      h
handle-SeatSafe e stripe (delivers construct_event signature) s h =
    stripe_webhook-Both SeatSafe-Stable e stripe construct_event signature s
      (λ p b found db same safe.
        withdraw_booking-SeatSafe db b (found_in s.db db b.id b same found) safe p)
      (λ b found p claim db same safe.
        confirm_booking-SeatSafe db b (found_in s.db db b.id b same found) safe p)
      h
handle-SeatSafe e stripe (cancels k reason user) s h =
    cancel_booking_and_refund-Both SeatSafe-Stable e stripe k reason user s
      (λ b found live db same safe.
        release_booking-SeatSafe db b (found_in s.db db b.id b same found) safe live)
      h
handle-SeatSafe e stripe (updates k u user) s h = update_service-SeatSafe e k u user s h
handle-SeatSafe e stripe sweeps s h =
    released_expired_holds-Both SeatSafe-Stable e stripe
      (λ s' safe' b found due.
        let p : is_pending b.status ≡ true = and-left (is_pending b.status) (is_expired e b) due in
        (
          λ db same safe.
              release_booking-SeatSafe db b (found_in s'.db db b.id b same found) safe
                (not_cancelled b.status p),
          λ claim db same safe.
              confirm_booking-SeatSafe db b (found_in s'.db db b.id b same found) safe p,
        ))
      s h

-- No request oversells a service, at the time of the request.
pub handle-CapacitySafe :
    (e : Env) (stripe : Stripe) (r : Request) (s : Session)
    → Both (CapacitySafe e.hold e.now) s
    → Both (CapacitySafe e.hold e.now) (handle e stripe r s)
unfolding handle
handle-CapacitySafe e stripe (creates req user) s h =
    create_booking-Both e req user s
      (λ service a mode free alone.
        hold_seats-CapacitySafe e req user service s.db h.seen a
          (requested_seats req.assigned_unit_ids service.id s.db) mode)
      (λ service tier cap a mode bound fit.
        slot_booking-CapacitySafe e req user service s.db h.seen a tier cap bound fit)
      h
handle-CapacitySafe e stripe (pays k user) s h =
    create_payment_intent_for_booking-Both (CapacitySafe-Stable e.hold e.now) e stripe k user s
      (λ b found p held db same safe.
        confirm_held-CapacitySafe e db b
          (found_in s.db db b.id b same (found_by_id k b s.db.bookings found)) safe p held)
      h
handle-CapacitySafe e stripe (delivers construct_event signature) s h =
    stripe_webhook-Both (CapacitySafe-Stable e.hold e.now) e stripe construct_event signature s
      (λ p b found db same safe.
        withdraw_booking-CapacitySafe e db b (found_in s.db db b.id b same found) safe p)
      (λ b found p claim db same safe.
        confirm-Claimed-CapacitySafe e db b (found_in s.db db b.id b same found) safe
          (Claimed-in s.db db e b same claim))
      h
handle-CapacitySafe e stripe (cancels k reason user) s h =
    cancel_booking_and_refund-Both (CapacitySafe-Stable e.hold e.now) e stripe k reason user s
      (λ b found live db same safe.
        release_booking-CapacitySafe e db b (found_in s.db db b.id b same found) safe)
      h
handle-CapacitySafe e stripe (updates k u user) s h = update_service-CapacitySafe e k u user s h
handle-CapacitySafe e stripe sweeps s h =
    released_expired_holds-Both (CapacitySafe-Stable e.hold e.now) e stripe
      (λ s' safe' b found due.
        let p : is_pending b.status ≡ true = and-left (is_pending b.status) (is_expired e b) due in
        (
          λ db same safe.
              release_booking-CapacitySafe e db b (found_in s'.db db b.id b same found) safe,
          λ claim db same safe.
              confirm-Claimed-CapacitySafe e db b (found_in s'.db db b.id b same found) safe
                (Claimed-in s'.db db e b same claim),
        ))
      s h

-- The two invariants together, at the time of the world.
pub record IsSafe (hold : ℕ) (w : World) : Type 0 where
  pub seats : SeatSafe w.db
  pub capacity : CapacitySafe hold w.time w.db

pub Step-IsSafe : {hold : ℕ} {u v : World} → Step hold u v → IsSafe hold u → IsSafe hold v
unfolding serve
Step-IsSafe {hold} (serves w e stripe r same later) safe = record {
  seats =
      let kept : Both SeatSafe (handle e stripe r (open_session w.db)) =
        handle-SeatSafe e stripe r (open_session w.db)
          (record { seen = safe.seats; kept = safe.seats }) in
      kept.kept;
  capacity =
      let now : CapacitySafe e.hold e.now w.db =
        subst (λ n. CapacitySafe n e.now w.db) (sym same)
          (CapacitySafe-later hold w.time e.now w.db later safe.capacity) in
      subst (λ n. CapacitySafe n e.now (serve e stripe r w.db)) same
        (handle-CapacitySafe e stripe r (open_session w.db)
          (record { seen = now; kept = now })).kept;
}

-- After any history of requests that starts in a safe world, at most one booking that is not
-- cancelled holds any seat, none holds a seat that is AVAILABLE or in MAINTENANCE, and the live
-- bookings of a general admission service have no more tickets than its capacity.
pub Reach-IsSafe : {hold : ℕ} {u v : World} → IsSafe hold u → Reach hold u v → IsSafe hold v
Reach-IsSafe safe here = safe
Reach-IsSafe safe (next r step) = Step-IsSafe step (Reach-IsSafe safe r)
