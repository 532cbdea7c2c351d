-- ===== src/Sweeper.antt =====
-- `released_expired_holds` of app/core/tasks.py.
pub mod Frame
pub mod Progress
pub mod Liveness
pub mod Leader
use event_booking_ticketing.Payments.Confirm.{
  confirm_booking_and_invoice, can_confirm_late_in_mode, service_of,
}
use event_booking_ticketing.Payments.Changes.{
  set_payment_status, release_booking, record_cancellation,
}
use event_booking_ticketing.Session.{
  invalidate_services_cache, unhandled, commit, or_raise, query, modify, rollback, send, err, ok,
  ◌>>◌, pure, ◌>>=◌, Action, Session,
}
use event_booking_ticketing.Model.{
  canceled, auto_refund_key, pays_for, has_booking_id, is_canceled, is_succeeded, is_free, is_blank,
  is_pending, Db, Payment, Booking,
}
use event_booking_ticketing.Env.{Env}
use event_booking_ticketing.Gateway.{
  cancels_intent, refunds_intent, invalid_request, intent_succeeded, raised, answered,
  PaymentIntent, intent_canceled, Reply, IntentStatus, Stripe,
}
use event_booking_ticketing.Common.{
  ◌++◌, mem, none, first, select, false, if◌then◌else◌, ◌&&◌, ◌+◌, [], not, some, leb, map, ◌∷◌,
  List, Option, Bool, String, ℕ,
}

-- `created_at <= now - timedelta(minutes=HOLD_DURATION_MINUTES)`
abbrev pub is_expired : Env → Booking → Bool
is_expired e b = leb (b.created_at + e.hold) e.now

abbrev pub is_candidate : Env → Booking → Bool
is_candidate e b = is_pending b.status && is_expired e b

abbrev pub booking_id : Booking → ℕ
booking_id b = b.id

abbrev pub candidate_ids : Env → Db → List ℕ
candidate_ids e db = map booking_id (select (is_candidate e) db.bookings)

-- What Stripe says of the intent of an expired hold.
pub data Settlement : Type 0 where
  intent_is_canceled intent_is_succeeded intent_is_open : Settlement

abbrev pub settlement_of : IntentStatus → Settlement
settlement_of intent_canceled = intent_is_canceled
settlement_of intent_succeeded = intent_is_succeeded
settlement_of _ = intent_is_open

-- A request that fails leaves the booking to a later sweep, as an open intent does.
abbrev pub retrieved : Reply PaymentIntent → Settlement
retrieved (answered intent) = settlement_of intent.status
retrieved (raised _) = intent_is_open

abbrev pub cancel_settlement : Reply PaymentIntent → Reply (Unit {0}) → Settlement
cancel_settlement r (answered _) = intent_is_canceled
cancel_settlement r (raised invalid_request) = retrieved r
cancel_settlement r (raised _) = intent_is_open

abbrev pub late_refund_reason : String
late_refund_reason = "Auto-refunded: payment arrived after hold expired or capacity filled"

-- The booking becomes CANCELLED and its seats AVAILABLE. The result is the service whose
-- cache is stale, if any.
unfoldable pub release_expired : Booking → Action (Option ℕ)
release_expired b = do modify (release_booking b); commit; pure (some b.service_id)

unfoldable pub late_refund_reply : Booking → Payment → Reply (Unit {0}) → Action (Option ℕ)
late_refund_reply b p (raised _) = rollback >> pure none
late_refund_reply b p (answered _) = do
  modify (record_cancellation b.id p.amount late_refund_reason)
  modify (set_payment_status canceled p.id)
  release_expired b

unfoldable pub refund_late : Stripe → Booking → Payment → Action (Option ℕ)
refund_late stripe b p = do
  let pid = p.stripe_payment_intent_id
  send (refunds_intent pid p.amount (auto_refund_key pid))
  late_refund_reply b p (stripe.refund pid p.amount (auto_refund_key pid))

-- The money came after all: the booking is confirmed if its claim still stands.
unfoldable pub settle_late : Env → Stripe → Booking → Payment → Action (Option ℕ)
settle_late e stripe b p = do
  found ← query (service_of b)
  service ← or_raise found unhandled
  confirmable ← can_confirm_late_in_mode service.booking_mode e b service
  if confirmable
      then confirm_booking_and_invoice e false b p >> pure (some b.service_id)
      else refund_late stripe b p

unfoldable pub sweep_settled : Settlement → Env → Stripe → Booking → Payment → Action (Option ℕ)
sweep_settled intent_is_canceled e stripe b p = do
  modify (set_payment_status canceled p.id)
  release_expired b
sweep_settled intent_is_succeeded e stripe b p = settle_late e stripe b p
sweep_settled intent_is_open e stripe b p = pure none

-- A payment with an intent at Stripe that is not canceled.
abbrev pub needs_stripe : Payment → Bool
needs_stripe p =
    not (is_blank p.stripe_payment_intent_id)
    && (not (is_free p.stripe_payment_intent_id) && not (is_canceled p.status))

unfoldable pub sweep_payment : Env → Stripe → Booking → Option Payment → Action (Option ℕ)
sweep_payment e stripe b none = release_expired b
sweep_payment e stripe b (some p) =
    if needs_stripe p
    then (if is_succeeded p.status then pure none else (do
      let pid = p.stripe_payment_intent_id
      send (cancels_intent pid)
      sweep_settled (cancel_settlement (stripe.retrieve pid) (stripe.cancel pid)) e stripe b p))
    else release_expired b

-- The row is read again under its lock.
unfoldable pub sweep_booking : Env → Stripe → Option Booking → Action (Option ℕ)
sweep_booking e stripe none = pure none
sweep_booking e stripe (some b) =
    if is_pending b.status && is_expired e b
    then (do p ← query (λ db. first (pays_for b.id) db.payments); sweep_payment e stripe b p)
    else pure none

unfoldable pub sweep_one : Env → Stripe → ℕ → Action (Option ℕ)
sweep_one e stripe k = do
  found ← query (λ db. first (has_booking_id k) db.bookings)
  sweep_booking e stripe found

-- An exception rolls back the one booking that it concerns.
unfoldable pub sweep_caught : Env → Stripe → ℕ → List ℕ × Session → List ℕ × Session
unfolding sweep_one
sweep_caught e stripe k (affected, s) =
    let (r, s') = sweep_one e stripe k s in
    elim r [
      | ok none ↦ (affected, s')
      | ok (some service_id) ↦ (service_id ∷ affected, s')
      | err _ ↦ (affected, record s' { db = s'.saved })
    ]

unfoldable pub sweep_all : Env → Stripe → List ℕ → List ℕ × Session → List ℕ × Session
sweep_all e stripe [] acc = acc
sweep_all e stripe (k ∷ ks) acc = sweep_all e stripe ks (sweep_caught e stripe k acc)

-- The ids of a set, once each.
abbrev once : List ℕ → List ℕ
once [] = []
once (k ∷ ks) = if mem k ks then once ks else k ∷ once ks

unfoldable pub released_expired_holds : Env → Stripe → Session → Session
unfolding sweep_all
released_expired_holds e stripe s =
    let (affected, s') = sweep_all e stripe (candidate_ids e s.db) ([], s) in
    record s' { tasks = map invalidate_services_cache (once affected) ++ s'.tasks }
