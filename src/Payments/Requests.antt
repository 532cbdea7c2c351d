-- ===== src/Payments/Requests.antt =====
-- The requests that paying for a booking sends to Stripe.
use event_booking_ticketing.Gateway.{
  is_in_process, is_unpaid, is_intent_canceled, is_intent_succeeded, other_exception, stripe_error,
  invalid_request, raised, answered, PaymentIntent, Reply, creates_intent, Stripe,
}
use event_booking_ticketing.Model.{
  is_cancelled, is_confirmed, pays_for, has_booking_id, User, is_open_payment, is_failed, is_free,
  is_succeeded, InvoiceNumber, Payment, IdempotencyKey, Booking,
}
use event_booking_ticketing.Session.{
  forbidden, raise_if, HttpError, ◌>>=◌, >>=-keeps, ◌>>◌, bad_request, raise, pure, Action, Session,
}
use event_booking_ticketing.Env.{Env}
use event_booking_ticketing.Payments.Confirm.{notify_confirmed, confirm_booking_and_invoice}
use event_booking_ticketing.Payments.Pay.{
  create_payment_intent_for_booking, store_payment, free_payment, idempotency_key_for,
  pay_by_stripe, retry_failed, reuse_open, reactivate, restart_payment, confirm_paid, pay_free,
  reconcile, amount_due, store_intent, intent_reply, start_payment,
}
use event_booking_ticketing.Common.{
  ◌+◌, ltb, ◌==◌, not, first, ◌||◌, sym, subst, if◌then◌else◌, false, inr, none, true, inl, leb,
  refl, ◌≤◌, arith, ◌∷◌, some, Option, ◌⊎◌, ◌≡◌, Bool, ℕ,
}

notified-sent :
    (background : Bool) (b : Booking) (p : Payment) (n : InvoiceNumber) (s : Session)
    → (notify_confirmed background b p n s).1.sent ≡ s.sent
unfolding notify_confirmed
notified-sent background b p n s = ground arith

confirmed-sent :
    (e : Env) (background : Bool) (b : Booking) (p : Payment) (s : Session)
    → (confirm_booking_and_invoice e background b p s).1.sent ≡ s.sent
unfolding confirm_booking_and_invoice
confirmed-sent e background b p s = notified-sent background b p _ _

confirmed_then-sent :
    (e : Env) (b : Booking) (p : Payment) (s : Session)
    → ((confirm_booking_and_invoice e true b p >> pure p.id) s).1.sent ≡ s.sent
confirmed_then-sent e b p s =
    >>=-keeps (λ s'. s'.sent ≡ s.sent) (λ s'. s'.sent ≡ s.sent)
      (confirm_booking_and_invoice e true b p) (λ _. pure p.id) s (confirmed-sent e true b p s)
      (λ s' h. h) (λ a s' h. h)

-- Nothing is sent, or one request for an intent of the amount, which is not zero.
unfoldable pub AsksOnly : ℕ → Session → Session → Type 0
AsksOnly amount s s' =
    (s'.sent ≡ s.sent)
    ⊎ ((key : IdempotencyKey) × (s'.sent ≡ creates_intent amount key ∷ s.sent) × (1 ≤ amount))

intent_reply-sent :
    (key : IdempotencyKey) (amount : ℕ) (b : Booking) (existing : Option Payment)
    (r : Reply PaymentIntent) (s : Session)
    → (intent_reply key amount b existing r s).1.sent ≡ s.sent
unfolding intent_reply store_intent
intent_reply-sent key amount b existing (answered intent) s = ground arith
intent_reply-sent key amount b existing (raised invalid_request) s = refl
intent_reply-sent key amount b existing (raised stripe_error) s = refl
intent_reply-sent key amount b existing (raised other_exception) s = refl

free_asks :
    (e : Env) (b : Booking) (existing : Option Payment) (amount : ℕ) (s : Session)
    → AsksOnly amount s (pay_free e b existing s).1
unfolding AsksOnly pay_free
free_asks e b existing amount s =
    let p : Payment = free_payment e b existing s.db in
    inl (confirmed_then-sent e b p (record s { db = store_payment existing p s.db }))

stripe_asks :
    (e : Env) (stripe : Stripe) (b : Booking) (existing : Option Payment) (amount : ℕ) (s : Session)
    → 1 ≤ amount
    → AsksOnly amount s (pay_by_stripe e stripe b existing amount s).1
unfolding AsksOnly pay_by_stripe
stripe_asks e stripe b existing amount s some_due =
    let key : IdempotencyKey = idempotency_key_for e b.id existing in
    inr (key, intent_reply-sent key amount b existing (stripe.create amount key) _, some_due)

-- Whichever branch is taken.
if-asks :
    (test : Bool) (m m' : Action ℕ) (amount : ℕ) (s : Session)
    → (test ≡ true → AsksOnly amount s (m s).1)
    → (test ≡ false → AsksOnly amount s (m' s).1)
    → AsksOnly amount s ((if test then m else m') s).1
if-asks true m m' amount s first_asks other_asks = first_asks refl
if-asks false m m' amount s first_asks other_asks = other_asks refl

start_asks :
    (e : Env) (stripe : Stripe) (b : Booking) (existing : Option Payment) (amount : ℕ) (s : Session)
    → b.total_amount ≡ some amount
    → AsksOnly amount s (start_payment e stripe b existing s).1
unfolding start_payment amount_due
start_asks e stripe b existing amount s total =
    let pay : ℕ → Action ℕ =
      λ a. if leb a 0 then pay_free e b existing else pay_by_stripe e stripe b existing a in
    subst (λ t. AsksOnly amount s ((amount_due t b >>= pay) s).1) (sym total)
      (if-asks (leb amount 0) (pay_free e b existing) (pay_by_stripe e stripe b existing amount)
        amount s (λ q. free_asks e b existing amount s)
        (λ q. stripe_asks e stripe b existing amount s (ground arith)))

module _ (e : Env) (stripe : Stripe) (b : Booking) (amount : ℕ)
    (total : b.total_amount ≡ some amount) where
  restart_asks : (p : Payment) (s : Session) → AsksOnly amount s (restart_payment e stripe b p s).1
  unfolding restart_payment AsksOnly
  restart_asks p s = start_asks e stripe b _ amount _ total

  paid_asks : (p : Payment) (s : Session) → AsksOnly amount s (confirm_paid e b p s).1
  unfolding confirm_paid AsksOnly
  paid_asks p s = inl (confirmed_then-sent e b p s)

  quiet_asks : (r : ℕ) (s : Session) → AsksOnly amount s (pure r s).1
  unfolding AsksOnly
  quiet_asks r s = inl refl

  refused_asks : (s : Session) → AsksOnly amount s (raise {A = ℕ} bad_request s).1
  unfolding AsksOnly
  refused_asks s = inl refl

  reactivated_asks :
      (p : Payment) (i : PaymentIntent) (s : Session) → AsksOnly amount s (reactivate p i s).1
  unfolding AsksOnly reactivate
  reactivated_asks p i s = inl refl

  -- What follows where the intent is neither paid nor open.
  abbrev canceled_step : Payment → PaymentIntent → Action ℕ
  canceled_step p i =
      if is_intent_canceled i.status
      then restart_payment e stripe b p
      else start_payment e stripe b (some p)

  canceled_asks :
      (p : Payment) (i : PaymentIntent) (s : Session) → AsksOnly amount s (canceled_step p i s).1
  canceled_asks p i s =
      if-asks (is_intent_canceled i.status) (restart_payment e stripe b p)
        (start_payment e stripe b (some p)) amount s (λ q. restart_asks p s)
        (λ q. start_asks e stripe b (some p) amount s total)

  reuse_asks :
      (p : Payment) (r : Reply PaymentIntent) (s : Session)
      → AsksOnly amount s (reuse_open e stripe b p r s).1
  unfolding reuse_open
  reuse_asks p (raised f) s = quiet_asks p.id s
  reuse_asks p (answered i) s =
      if-asks (is_intent_succeeded i.status) (confirm_paid e b p)
        (if is_unpaid i.status || is_in_process i.status then pure p.id else canceled_step p i)
        amount s (λ q. paid_asks p s)
        (λ q.
          if-asks (is_unpaid i.status || is_in_process i.status) (pure p.id) (canceled_step p i)
            amount s (λ q'. quiet_asks p.id s) (λ q'. canceled_asks p i s))

  retry_asks :
      (p : Payment) (r : Reply PaymentIntent) (s : Session)
      → AsksOnly amount s (retry_failed e stripe b p r s).1
  unfolding retry_failed
  retry_asks p (raised f) s = start_asks e stripe b (some p) amount s total
  retry_asks p (answered i) s =
      if-asks (is_intent_succeeded i.status) (confirm_paid e b p)
        (if is_unpaid i.status then reactivate p i else canceled_step p i) amount s
        (λ q. paid_asks p s)
        (λ q.
          if-asks (is_unpaid i.status) (reactivate p i) (canceled_step p i) amount s
            (λ q'. reactivated_asks p i s) (λ q'. canceled_asks p i s))

  abbrev open_step : Payment → Action ℕ
  open_step p =
      if is_free p.stripe_payment_intent_id
      then pure p.id
      else reuse_open e stripe b p (stripe.retrieve p.stripe_payment_intent_id)

  abbrev failed_step : Payment → Action ℕ
  failed_step p =
      if is_failed p.status
      then retry_failed e stripe b p (stripe.retrieve p.stripe_payment_intent_id)
      else start_payment e stripe b (some p)

  reconcile_asks :
      (existing : Option Payment) (s : Session)
      → AsksOnly amount s (reconcile e stripe b existing s).1
  unfolding reconcile
  reconcile_asks none s = start_asks e stripe b none amount s total
  reconcile_asks (some p) s =
      if-asks (is_succeeded p.status) (raise bad_request)
        (if is_open_payment p.status then open_step p else failed_step p) amount s
        (λ q. refused_asks s)
        (λ q.
          if-asks (is_open_payment p.status) (open_step p) (failed_step p) amount s
            (λ q'.
              if-asks (is_free p.stripe_payment_intent_id) (pure p.id)
                (reuse_open e stripe b p (stripe.retrieve p.stripe_payment_intent_id)) amount s
                (λ q''. quiet_asks p.id s)
                (λ q''. reuse_asks p (stripe.retrieve p.stripe_payment_intent_id) s))
            (λ q'.
              if-asks (is_failed p.status)
                (retry_failed e stripe b p (stripe.retrieve p.stripe_payment_intent_id))
                (start_payment e stripe b (some p)) amount s
                (λ q''. retry_asks p (stripe.retrieve p.stripe_payment_intent_id) s)
                (λ q''. start_asks e stripe b (some p) amount s total)))

raise_if-asks :
    (test : Bool) (g : HttpError) (k : Action ℕ) (amount : ℕ) (s : Session)
    → AsksOnly amount s (k s).1
    → AsksOnly amount s ((raise_if test g >> k) s).1
unfolding AsksOnly
raise_if-asks true g k amount s h = inl refl
raise_if-asks false g k amount s h = h

-- Paying for a booking whose total was fixed sends Stripe at most one request that changes
-- something: for an intent of exactly that total, which is then not zero. So it is whatever the
-- payment that the booking may have, and whatever Stripe replies.
pub create_payment_intent_asks :
    (e : Env) (stripe : Stripe) (k : ℕ) (user : User) (s : Session) (b : Booking) (amount : ℕ)
    → first (has_booking_id k) s.db.bookings ≡ some b
    → b.total_amount ≡ some amount
    → AsksOnly amount s (create_payment_intent_for_booking e stripe k user s).1
unfolding create_payment_intent_for_booking
create_payment_intent_asks e stripe k user s b amount found total =
    let existing : Option Payment = first (pays_for k) s.db.payments in
    rw found (
      raise_if-asks (not (b.user_id == user.id)) forbidden _ amount s (
        raise_if-asks (is_confirmed b.status) bad_request _ amount s (
          raise_if-asks (is_cancelled b.status) bad_request _ amount s (
            raise_if-asks (ltb (b.created_at + e.hold) e.now) bad_request _ amount s
              (reconcile_asks e stripe b amount total existing s)))))
