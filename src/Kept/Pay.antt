-- ===== src/Kept/Pay.antt =====
-- Properties that paying for a booking keeps.
use event_booking_ticketing.Kept.Confirm.{confirm_booking_and_invoice-Both}
use event_booking_ticketing.Session.{>>=-keeps, Action, Both, Session}
use event_booking_ticketing.Payments.Pay.{
  amount_due, start_payment, intent_payment, idempotency_key_for, free_payment, store_intent,
  intent_reply, store_payment, pay_by_stripe, pay_free,
}
use event_booking_ticketing.Payments.Changes.{replace_payment, insert_payment, confirm_booking}
use event_booking_ticketing.Gateway.{Reply-cases, Stripe}
use event_booking_ticketing.Env.{Env}
use event_booking_ticketing.Kept.Basics.{Ready, stored, SameStock, Step, Stable}
use event_booking_ticketing.Model.{IdempotencyKey, Payment, Booking, Db}
use event_booking_ticketing.Common.{leb, if-cases, none, some, inr, true, inl, arith, Option, ℕ}

module _ {P : Db → Type 0} (stable : Stable P) (e : Env) (stripe : Stripe) (b : Booking) (db0 : Db)
    (confirms : Step P db0 (confirm_booking b)) where
  pay_free-Both :
      (old : Option Payment) (s : Session)
      → SameStock db0 s.db
      → Both P s
      → Both P (pay_free e b old s).1
  unfolding pay_free store_payment insert_payment replace_payment
  pay_free-Both none s same h =
      let p : Payment = free_payment e b none s.db in
      let db' : Db = store_payment none p s.db in
      ground (
        arith,
        stored stable none p s.db,
        confirm_booking_and_invoice-Both stable e b db0 confirms true p (record s { db = db' })
            same,
      )
  pay_free-Both (some q) s same h =
      let p : Payment = free_payment e b (some q) s.db in
      let db' : Db = store_payment (some q) p s.db in
      ground (
        arith,
        stored stable (some q) p s.db,
        confirm_booking_and_invoice-Both stable e b db0 confirms true p (record s { db = db' })
            same,
      )

  pay_by_stripe-Both :
      (old : Option Payment) (amount : ℕ) (s : Session)
      → Both P s
      → Both P (pay_by_stripe e stripe b old amount s).1
  unfolding pay_by_stripe intent_reply store_intent
  pay_by_stripe-Both old amount s h =
      let key : IdempotencyKey = idempotency_key_for e b.id old in
      elim (Reply-cases (stripe.create amount key)) [
        | inl (intent, q) ↦
            rw (q, intent_reply)
              (ground (arith, stored stable old (intent_payment key amount intent b old s.db) s.db))
        | inr (f, q) ↦ rw (q, intent_reply) (ground arith)
      ]

  amount_due-Ready :
      (total : Option ℕ) (s : Session) → Ready P db0 s → Ready P db0 (amount_due total b s).1
  unfolding amount_due
  amount_due-Ready (some total) s h = h
  amount_due-Ready none s h = ground arith

  pub start_payment-Both :
      (old : Option Payment) (s : Session)
      → Ready P db0 s
      → Both P (start_payment e stripe b old s).1
  unfolding start_payment
  start_payment-Both old s h =
      >>=-keeps (Ready P db0) (Both P) (amount_due b.total_amount b) _ s
        (amount_due-Ready b.total_amount s h) (λ s' h'. h'.1)
        (λ amount s' h'.
          if-cases (λ (m : Action ℕ). Both P (m s').1) (leb amount 0)
            (λ _. pay_free-Both old s' h'.0 h'.1) (λ _. pay_by_stripe-Both old amount s' h'.1))
