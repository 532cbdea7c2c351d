-- ===== src/Sweeper/Frame.antt =====
-- What a sweep leaves alone.
use event_booking_ticketing.Kept.Sweep.{released_expired_holds-Both}
use event_booking_ticketing.Session.{Both, Session}
use event_booking_ticketing.Gateway.{Stripe}
use event_booking_ticketing.Kept.Basics.{Stable}
use event_booking_ticketing.Sweeper.{released_expired_holds, is_candidate}
use event_booking_ticketing.Env.{Env}
use event_booking_ticketing.Model.{
  confirmed, cancelled, invoices_payment, BookingStatus, has_booking_id, Db, Booking,
}
use event_booking_ticketing.Payments.Changes.{
  set_unit_statuses, confirm_booking, set_booking_status, insert_cancellation, release_booking,
  add_invoice, replace_payment, insert_payment, set_payment_status,
}
use event_booking_ticketing.Common.{
  subst, is_some, [], refl, ◌∙◌, if-cases, arith, sym, true, ◌∷◌, update, some, ◌≢◌, false, first,
  ◌≡◌, List, ℕ,
}

abbrev pub Holds : ℕ → Booking → Db → Type 0
Holds k b db = first (has_booking_id k) db.bookings ≡ some b

Holds-Stable : (k : ℕ) (b : Booking) → Stable (Holds k b)
unfolding set_payment_status insert_payment replace_payment add_invoice insert_cancellation
Holds-Stable k b = record {
  status_set = λ st n db h. h;
  inserted = λ p db h. h;
  replaced = λ p db h. h;
  invoiced = λ e p db h.
      if-cases (Holds k b) (is_some (first (invoices_payment p.id) db.invoices)) (λ _. h) (λ _. h);
  recorded = λ n amount reason db h. h;
}

pub first-update_other :
    (k n : ℕ) (f : Booking → Booking) (bs : List Booking)
    → ((x : Booking) → (f x).id ≡ x.id)
    → k ≢ n
    → first (has_booking_id k) (update (has_booking_id n) f bs) ≡ first (has_booking_id k) bs
first-update_other k n f [] same ne = refl
first-update_other k n f (x ∷ bs) same ne =
    ground (arith, same x, first-update_other k n f bs same ne)

module _ (e : Env) (k : ℕ) (b : Booking) (kept : is_candidate e b ≡ false) where
  -- A booking that is swept is another one.
  swept_ne :
      (db : Db) (x : Booking)
      → Holds k b db
      → first (has_booking_id x.id) db.bookings ≡ some x
      → is_candidate e x ≡ true
      → k ≢ x.id
  swept_ne db x h found due same =
      let y : some x ≡ some b =
        sym found ∙ subst (λ n. first (has_booking_id n) db.bookings ≡ some b) same h in
      ground arith

  status-Holds :
      (st : BookingStatus) (db : Db) (x : Booking)
      → Holds k b db
      → k ≢ x.id
      → Holds k b (set_booking_status st x.id db)
  unfolding set_booking_status
  status-Holds st db x h ne =
      first-update_other k x.id (λ y. record y { status = st }) db.bookings (λ y. refl) ne ∙ h

  -- A sweep leaves every booking as it is, in the committed database too, that is not both PENDING
  -- and older than the hold, whatever Stripe replies about the others.
  pub released_expired_holds_frame :
      (stripe : Stripe) (s : Session)
      → Both (Holds k b) s
      → Both (Holds k b) (released_expired_holds e stripe s)
  unfolding release_booking confirm_booking set_unit_statuses
  released_expired_holds_frame stripe s h =
      released_expired_holds-Both (Holds-Stable k b) e stripe
        (λ s' held x found due. (
          λ db same h'. status-Holds cancelled db x h' (swept_ne s'.db x held found due),
          λ claim db same h'. status-Holds confirmed db x h' (swept_ne s'.db x held found due),
        ))
        s h
