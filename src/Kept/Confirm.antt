-- ===== src/Kept/Confirm.antt =====
-- Properties that `confirm_booking_and_invoice` keeps.
use event_booking_ticketing.Session.{Both, Session}
use event_booking_ticketing.Payments.Confirm.{notify_confirmed, confirm_booking_and_invoice}
use event_booking_ticketing.Payments.Changes.{set_payment_status, confirm_booking}
use event_booking_ticketing.Env.{Env}
use event_booking_ticketing.Kept.Basics.{SameStock, Step, Stable}
use event_booking_ticketing.Model.{succeeded, Payment, Booking, Db}
use event_booking_ticketing.Common.{arith, Bool}

module _ {P : Db → Type 0} (stable : Stable P) (e : Env) (b : Booking) (db0 : Db)
    (confirms : Step P db0 (confirm_booking b)) where
  pub confirm_booking_and_invoice-Both :
      (background : Bool) (p : Payment) (s : Session)
      → SameStock db0 s.db
      → Both P s
      → Both P (confirm_booking_and_invoice e background b p s).1
  unfolding confirm_booking_and_invoice notify_confirmed set_payment_status
  confirm_booking_and_invoice-Both background p s same h =
      let paid : Db = set_payment_status succeeded p.id s.db in
      ground (
        arith,
        stable.status_set succeeded p.id s.db,
        confirms paid same,
        stable.invoiced e p (confirm_booking b paid),
      )
