-- ===== src/System.antt =====
-- The requests of the booking and payment endpoints, the update of a service, and the sweeper, as
-- steps on the database.
-- Each runs on its own, at its time: the row locks that the handlers take order those that meet on
-- a booking or a service.
use event_booking_ticketing.Catalog.{ServiceUpdate, update_service}
use event_booking_ticketing.Sweeper.{released_expired_holds}
use event_booking_ticketing.Payments.Cancel.{cancel_booking_and_refund}
use event_booking_ticketing.Payments.Pay.{create_payment_intent_for_booking}
use event_booking_ticketing.Payments.Webhook.{stripe_webhook, Construction}
use event_booking_ticketing.Session.{open_session, Session}
use event_booking_ticketing.Gateway.{Stripe}
use event_booking_ticketing.Bookings.{create_booking, BookingCreate}
use event_booking_ticketing.Model.{User, Db}
use event_booking_ticketing.Env.{Env}
pub mod Safety
use event_booking_ticketing.Common.{◌≤◌, Option, [], ◌≡◌, String, ℕ}

pub data Request : Type 0 where
  creates : BookingCreate → User → Request
  pays : ℕ → User → Request
  delivers : (String → Construction) → Option String → Request
  cancels : ℕ → Option String → User → Request
  updates : ℕ → ServiceUpdate → User → Request
  sweeps : Request

unfoldable pub handle : Env → Stripe → Request → Session → Session
handle e stripe (creates req user) s = (create_booking e req user s).1
handle e stripe (pays k user) s = (create_payment_intent_for_booking e stripe k user s).1
handle e stripe (delivers construct_event signature) s =
    (stripe_webhook e stripe construct_event signature s).1
handle e stripe (cancels k reason user) s = (cancel_booking_and_refund e stripe k reason user s).1
handle e stripe (updates k u user) s = (update_service e k u user s).1
handle e stripe sweeps s = released_expired_holds e stripe s

-- What the request leaves committed.
unfoldable pub serve : Env → Stripe → Request → Db → Db
serve e stripe r db = (handle e stripe r (open_session db)).saved

pub record World : Type 0 where
  pub time : ℕ
  pub db : Db

-- Requests come in the order of their times, under one setting of the hold.
pub data Step (hold : ℕ) : World → World → Type 0 where
  serves :
      (w : World) (e : Env) (stripe : Stripe) (r : Request)
      → e.hold ≡ hold
      → w.time ≤ e.now
      → Step hold w (record { time = e.now; db = serve e stripe r w.db })

pub data Reach (hold : ℕ) (w : World) : World → Type 0 where
  here : Reach hold w w
  next : {u v : World} → Reach hold w u → Step hold u v → Reach hold w v
