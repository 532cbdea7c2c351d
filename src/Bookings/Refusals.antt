-- ===== src/Bookings/Refusals.antt =====
-- The errors of `create_booking`.
use event_booking_ticketing.Common.{
  leb, ltb, false, ap, some, true, Bool, none, if◌then◌else◌, arith, ◌≡◌, Option,
}
use event_booking_ticketing.Session.{
  not_found, bad_request, ◌>>◌, ◌>>=◌, raise_if, or_raise, Action, err, HttpError, Session,
}
use event_booking_ticketing.Model.{
  slot_capacity, unit_assigned, ServiceTier, Services, User, BookingMode,
}
use event_booking_ticketing.Env.{Env}
use event_booking_ticketing.Bookings.{
  active_service, active_user_holds, max_pending_holds_per_user, requested_qty,
  max_tickets_per_booking, is_given, tier_of_service, BookingCreate, create_for, create_booking,
  create_slot_capacity, create_in_mode, create_unit_assigned,
}

raise_if-refused {ℓ} :
    {B : Type ℓ} (test : Bool) (g : HttpError) (k : Action B) (s : Session) (f : HttpError)
    → ((k s).0 ≡ err f → k s ≡ (err f, s))
    → ((raise_if test g >> k) s).0 ≡ err f
    → (raise_if test g >> k) s ≡ (err f, s)
raise_if-refused true g k s f go h = ap (λ r. (r, s)) h
raise_if-refused false g k s f go h = go h

or_raise-refused {ℓ κ} :
    {A : Type ℓ} {B : Type κ} (o : Option A) (g : HttpError) (k : A → Action B) (s : Session)
    (f : HttpError)
    → ((a : A) → (k a s).0 ≡ err f → k a s ≡ (err f, s))
    → ((or_raise o g >>= k) s).0 ≡ err f
    → (or_raise o g >>= k) s ≡ (err f, s)
or_raise-refused none g k s f go h = ap (λ r. (r, s)) h
or_raise-refused (some a) g k s f go h = go a h

unit_refused :
    (e : Env) (req : BookingCreate) (user : User) (service : Services) (s : Session) (f : HttpError)
    → (create_unit_assigned e req user service s).0 ≡ err f
    → create_unit_assigned e req user service s ≡ (err f, s)
unfolding create_unit_assigned
unit_refused e req user service s f h = ground arith

slot_refused :
    (e : Env) (req : BookingCreate) (user : User) (service : Services) (tier : Option ServiceTier)
    (s : Session) (f : HttpError)
    → (create_slot_capacity e req user service tier s).0 ≡ err f
    → create_slot_capacity e req user service tier s ≡ (err f, s)
unfolding create_slot_capacity
slot_refused e req user service tier s f h = ground arith

mode_refused :
    (m : BookingMode) (e : Env) (req : BookingCreate) (user : User) (service : Services)
    (tier : Option ServiceTier) (s : Session) (f : HttpError)
    → (create_in_mode m e req user service tier s).0 ≡ err f
    → create_in_mode m e req user service tier s ≡ (err f, s)
unfolding create_in_mode
mode_refused unit_assigned e req user service tier s f h = unit_refused e req user service s f h
mode_refused slot_capacity e req user service tier s f h =
    slot_refused e req user service tier s f h

for_refused :
    (e : Env) (req : BookingCreate) (user : User) (service : Services) (s : Session) (f : HttpError)
    → (create_for e req user service s).0 ≡ err f
    → create_for e req user service s ≡ (err f, s)
unfolding create_for
for_refused e req user service s f h =
    let tier : Option ServiceTier = tier_of_service req.tier_id service.id s.db in
    ground (
      arith,
      mode_refused service.booking_mode e req user service
          (if is_given req.tier_id then tier else none) s f,
    )

-- A request for a booking that is refused, for whatever reason, has no effect: nothing is written,
-- committed, sent or queued.
pub create_booking_refused :
    (e : Env) (req : BookingCreate) (user : User) (s : Session) (f : HttpError)
    → (create_booking e req user s).0 ≡ err f
    → create_booking e req user s ≡ (err f, s)
unfolding create_booking
create_booking_refused e req user s f =
    raise_if-refused (ltb max_tickets_per_booking (requested_qty req)) bad_request _ s f (
      raise_if-refused (leb max_pending_holds_per_user (active_user_holds e user.id s.db))
        bad_request _ s f
        (or_raise-refused (active_service req.service_id s.db) not_found (create_for e req user) s f
          (λ service. for_refused e req user service s f)))
