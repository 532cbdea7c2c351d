-- ===== src/Reviews/Unique.antt =====
-- `create_review` and the number of reviews of each booking.
use event_booking_ticketing.Bookings.{active_service}
use event_booking_ticketing.Session.{Result, ok, Session}
use event_booking_ticketing.Env.{Env}
use event_booking_ticketing.Reviews.{review_event, ReviewCreate, insert_review, create_review}
use event_booking_ticketing.Model.{
  confirmed, has_booking_id, Services, Booking, User, reviews_booking, Review, Db,
}
use event_booking_ticketing.Common.{
  ◌==◌, ◌+◌, ◌∙◌, sym, ap, first-true, ==→eq, inr, inl, Option-cases, ◌≤◌, some, refl, [], arith,
  ◌∷◌, none, ◌≡◌, first, sum_by, if◌then◌else◌, List, ℕ,
}

one_review : ℕ → Review → ℕ
one_review k r = if reviews_booking k r then 1 else 0

unfoldable pub review_count : ℕ → Db → ℕ
unfolding one_review
review_count k db = sum_by (one_review k) db.reviews

none-count :
    (k : ℕ) (rs : List Review) → first (reviews_booking k) rs ≡ none → sum_by (one_review k) rs ≡ 0
unfolding one_review
none-count k [] h = refl
none-count k (r ∷ rs) h = ground (arith, none-count k rs)

review_event_once :
    (e : Env) (req : ReviewCreate) (b : Booking) (service : Services) (s : Session) (n k : ℕ)
    → b.id ≡ req.booking_id
    → (review_event e req b service s).0 ≡ ok n
    → (service.end_time ≤ e.now)
      × (review_count b.id (review_event e req b service s).1.saved ≡ 1)
      × (review_count k (review_event e req b service s).1.saved
          ≡ review_count k s.db + (if req.booking_id == k then 1 else 0))
unfolding review_event insert_review review_count
review_event_once e req b service s n k named h =
    (ground arith, ground (arith, none-count b.id s.db.reviews), ground arith)

reviewed_event :
    (e : Env) (req : ReviewCreate) (user : User) (s : Session) (n : ℕ)
    → (create_review e req user s).0 ≡ ok n
    → (b : Booking) × (service : Services) × (first (has_booking_id req.booking_id) s.db.bookings
        ≡ some b)
      × (b.user_id ≡ user.id)
      × (b.status ≡ confirmed)
      × (active_service b.service_id s.db ≡ some service)
      × (create_review e req user s ≡ review_event e req b service s)
unfolding create_review
reviewed_event e req user s n h =
    elim (Option-cases (first (has_booking_id req.booking_id) s.db.bookings)) [
      | inl q ↦ absurd (ground arith)
      | inr (b, q) ↦ elim (Option-cases (active_service b.service_id s.db)) [
        | inl r ↦ absurd (ground arith)
        | inr (service, r) ↦ (b, service, q, ground arith, ground arith, r, ground arith)
      ]
    ]

-- A review that is created is of a CONFIRMED booking of its author, whose event has ended and is
-- not archived. It is then the only review of that booking, and every other booking has as many
-- reviews as before.
pub create_review_once :
    (e : Env) (req : ReviewCreate) (user : User) (s : Session) (n k : ℕ)
    → (create_review e req user s).0 ≡ ok n
    → (b : Booking) × (service : Services) × (first (has_booking_id req.booking_id) s.db.bookings
        ≡ some b)
      × (b.user_id ≡ user.id)
      × (b.status ≡ confirmed)
      × (active_service b.service_id s.db ≡ some service)
      × (service.end_time ≤ e.now)
      × (review_count b.id (create_review e req user s).1.saved ≡ 1)
      × (review_count k (create_review e req user s).1.saved
          ≡ review_count k s.db + (if req.booking_id == k then 1 else 0))
create_review_once e req user s n k h =
    let (b, service, q, own, paid, r, same) = reviewed_event e req user s n h in
    let named : b.id ≡ req.booking_id =
      ==→eq b.id req.booking_id (first-true (has_booking_id req.booking_id) s.db.bookings b q) in
    let once =
      review_event_once e req b service s n k named
        (ap (λ (x : Result ℕ × Session). x.0) (sym same) ∙ h) in
    (b, service, q, own, paid, r, once.0, rw same once.1, rw same once.2)
