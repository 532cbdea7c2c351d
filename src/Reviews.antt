-- ===== src/Reviews.antt =====
-- app/routers/reviews.py: the reviews of attended events.
pub mod Unique
use event_booking_ticketing.Bookings.{active_service}
use event_booking_ticketing.Session.{
  conflict, bad_request, pure, commit, forbidden, raise_if, modify, unhandled, not_found, or_raise,
  query, ◌>>=◌, ◌>>◌, Action,
}
use event_booking_ticketing.Env.{Env}
use event_booking_ticketing.Model.{
  reviews_booking, is_confirmed, is_admin, has_booking_id, Services, User, Db, Booking, Review,
}
use event_booking_ticketing.Common.{
  sum_by, length, if◌then◌else◌, false, List, is_some, ltb, ◌&&◌, first, ◌+◌, some, not, ◌==◌, none,
  select, update, ◌∷◌, Bool, Option, ℕ,
}
use Prim.Native.String.{String}

pub record ReviewCreate : Type 0 where
  pub booking_id : ℕ
  pub rating : ℕ
  pub comment : Option String

-- `schema.ReviewUpdate`, with `none` for a field that is not set.
pub record ReviewUpdate : Type 0 where
  pub rating : Option ℕ
  pub comment : Option (Option String)

abbrev pub has_review_id : ℕ → Review → Bool
has_review_id k r = r.id == k

unfoldable pub insert_review : ReviewCreate → Db → Db
insert_review req db = record db {
  reviews =
      record {
        id = db.next_review_id;
        booking_id = req.booking_id;
        rating = req.rating;
        comment = req.comment;
      }
      ∷ db.reviews;
  next_review_id = db.next_review_id + 1;
}

-- `not booking.service or not booking.service.is_active`
abbrev reviewable_service : Booking → Db → Option Services
reviewable_service b db = active_service b.service_id db

-- Steps 4 to 6, for an event that is not archived. The result is the id of the review.
unfoldable pub review_event : Env → ReviewCreate → Booking → Services → Action ℕ
review_event e req b service = do
  raise_if (ltb e.now service.end_time) bad_request
  existing ← query (λ db. first (reviews_booking b.id) db.reviews)
  raise_if (is_some existing) conflict
  k ← query (λ db. db.next_review_id)
  modify (insert_review req)
  commit
  pure k

unfoldable pub create_review : Env → ReviewCreate → User → Action ℕ
create_review e req user = do
  found ← query (λ db. first (has_booking_id req.booking_id) db.bookings)
  b ← or_raise found not_found
  raise_if (not (b.user_id == user.id)) forbidden
  raise_if (not (is_confirmed b.status)) bad_request
  event ← query (reviewable_service b)
  service ← or_raise event not_found
  review_event e req b service

-- `review.booking.user_id != current_user.id and current_user.role != ADMIN`, which raises where
-- the review has no booking.
unfoldable pub may_edit : User → Review → Action (Unit {0})
may_edit user r = do
  found ← query (λ db. first (has_booking_id r.booking_id) db.bookings)
  b ← or_raise found unhandled
  raise_if (not (b.user_id == user.id) && not (is_admin user.role)) forbidden

abbrev apply_update : ReviewUpdate → Review → Review
apply_update u r = record r {
  rating = elim u.rating [ none ↦ r.rating | some rating ↦ rating ];
  comment = elim u.comment [ none ↦ r.comment | some comment ↦ comment ];
}

unfoldable pub edit_review : ℕ → ReviewUpdate → Db → Db
edit_review k u db = record db { reviews = update (has_review_id k) (apply_update u) db.reviews }

unfoldable pub update_review : ℕ → ReviewUpdate → User → Action ℕ
update_review k u user = do
  found ← query (λ db. first (has_review_id k) db.reviews)
  r ← or_raise found not_found
  may_edit user r
  modify (edit_review r.id u)
  commit
  pure r.id

unfoldable pub remove_review : ℕ → Db → Db
remove_review k db = record db { reviews = select (λ r. not (has_review_id k r)) db.reviews }

unfoldable pub delete_review : ℕ → User → Action (Unit {0})
delete_review k user = do
  found ← query (λ db. first (has_review_id k) db.reviews)
  r ← or_raise found not_found
  may_edit user r
  modify (remove_review r.id)
  commit

pub record ServiceReviewsSummary : Type 0 where
  pub service_id : ℕ
  -- In tenths
  pub average_rating : ℕ
  pub total_reviews : ℕ
  pub reviews : List Review

-- A review of a booking of the service; the join leaves out none, for each has its booking.
abbrev pub is_review_of : ℕ → Db → Review → Bool
is_review_of k db r = elim (first (has_booking_id r.booking_id) db.bookings) [
  | none ↦ false
  | some b ↦ b.service_id == k
]

-- The parameter is `round(total / n, 1)`, in tenths. The newest review stands first in its table.
unfoldable pub summary_of : (ℕ → ℕ → ℕ) → ℕ → List Review → ServiceReviewsSummary
summary_of round_tenths k reviews = record {
  service_id = k;
  average_rating =
      if ltb 0 (length reviews)
      then round_tenths (sum_by (λ r. r.rating) reviews) (length reviews)
      else 0;
  total_reviews = length reviews;
  reviews = reviews;
}

unfoldable pub get_service_reviews : (ℕ → ℕ → ℕ) → ℕ → Action ServiceReviewsSummary
get_service_reviews round_tenths k = do
  found ← query (active_service k)
  or_raise found not_found
  reviews ← query (λ db. select (is_review_of k db) db.reviews)
  pure (summary_of round_tenths k reviews)
