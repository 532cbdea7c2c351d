-- ===== src/Catalog/Search/Filters.antt =====
-- What the parameters of `search_services` mean, said of the rows without the code's tests.
use event_booking_ticketing.Catalog.{has_location_id}
use event_booking_ticketing.Model.{
  unit_assigned, slot_capacity, Services, Location, BookingMode, Db,
}
use event_booking_ticketing.Catalog.Search.{
  is_match, location_of, is_located, date_asc, date_desc, price_desc, sorts_before, price_asc,
  fits_mode, SortBy, SearchQuery, fits_text, is_within, is_listed_before,
}
use event_booking_ticketing.Common.{
  sym, subst, if◌then◌else◌, and-right, and-left, ◌&&◌, inr, inl, ltb, ◌==◌, first, Bool-cases,
  refl, arith, false, true, ◌≤◌, none, leb, ◌⊎◌, ◌≡◌, some, String, Option, Bool, ◌<◌, ℕ,
}

-- A bound from below, and from above, where there is one.
abbrev pub AtLeast : Option ℕ → ℕ → Type 0
AtLeast none n = Unit
AtLeast (some low) n = low ≤ n

abbrev pub AtMost : Option ℕ → ℕ → Type 0
AtMost none n = Unit
AtMost (some high) n = n ≤ high

-- A text that is given and not empty has to match the column.
abbrev pub Mentions : (String → String → Bool) → Option String → String → Type 0
Mentions ilike none column = Unit
Mentions ilike (some String.[]) column = Unit
Mentions ilike (some (String.◌∷◌ c text)) column = ilike (String.◌∷◌ c text) column ≡ true

-- The start is not before the first date, and not before now where none is given, unless past
-- events are asked for.
abbrev pub Upcoming : ℕ → Bool → Option ℕ → ℕ → Type 0
Upcoming now past (some date) start = date ≤ start
Upcoming now false none start = now ≤ start
Upcoming now true none start = Unit

abbrev pub InMode : Option BookingMode → BookingMode → Type 0
InMode none mode = Unit
InMode (some wanted) mode = mode ≡ wanted

-- There is a venue, in the city and the country.
abbrev pub IsThere : (String → String → Bool) → SearchQuery → Option Location → Type 0
IsThere ilike q none = ⊥
IsThere ilike q (some l) = Mentions ilike q.city l.city × Mentions ilike q.country l.country

abbrev pub venue_of : Option ℕ → Db → Option Location
venue_of none db = none
venue_of (some k) db = first (λ l. l.id == k) db.locations

-- An event that the search is about.
abbrev pub Fits : (String → String → Bool) → ℕ → SearchQuery → Db → Services → Type 0
Fits ilike now q db s =
    (s.is_active ≡ true)
    × IsThere ilike q (venue_of s.location_id db)
    × InMode q.booking_mode s.booking_mode
    × AtLeast q.min_price s.base_price
    × AtMost q.max_price s.base_price
    × Upcoming now q.include_past q.date_from s.start_time
    × AtMost q.date_to s.start_time

-- By a column, and where two rows are alike in it by their ids.
abbrev pub Ascends : ℕ → ℕ → ℕ → ℕ → Type 0
Ascends key id key' id' = (key < key') ⊎ ((key ≡ key') × (id ≤ id'))

abbrev pub Before : Option SortBy → Services → Services → Type 0
Before (some price_asc) a b = Ascends a.base_price a.id b.base_price b.id
Before (some price_desc) a b = Ascends b.base_price b.id a.base_price a.id
Before (some date_desc) a b = Ascends b.start_time b.id a.start_time a.id
Before (some date_asc) a b = Ascends a.start_time a.id b.start_time b.id
Before none a b = Ascends a.start_time a.id b.start_time b.id

is_listed_before-Ascends :
    (key id key' id' : ℕ) → is_listed_before key id key' id' ≡ true → Ascends key id key' id'
is_listed_before-Ascends key id key' id' h = elim (Bool-cases (ltb key key')) [
  | inl q ↦ inl (ground arith)
  | inr q ↦ inr (ground arith, ground arith)
]

pub sorts_before-Before :
    (by : Option SortBy) (a b : Services) → sorts_before by a b ≡ true → Before by a b
sorts_before-Before (some price_asc) a b =
    is_listed_before-Ascends a.base_price a.id b.base_price b.id
sorts_before-Before (some price_desc) a b =
    is_listed_before-Ascends b.base_price b.id a.base_price a.id
sorts_before-Before (some date_desc) a b =
    is_listed_before-Ascends b.start_time b.id a.start_time a.id
sorts_before-Before (some date_asc) a b =
    is_listed_before-Ascends a.start_time a.id b.start_time b.id
sorts_before-Before none a b = is_listed_before-Ascends a.start_time a.id b.start_time b.id

from_below : (o : Option ℕ) (n : ℕ) → is_within leb o n ≡ true → AtLeast o n
from_below none n h = tt
from_below (some low) n h = ground arith

from_above : (o : Option ℕ) (n : ℕ) → is_within (λ bound m. leb m bound) o n ≡ true → AtMost o n
from_above none n h = tt
from_above (some high) n h = ground arith

to_below : (o : Option ℕ) (n : ℕ) → AtLeast o n → is_within leb o n ≡ true
to_below none n h = refl
to_below (some low) n h = ground arith

to_above : (o : Option ℕ) (n : ℕ) → AtMost o n → is_within (λ bound m. leb m bound) o n ≡ true
to_above none n h = refl
to_above (some high) n h = ground arith

and_true : {a b : Bool} → a ≡ true → b ≡ true → (a && b) ≡ true
and_true h h' = rw (h, h') refl

module _ (ilike : String → String → Bool) where
  from_mode : (o : Option BookingMode) (m : BookingMode) → fits_mode ilike o m ≡ true → InMode o m
  from_mode none m h = tt
  from_mode (some unit_assigned) unit_assigned h = refl
  from_mode (some slot_capacity) slot_capacity h = refl
  from_mode (some unit_assigned) slot_capacity h = cc
  from_mode (some slot_capacity) unit_assigned h = cc

  to_mode : (o : Option BookingMode) (m : BookingMode) → InMode o m → fits_mode ilike o m ≡ true
  to_mode none m h = refl
  to_mode (some unit_assigned) unit_assigned h = refl
  to_mode (some slot_capacity) slot_capacity h = refl
  to_mode (some unit_assigned) slot_capacity h = cc
  to_mode (some slot_capacity) unit_assigned h = cc

  pub from_text :
      (o : Option String) (column : String)
      → fits_text ilike o column ≡ true
      → Mentions ilike o column
  from_text none column h = tt
  from_text (some String.[]) column h = tt
  from_text (some (String.◌∷◌ c text)) column h = h

  pub to_text :
      (o : Option String) (column : String)
      → Mentions ilike o column
      → fits_text ilike o column ≡ true
  to_text none column h = refl
  to_text (some String.[]) column h = refl
  to_text (some (String.◌∷◌ c text)) column h = h

  from_place :
      (q : SearchQuery) (o : Option Location) → is_located ilike q o ≡ true → IsThere ilike q o
  from_place q none h = cc
  from_place q (some l) h = (
    from_text q.city l.city (and-left _ (fits_text ilike q.country l.country) h),
    from_text q.country l.country (and-right (fits_text ilike q.city l.city) _ h),
  )

  to_place :
      (q : SearchQuery) (o : Option Location) → IsThere ilike q o → is_located ilike q o ≡ true
  to_place q none h = absurd h
  to_place q (some l) h = and_true (to_text q.city l.city h.0) (to_text q.country l.country h.1)

  same_place : (db : Db) (s : Services) → location_of ilike db s ≡ venue_of s.location_id db
  same_place db s = same s.location_id
    where
      same :
          (o : Option ℕ)
          → elim o [ none ↦ none | some k ↦ first (has_location_id k) db.locations ] ≡ venue_of o db
      same none = refl
      same (some k) = refl

  from_start :
      (now : ℕ) (past : Bool) (o : Option ℕ) (n : ℕ)
      → is_within leb (elim o [ some date ↦ some date | none ↦ if past then none else some now ]) n
        ≡ true
      → Upcoming now past o n
  from_start now past (some date) n h = ground arith
  from_start now false none n h = ground arith
  from_start now true none n h = tt

  to_start :
      (now : ℕ) (past : Bool) (o : Option ℕ) (n : ℕ)
      → Upcoming now past o n
      → is_within leb (elim o [ some date ↦ some date | none ↦ if past then none else some now ]) n
        ≡ true
  to_start now past (some date) n h = ground arith
  to_start now false none n h = ground arith
  to_start now true none n h = refl

  pub is_match-Fits :
      (now : ℕ) (q : SearchQuery) (db : Db) (s : Services)
      → is_match ilike now q db s ≡ true
      → Fits ilike now q db s
  unfolding is_match
  is_match-Fits now q db s h =
      let h1 = and-right s.is_active _ h in
      let h2 = and-right (is_located ilike q (location_of ilike db s)) _ h1 in
      let h3 = and-right (fits_mode ilike q.booking_mode s.booking_mode) _ h2 in
      let h4 = and-right (is_within leb q.min_price s.base_price) _ h3 in
      let h5 = and-right (is_within (λ bound n. leb n bound) q.max_price s.base_price) _ h4 in
      (
        and-left s.is_active _ h,
        subst (IsThere ilike q) (same_place db s) (from_place q _ (and-left _ _ h1)),
        from_mode q.booking_mode s.booking_mode (and-left _ _ h2),
        from_below q.min_price s.base_price (and-left _ _ h3),
        from_above q.max_price s.base_price (and-left _ _ h4),
        from_start now q.include_past q.date_from s.start_time (and-left _ _ h5),
        from_above q.date_to s.start_time (and-right _ _ h5),
      )

  pub Fits-is_match :
      (now : ℕ) (q : SearchQuery) (db : Db) (s : Services)
      → Fits ilike now q db s
      → is_match ilike now q db s ≡ true
  unfolding is_match
  Fits-is_match now q db s (active, place, mode, low, high, start, end) = and_true active (
      and_true (to_place q _ (subst (IsThere ilike q) (sym (same_place db s)) place)) (
        and_true (to_mode q.booking_mode s.booking_mode mode) (
          and_true (to_below q.min_price s.base_price low) (
            and_true (to_above q.max_price s.base_price high) (
              and_true (to_start now q.include_past q.date_from s.start_time start)
                (to_above q.date_to s.start_time end))))))
