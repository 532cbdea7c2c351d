-- ===== src/Catalog/Search/Pages.antt =====
-- The pages of a search.
use event_booking_ticketing.Catalog.Search.Filters.{
  sorts_before-Before, Fits-is_match, is_match-Fits, Before, Fits,
}
use event_booking_ticketing.Catalog.Search.{
  date_desc, date_asc, price_desc, price_asc, SearchQuery, sorts_before, SortBy, is_match,
  fetch_page,
}
use event_booking_ticketing.Model.{Db, Services}
use event_booking_ticketing.Common.{
  next_pages, no_pages, zero, ◌++◌, suc, ◌*◌, Chain-ordered, Occurs-select, All-pass, Occurs-sort,
  sym, subst, Chain, All, Occurs, IsOrdered-sort, IsOrdered-drop, IsOrdered-take, AllPass-select,
  AllPass-sort, AllPass-drop, AllPass-take, length-take-le, take_all, ◌∙◌, none, some, sum_by,
  String, ap, refl, Option, insert_sorted, arith, ◌+◌, ◌≤◌, true, [], false, ◌∷◌, ◌≡◌, length, sort,
  drop, select, take, Bool, List, ℕ,
}

sorts_before_total :
    (by : Option SortBy) (a b : Services) → sorts_before by a b ≡ false → sorts_before by b a ≡ true
sorts_before_total none a b h = ground arith
sorts_before_total (some price_asc) a b h = ground arith
sorts_before_total (some price_desc) a b h = ground arith
sorts_before_total (some date_asc) a b h = ground arith
sorts_before_total (some date_desc) a b h = ground arith

-- A page of a search has at most the rows that were asked for; each is active, at a venue in the
-- city and the country, of the mode, and within the prices and the dates that were asked for; and
-- each row stands before the next in the order that was asked for, those alike in it by their ids.
pub fetch_page_sound :
    (ilike : String → String → Bool) (now : ℕ) (q : SearchQuery) (db : Db)
    → (length (fetch_page ilike now q db) ≤ q.limit)
      × All (Fits ilike now q db) (fetch_page ilike now q db)
      × Chain (Before q.sort_by) (fetch_page ilike now q db)
unfolding fetch_page
fetch_page_sound ilike now q db =
    let le : Services → Services → Bool = sorts_before q.sort_by in
    let found : List Services = select (is_match ilike now q db) db.services in
    (
      length-take-le q.limit (drop q.offset (sort le found)),
      All-pass (Fits ilike now q db) (is_match ilike now q db) _ (is_match-Fits ilike now q db) (
          AllPass-take _ q.limit (drop q.offset (sort le found)) (
            AllPass-drop _ q.offset (sort le found)
              (AllPass-sort _ le found (AllPass-select (is_match ilike now q db) db.services)))),
      Chain-ordered (Before q.sort_by) le _ (sorts_before-Before q.sort_by) (
          IsOrdered-take le q.limit (drop q.offset (sort le found)) (
            IsOrdered-drop le q.offset (sort le found)
              (IsOrdered-sort le found (sorts_before_total q.sort_by)))),
    )

sum_by-insert_sorted :
    (w : Services → ℕ) (le : Services → Services → Bool) (x : Services) (xs : List Services)
    → sum_by w (insert_sorted le x xs) ≡ w x + sum_by w xs
sum_by-insert_sorted w le x [] = omega arith
sum_by-insert_sorted w le x (y ∷ ys) = ground (arith, sum_by-insert_sorted w le x ys)

sum_by-sort :
    (w : Services → ℕ) (le : Services → Services → Bool) (xs : List Services)
    → sum_by w (sort le xs) ≡ sum_by w xs
sum_by-sort w le [] = refl
sum_by-sort w le (x ∷ xs) =
    omega (arith, sum_by-insert_sorted w le x (sort le xs), sum_by-sort w le xs)

one_row : Services → ℕ
one_row s = 1

length-sum_by : (xs : List Services) → length xs ≡ sum_by one_row xs
unfolding one_row
length-sum_by [] = refl
length-sum_by (x ∷ xs) = omega (arith, length-sum_by xs)

-- What a client sees that reads page after page, at one moment.
unfoldable pub read_search : (String → String → Bool) → ℕ → ℕ → SearchQuery → Db → List Services
read_search ilike zero now q db = []
read_search ilike (suc k) now q db =
    fetch_page ilike now q db
    ++ read_search ilike k now (record q { offset = q.offset + q.limit }) db

read_search-take :
    (ilike : String → String → Bool) (k now : ℕ) (q : SearchQuery) (db : Db)
    → read_search ilike k now q db
      ≡ take (k * q.limit) (
          drop q.offset
            (sort (sorts_before q.sort_by) (select (is_match ilike now q db) db.services)))
unfolding read_search fetch_page is_match
read_search-take ilike zero now q db =
    no_pages q.limit
      (drop q.offset (sort (sorts_before q.sort_by) (select (is_match ilike now q db) db.services)))
read_search-take ilike (suc k) now q db =
    let all : List Services =
      sort (sorts_before q.sort_by) (select (is_match ilike now q db) db.services) in
    ap (λ rest. take q.limit (drop q.offset all) ++ rest)
      (read_search-take ilike k now (record q { offset = q.offset + q.limit }) db)
    ∙ next_pages k q.limit q.offset all

-- Who reads a search page after page from the start, with whatever limit, until the pages have room
-- for the events that are found, has read every event of the table that is active, at a venue in
-- the city and the country, of the mode, and within the prices and the dates that were asked for;
-- and what was read stands in the order that was asked for, over all the pages.
pub fetch_page_complete :
    (ilike : String → String → Bool) (k now : ℕ) (q : SearchQuery) (db : Db) (s : Services)
    → q.offset ≡ 0
    → length (select (is_match ilike now q db) db.services) ≤ k * q.limit
    → Occurs s db.services
    → Fits ilike now q db s
    → Occurs s (read_search ilike k now q db)
      × Chain (Before q.sort_by) (read_search ilike k now q db)
fetch_page_complete ilike k now q db s start enough there fits =
    let le : Services → Services → Bool = sorts_before q.sort_by in
    let found : List Services = select (is_match ilike now q db) db.services in
    let all : List Services = sort le found in
    let whole : take (k * q.limit) all ≡ all = take_all (k * q.limit) all (
      omega
        (arith, enough, length-sum_by all, length-sum_by found, sum_by-sort one_row le found)) in
    let read : read_search ilike k now q db ≡ all =
      read_search-take ilike k now q db ∙ ap (λ n. take (k * q.limit) (drop n all)) start ∙ whole in
    subst (λ seen. Occurs s seen × Chain (Before q.sort_by) seen) (sym read)
      (
        Occurs-sort le s found (
            Occurs-select (is_match ilike now q db) s db.services
              (Fits-is_match ilike now q db s fits) there),
        Chain-ordered (Before q.sort_by) le all (sorts_before-Before q.sort_by)
            (IsOrdered-sort le found (sorts_before_total q.sort_by)),
      )
