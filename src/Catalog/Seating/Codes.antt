-- ===== src/Catalog/Seating/Codes.antt =====
-- The codes of the seats of an event, and the names of its tiers.
use event_booking_ticketing.Session.{Result, ok, Session}
use text.Mathlib.TextEquality.{eq_iff}
use event_booking_ticketing.Model.{User, ServiceTier, InventoryItems, Db}
use event_booking_ticketing.Catalog.Seating.{
  owned_service, bulk_create_inventory, BulkInventoryCreate, request_bulk_inventory,
  validate_unique_identifier_codes, is_seat_named, insert_item, str_eq, insert_items,
}
use event_booking_ticketing.Common.{
  and-right, and-left, subst, ==→eq, ◌∙◌, sym, ap, inr, inl, Option-cases, length, map, some, refl,
  any, ◌&&◌, [], false, ◌+◌, arith, ◌==◌, true, if◌then◌else◌, ◌≡◌, sum_by, mem_text,
  distinct_texts, ◌∷◌, String, List, ℕ,
}

-- How many seats of a service have a code, and tiers a name.
abbrev one_seat : ℕ → String → InventoryItems → ℕ
one_seat n c i = if (i.service_id == n) && str_eq i.identifier_code c then 1 else 0

unfoldable pub seat_count : ℕ → String → Db → ℕ
seat_count n c db = sum_by (one_seat n c) db.items

abbrev pub one_tier : ℕ → String → ServiceTier → ℕ
one_tier n name t = if (t.service_id == n) && str_eq t.name name then 1 else 0

unfoldable pub tier_count : ℕ → String → Db → ℕ
tier_count n name db = sum_by (one_tier n name) db.tiers

one_text : String → List String → ℕ
one_text c [] = 0
one_text c (d ∷ codes) = (if str_eq d c then 1 else 0) + one_text c codes

str_eq_sym : (s t : String) → str_eq s t ≡ str_eq t s
str_eq_sym s t = ground (arith, eq_iff s t, eq_iff t s)

one_text-not_mem :
    (c : String) (codes : List String) → mem_text c codes ≡ false → one_text c codes ≡ 0
unfolding one_text
one_text-not_mem c [] h = refl
one_text-not_mem c (d ∷ codes) h = ground (arith, str_eq_sym d c, one_text-not_mem c codes)

one_text-distinct :
    (c : String) (codes : List String)
    → distinct_texts codes ≡ true
    → one_text c codes ≡ (if mem_text c codes then 1 else 0)
unfolding one_text
one_text-distinct c [] h = refl
one_text-distinct c (d ∷ codes) h =
    ground (arith, eq_iff d c, eq_iff c d, one_text-distinct c codes, one_text-not_mem c codes)

seat_count-insert_items :
    (k tier_id : ℕ) (codes : List String) (n : ℕ) (c : String) (db : Db)
    → seat_count n c (insert_items k tier_id codes db)
      ≡ seat_count n c db + (if k == n then one_text c codes else 0)
unfolding insert_items insert_item seat_count one_text
seat_count-insert_items k tier_id [] n c db = ground arith
seat_count-insert_items k tier_id (d ∷ codes) n c db =
    ground (arith, seat_count-insert_items k tier_id codes n c (insert_item k tier_id d db))

seat_count-none :
    (k : ℕ) (codes : List String) (c : String) (items : List InventoryItems)
    → mem_text c codes ≡ true
    → any (is_seat_named k codes) items ≡ false
    → sum_by (one_seat k c) items ≡ 0
seat_count-none k codes c [] m h = refl
seat_count-none k codes c (i ∷ items) m h =
    ground (arith, eq_iff i.identifier_code c, seat_count-none k codes c items m)

seat_count-fresh :
    (k n : ℕ) (codes : List String) (c : String) (db : Db)
    → any (is_seat_named k codes) db.items ≡ false
    → ((k == n) && mem_text c codes) ≡ true
    → seat_count n c db ≡ 0
unfolding seat_count
seat_count-fresh k n codes c db free named =
    subst (λ m. sum_by (one_seat m c) db.items ≡ 0) (==→eq k n (and-left (k == n) _ named))
      (seat_count-none k codes c db.items (and-right (k == n) _ named) free)

-- The codes that pass the validation are distinct.
validate-distinct :
    (strip : String → String) (codes valid : List String)
    → validate_unique_identifier_codes strip codes ≡ some valid
    → (valid ≡ map strip codes) × (distinct_texts valid ≡ true)
unfolding validate_unique_identifier_codes
validate-distinct strip codes valid h = ground arith

pub owned_service-state : (k : ℕ) (user : User) (s : Session) → (owned_service k user s).1 ≡ s
unfolding owned_service
owned_service-state k user s = ground arith

bulk_create_effect :
    (k : ℕ) (inventory_in : BulkInventoryCreate) (user : User) (s : Session) (count : ℕ)
    → (bulk_create_inventory k inventory_in user s).0 ≡ ok count
    → (count ≡ length inventory_in.identifier_codes)
      × (any (is_seat_named k inventory_in.identifier_codes) s.db.items ≡ false)
      × ((bulk_create_inventory k inventory_in user s).1.saved
          ≡ insert_items k inventory_in.tier_id inventory_in.identifier_codes s.db)
unfolding bulk_create_inventory
bulk_create_effect k inventory_in user s count h = ground (arith, owned_service-state k user s)

-- Seats that are created are committed, one for each code that was asked for, once it is stripped:
-- there was no seat of the event with such a code before, there is one now, and of every other code
-- and service there are as many seats as before. So the codes of a service stay unique.
pub request_bulk_inventory-codes :
    (strip : String → String) (k : ℕ) (inventory_in : BulkInventoryCreate) (user : User)
    (s : Session) (count n : ℕ) (c : String)
    → (request_bulk_inventory strip k inventory_in user s).0 ≡ ok count
    → let codes = map strip inventory_in.identifier_codes in
      let created = (k == n) && mem_text c codes in
      (count ≡ length codes)
      × (seat_count n c (request_bulk_inventory strip k inventory_in user s).1.saved
          ≡ seat_count n c s.db + (if created then 1 else 0))
      × (created ≡ true → seat_count n c s.db ≡ 0)
unfolding request_bulk_inventory
request_bulk_inventory-codes strip k inventory_in user s count n c h =
    elim (Option-cases (validate_unique_identifier_codes strip inventory_in.identifier_codes)) [
      | inl q ↦ absurd (ground arith)
      | inr (codes, q) ↦
          let (same, distinct) = validate-distinct strip inventory_in.identifier_codes codes q in
          let valid : BulkInventoryCreate = record inventory_in { identifier_codes = codes } in
          let go : request_bulk_inventory strip k inventory_in user s
              ≡ bulk_create_inventory k valid user s =
            rw (q, request_bulk_inventory) refl in
          let (sized, free, saved) =
            bulk_create_effect k valid user s count
              (ap (λ (x : Result ℕ × Session). x.0) (sym go) ∙ h) in
          rw (go, ← same)
            (
              sized,
              ap (seat_count n c) saved
                  ∙ ground (
                    arith,
                    seat_count-insert_items k inventory_in.tier_id codes n c s.db,
                    one_text-distinct c codes,
                  ),
              λ created.
                  unfold seat_count in
                  ground (arith, ==→eq k n, seat_count-none k codes c s.db.items),
            )
    ]
