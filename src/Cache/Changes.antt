-- ===== src/Cache/Changes.antt =====
-- Which events a seller's request changes, and which it announces to the cache.
use event_booking_ticketing.Catalog.Search.{fetch_detail}
use event_booking_ticketing.Catalog.{store_service, remove_service}
use event_booking_ticketing.Catalog.Seating.{insert_item, insert_tier, insert_items}
use event_booking_ticketing.Bookings.{active_service}
use event_booking_ticketing.Cache.Coherence.{detail_text}
use event_booking_ticketing.Discovery.{Wire}
use event_booking_ticketing.Model.{has_service_id, ServiceTier, Db, Services}
use event_booking_ticketing.Common.{
  if◌then◌else◌, none, Option, ◌∙◌, sym, ap, first-true, ==→eq, [], inr, not, update, ◌∷◌, inl,
  refl, Option-cases, ◌==◌, String, first, arith, select, some, ◌≢◌, ◌≡◌, List, ℕ,
}

-- Every event but one reads as before.
abbrev pub SameBut : Wire → ℕ → Db → Db → Type 0
SameBut w k db db' = (j : ℕ) → j ≢ k → detail_text w j db' ≡ detail_text w j db

pub active_service-id : (j : ℕ) (db : Db) (s : Services) → active_service j db ≡ some s → s.id ≡ j
unfolding active_service
active_service-id j db s h = elim (Option-cases (first (has_service_id j) db.services)) [
  | inl q ↦ absurd (ground arith)
  | inr (x, q) ↦
      let named = first-true (has_service_id j) db.services x q in
      ground (arith, named, ==→eq x.id j)
]

-- The rows that the response on an event is made of.
SameBut-rows :
    (w : Wire) (k : ℕ) (db db' : Db)
    → ((j : ℕ)
        → j ≢ k
        → first (has_service_id j) db'.services ≡ first (has_service_id j) db.services)
    → ((j : ℕ)
        → j ≢ k
        → select (λ t. t.service_id == j) db'.tiers ≡ select (λ t. t.service_id == j) db.tiers)
    → SameBut w k db db'
unfolding detail_text fetch_detail
SameBut-rows w k db db' services tiers j ne =
    let same : active_service j db' ≡ active_service j db =
      unfold active_service in
      ap
        (λ (o : Option Services). elim o as (λ x. Option Services) [
          | none ↦ none
          | some service ↦ if service.is_active then some service else none
        ])
        (services j ne) in
    elim (Option-cases (active_service j db)) [
      | inl q ↦ rw (same, q, detail_text, fetch_detail) refl
      | inr (s, q) ↦
          let e : s.id ≡ j = active_service-id j db s q in
          rw (same, q, detail_text, fetch_detail)
            (ap (λ ts. some (w.dump_service (record { service = s; tiers = ts })))
              (tiers s.id (λ r. ne (sym e ∙ r))))
    ]

first-update_ne :
    (j n : ℕ) (new : Services) (ss : List Services)
    → new.id ≡ n
    → j ≢ n
    → first (has_service_id j) (update (has_service_id n) (λ s. new) ss)
      ≡ first (has_service_id j) ss
first-update_ne j n new [] same ne = refl
first-update_ne j n new (s ∷ ss) same ne =
    ground (arith, first-update_ne j n new ss same ne, ==→eq s.id n, ==→eq new.id j, ==→eq s.id j)

first-select_ne :
    (j n : ℕ) (ss : List Services)
    → j ≢ n
    → first (has_service_id j) (select (λ s. not (has_service_id n s)) ss)
      ≡ first (has_service_id j) ss
first-select_ne j n [] ne = refl
first-select_ne j n (s ∷ ss) ne =
    ground (arith, first-select_ne j n ss ne, ==→eq s.id n, ==→eq s.id j)

select-select_ne :
    (j n : ℕ) (ts : List ServiceTier)
    → j ≢ n
    → select (λ t. t.service_id == j) (select (λ t. not (t.service_id == n)) ts)
      ≡ select (λ t. t.service_id == j) ts
select-select_ne j n [] ne = refl
select-select_ne j n (t ∷ ts) ne =
    ground (arith, select-select_ne j n ts ne, ==→eq t.service_id n, ==→eq t.service_id j)

module _ (w : Wire) where
  pub store_service-SameBut :
      (new : Services) (k : ℕ) (db : Db) → new.id ≡ k → SameBut w k db (store_service new db)
  unfolding store_service
  store_service-SameBut new k db same =
      SameBut-rows w k db (store_service new db)
        (λ j ne. first-update_ne j new.id new db.services refl (λ e. ne (e ∙ same))) (λ j ne. refl)

  pub remove_service-SameBut : (k : ℕ) (db : Db) → SameBut w k db (remove_service k db)
  unfolding remove_service
  remove_service-SameBut k db =
      SameBut-rows w k db (remove_service k db) (λ j ne. first-select_ne j k db.services ne)
        (λ j ne. select-select_ne j k db.tiers ne)

  pub insert_tier-SameBut :
      (t : ServiceTier) (db : Db) → SameBut w t.service_id db (insert_tier t db)
  unfolding insert_tier
  insert_tier-SameBut t db =
      SameBut-rows w t.service_id db (insert_tier t db) (λ j ne. refl) (λ j ne. ground arith)

  pub insert_items-SameBut :
      (k tier_id : ℕ) (codes : List String) (n : ℕ) (db : Db)
      → SameBut w n db (insert_items k tier_id codes db)
  unfolding insert_items insert_item detail_text fetch_detail active_service
  insert_items-SameBut k tier_id [] n db j ne = refl
  insert_items-SameBut k tier_id (c ∷ codes) n db j ne =
      insert_items-SameBut k tier_id codes n (insert_item k tier_id c db) j ne
