-- ===== src/Cache/Sellers.antt =====
-- The requests of a seller on the tiers and the seats, and all of the sellers' requests together.
use event_booking_ticketing.Cache.Coherence.{detail_text}
use event_booking_ticketing.Cache.Announced.{
  create_services-IsAnnounced, update_service-IsAnnounced, delete_service-IsAnnounced, IsAnnounced,
}
use event_booking_ticketing.Catalog.Seating.Codes.{owned_service-state}
use event_booking_ticketing.Cache.Changes.{insert_items-SameBut, insert_tier-SameBut}
use event_booking_ticketing.Catalog.Seating.{
  is_seat_named, has_tier_named, owned_service, new_tier, validate_unique_identifier_codes,
  bulk_create_inventory, commit_tier, request_bulk_inventory, BulkInventoryCreate,
  ServiceTierCreate, create_service_tier,
}
use event_booking_ticketing.Session.{Result-cases, Session}
use event_booking_ticketing.Model.{is_unit_assigned, ServiceTier, User}
use event_booking_ticketing.Env.{Env}
use event_booking_ticketing.Discovery.{Wire}
use event_booking_ticketing.Catalog.{
  delete_service, update_service, create_services, ServiceUpdate, ServiceCreate,
}
use event_booking_ticketing.Common.{
  str_eq, ◌&&◌, ◌==◌, first, String, any, Option-cases, Option, Bool-cases, refl, inr, inl, ◌≡◌, ℕ,
}

pub data SellerRequest : Type 0 where
  creates : ServiceCreate → SellerRequest
  updates : ℕ → ServiceUpdate → SellerRequest
  deletes : ℕ → SellerRequest
  adds_tier : ℕ → ServiceTierCreate → SellerRequest
  adds_seats : ℕ → BulkInventoryCreate → SellerRequest

-- The session that the endpoint leaves.
unfoldable pub serve_seller : Env → Wire → SellerRequest → User → Session → Session
serve_seller e w (creates req) user s = (create_services e req user s).1
serve_seller e w (updates k u) user s = (update_service e k u user s).1
serve_seller e w (deletes k) user s = (delete_service k user s).1
serve_seller e w (adds_tier k tier_in) user s =
    (create_service_tier w.clean w.lower k tier_in user s).1
serve_seller e w (adds_seats k inventory_in) user s =
    (request_bulk_inventory w.strip k inventory_in user s).1

module _ (w : Wire) (s : Session) where
  tier-IsAnnounced :
      (k : ℕ) (tier_in : ServiceTierCreate) (user : User)
      → s.saved ≡ s.db
      → IsAnnounced w s (create_service_tier w.clean w.lower k tier_in user s).1
  unfolding create_service_tier commit_tier
  tier-IsAnnounced k tier_in user clean =
      let t : ServiceTier = new_tier k tier_in s.db in
      elim (Result-cases (owned_service k user s).0) [
        | inr (f, q) ↦ rw (q, owned_service-state k user s) (inl (refl, refl))
        | inl (service, q) ↦
            elim (Bool-cases (
              any (has_tier_named (λ n. str_eq (w.lower n) (w.clean tier_in.name)) k) s.db.tiers)) [
                | inl a ↦ rw (q, owned_service-state k user s, a) (inl (refl, refl))
                | inr a ↦
                    elim (Bool-cases (any (has_tier_named (str_eq tier_in.name) k) s.db.tiers)) [
                      | inl b ↦ rw (q, owned_service-state k user s, a, b) (inl (refl, refl))
                      | inr b ↦
                          rw (q, owned_service-state k user s, a, b)
                            (inr (inl (k, refl, insert_tier-SameBut w t s.db)))
                    ]
              ]
      ]

  bulk-IsAnnounced :
      (k : ℕ) (inventory_in : BulkInventoryCreate) (user : User)
      → IsAnnounced w s (bulk_create_inventory k inventory_in user s).1
  unfolding bulk_create_inventory
  bulk-IsAnnounced k inventory_in user =
      let tier : Option ServiceTier =
        first (λ t. (t.id == inventory_in.tier_id) && (t.service_id == k)) s.db.tiers in
      elim (Result-cases (owned_service k user s).0) [
        | inr (f, q) ↦ rw (q, owned_service-state k user s) (inl (refl, refl))
        | inl (service, q) ↦ elim (Bool-cases (is_unit_assigned service.booking_mode)) [
          | inr a ↦ rw (q, owned_service-state k user s, a) (inl (refl, refl))
          | inl a ↦ elim (Option-cases tier) [
            | inl b ↦ rw (q, owned_service-state k user s, a, b) (inl (refl, refl))
            | inr (t, b) ↦
                elim (Bool-cases (any (is_seat_named k inventory_in.identifier_codes) s.db.items)) [
                  | inl c ↦ rw (q, owned_service-state k user s, a, b, c) (inl (refl, refl))
                  | inr c ↦
                      rw (q, owned_service-state k user s, a, b, c)
                        (inr (
                          inl (
                            k,
                            refl,
                            insert_items-SameBut w k inventory_in.tier_id
                                inventory_in.identifier_codes k s.db,
                          )))
                ]
          ]
        ]
      ]

  request_bulk-IsAnnounced :
      (strip : String → String) (k : ℕ) (inventory_in : BulkInventoryCreate) (user : User)
      → IsAnnounced w s (request_bulk_inventory strip k inventory_in user s).1
  unfolding request_bulk_inventory detail_text
  request_bulk-IsAnnounced strip k inventory_in user =
      elim (Option-cases (validate_unique_identifier_codes strip inventory_in.identifier_codes)) [
        | inl q ↦ rw (q, request_bulk_inventory) (inl (refl, refl))
        | inr (codes, q) ↦
            rw (q, request_bulk_inventory)
              (bulk-IsAnnounced k (record inventory_in { identifier_codes = codes }) user)
      ]

  pub serve_seller-IsAnnounced :
      (e : Env) (req : SellerRequest) (user : User)
      → s.saved ≡ s.db
      → IsAnnounced w s (serve_seller e w req user s)
  unfolding serve_seller
  serve_seller-IsAnnounced e (creates req) user clean = create_services-IsAnnounced w s e req user
  serve_seller-IsAnnounced e (updates k u) user clean = update_service-IsAnnounced w s e k u user
  serve_seller-IsAnnounced e (deletes k) user clean = delete_service-IsAnnounced w s k user
  serve_seller-IsAnnounced e (adds_tier k tier_in) user clean =
      tier-IsAnnounced k tier_in user clean
  serve_seller-IsAnnounced e (adds_seats k inventory_in) user clean =
      request_bulk-IsAnnounced w.strip k inventory_in user
