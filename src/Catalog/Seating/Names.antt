-- ===== src/Catalog/Seating/Names.antt =====
-- The names of the tiers of an event.
use event_booking_ticketing.Session.{ok, Session}
use event_booking_ticketing.Catalog.Seating.Codes.{owned_service-state, one_tier, tier_count}
use event_booking_ticketing.Model.{User, ServiceTier}
use event_booking_ticketing.Catalog.Seating.{
  str_eq, has_tier_named, ServiceTierCreate, insert_tier, commit_tier, create_service_tier,
}
use text.Mathlib.TextEquality.{eq_iff}
use event_booking_ticketing.Common.{
  refl, [], arith, if◌then◌else◌, ◌∷◌, ◌+◌, ◌&&◌, ◌==◌, sum_by, false, ◌≡◌, any, List, String, ℕ,
}

tier_count-none :
    (n : ℕ) (name : String) (tiers : List ServiceTier)
    → any (has_tier_named (str_eq name) n) tiers ≡ false
    → sum_by (one_tier n name) tiers ≡ 0
tier_count-none n name [] h = refl
tier_count-none n name (t ∷ tiers) h =
    ground (arith, eq_iff name t.name, eq_iff t.name name, tier_count-none n name tiers)

-- A tier that is created is committed, with a name that no tier of its event had before, and that no
-- tier's name in lower case agrees with once it is cleaned; it is the one tier of the event with the
-- name, and of every other name and service there are as many tiers as before. So the names of the
-- tiers of a service stay unique.
pub create_service_tier-name :
    (clean lower : String → String) (k : ℕ) (tier_in : ServiceTierCreate) (user : User)
    (s : Session) (id n : ℕ) (name : String)
    → (create_service_tier clean lower k tier_in user s).0 ≡ ok id
    → let same = (k == n) && str_eq tier_in.name name in
      (any (has_tier_named (λ x. str_eq (lower x) (clean tier_in.name)) k) s.db.tiers ≡ false)
      × (tier_count k tier_in.name s.db ≡ 0)
      × (tier_count n name (create_service_tier clean lower k tier_in user s).1.saved
          ≡ tier_count n name s.db + (if same then 1 else 0))
unfolding create_service_tier commit_tier insert_tier tier_count
create_service_tier-name clean lower k tier_in user s id n name h = (
  ground (arith, owned_service-state k user s),
  ground (arith, owned_service-state k user s, tier_count-none k tier_in.name s.db.tiers),
  ground (arith, owned_service-state k user s),
)
