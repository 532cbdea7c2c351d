-- ===== src/Cache/Announced.antt =====
-- The requests of a seller on an event, and the task that each leaves for the cache.
use event_booking_ticketing.Bookings.{active_service}
use event_booking_ticketing.Catalog.Capacity.{
  check_times-state, check_capacity-state, check_mode-state, check_location-state,
}
use event_booking_ticketing.Cache.Changes.{
  remove_service-SameBut, active_service-id, store_service-SameBut, SameBut,
}
use event_booking_ticketing.Session.{invalidate_all, Task, Result-cases, Session}
use event_booking_ticketing.Model.{BookingMode, Services, User}
use event_booking_ticketing.Env.{Env}
use event_booking_ticketing.Discovery.{Wire}
use event_booking_ticketing.Catalog.{
  has_bookings, is_active_booking, updated_service, check_times, check_capacity, check_mode,
  check_location, is_stranger, with_default, check_creation, update_found, delete_service,
  update_service, create_services, ServiceUpdate, ServiceCreate,
}
use event_booking_ticketing.Common.{
  false, any, Option-cases, Option, Bool-cases, refl, arith, inr, ◌∷◌, inl, ◌⊎◌, ◌≡◌, ℕ,
}

-- Nothing is committed or announced; or one event at most reads otherwise, and is announced; or
-- all of them are announced.
abbrev pub IsAnnounced : Wire → Session → Session → Type 0
IsAnnounced w s s' =
    ((s'.saved ≡ s.saved) × (s'.tasks ≡ s.tasks))
    ⊎ (((k : ℕ) × (s'.tasks ≡ Task.invalidate_services_cache k ∷ s.tasks)
          × SameBut w k s.db s'.saved)
        ⊎ (s'.tasks ≡ invalidate_all ∷ s.tasks))

module _ (w : Wire) (s : Session) where
  check_creation-state :
      (e : Env) (req : ServiceCreate) (user : User) → (check_creation e req user s).1 ≡ s
  unfolding check_creation
  check_creation-state e req user = ground arith

  pub create_services-IsAnnounced :
      (e : Env) (req : ServiceCreate) (user : User)
      → IsAnnounced w s (create_services e req user s).1
  unfolding create_services
  create_services-IsAnnounced e req user = elim (Result-cases (check_creation e req user s).0) [
    | inl (profile, q) ↦ rw (q, check_creation-state e req user) (inr (inr refl))
    | inr (f, q) ↦ rw (q, check_creation-state e req user) (inl (refl, refl))
  ]

  update_found-IsAnnounced :
      (e : Env) (service : Services) (u : ServiceUpdate) (user : User)
      → IsAnnounced w s (update_found e service u user s).1
  unfolding update_found
  update_found-IsAnnounced e service u user =
      let mode : BookingMode = with_default u.booking_mode service.booking_mode in
      let named : (cap : Option (Option ℕ)) → (updated_service u cap service).id ≡ service.id =
        λ cap. unfold updated_service in refl in
      elim (Bool-cases (is_stranger user service.seller_id)) [
        | inl a ↦ rw a (inl (refl, refl))
        | inr a ↦ elim (Result-cases (check_location u.location_id user s).0) [
          | inr (f, b) ↦ rw (a, b, check_location-state u.location_id user s) (inl (refl, refl))
          | inl (_, b) ↦
              elim (Result-cases (check_mode service u.max_capacity u.booking_mode s).0) [
                | inr (f, c) ↦
                    rw
                      (
                        a,
                        b,
                        check_location-state u.location_id user s,
                        c,
                        check_mode-state service u.max_capacity u.booking_mode s,
                      )
                      (inl (refl, refl))
                | inl (cap, c) ↦ elim (Result-cases (check_capacity e service.id cap mode s).0) [
                  | inr (f, d) ↦
                      rw
                        (
                          a,
                          b,
                          check_location-state u.location_id user s,
                          c,
                          check_mode-state service u.max_capacity u.booking_mode s,
                          d,
                          check_capacity-state e service.id cap mode s,
                        )
                        (inl (refl, refl))
                  | inl (_, d) ↦ elim (Result-cases (check_times e service u s).0) [
                    | inr (f, t) ↦
                        rw
                          (
                            a,
                            b,
                            check_location-state u.location_id user s,
                            c,
                            check_mode-state service u.max_capacity u.booking_mode s,
                            d,
                            check_capacity-state e service.id cap mode s,
                            t,
                            check_times-state e service u s,
                          )
                          (inl (refl, refl))
                    | inl (_, t) ↦
                        rw
                          (
                            a,
                            b,
                            check_location-state u.location_id user s,
                            c,
                            check_mode-state service u.max_capacity u.booking_mode s,
                            d,
                            check_capacity-state e service.id cap mode s,
                            t,
                            check_times-state e service u s,
                          )
                          (inr (
                            inl (
                              service.id,
                              refl,
                              store_service-SameBut w (updated_service u cap service) service.id
                                  s.db (named cap),
                            )))
                  ]
                ]
              ]
        ]
      ]

  pub update_service-IsAnnounced :
      (e : Env) (k : ℕ) (u : ServiceUpdate) (user : User)
      → IsAnnounced w s (update_service e k u user s).1
  unfolding update_service
  update_service-IsAnnounced e k u user = elim (Option-cases (active_service k s.db)) [
    | inl q ↦ rw q (inl (refl, refl))
    | inr (service, q) ↦ rw q (update_found-IsAnnounced e service u user)
  ]

  pub delete_service-IsAnnounced :
      (k : ℕ) (user : User) → IsAnnounced w s (delete_service k user s).1
  unfolding delete_service
  delete_service-IsAnnounced k user = elim (Option-cases (active_service k s.db)) [
    | inl q ↦ rw q (inl (refl, refl))
    | inr (service, q) ↦ elim (Bool-cases (is_stranger user service.seller_id)) [
      | inl a ↦ rw (q, a) (inl (refl, refl))
      | inr a ↦ elim (Bool-cases (any (is_active_booking k) s.db.bookings)) [
        | inl b ↦ rw (q, a, b) (inl (refl, refl))
        | inr b ↦ elim (Bool-cases (has_bookings k s.db)) [
          | inl c ↦
              rw (q, a, b, c)
                (inr (
                  inl (
                    k,
                    refl,
                    store_service-SameBut w (record service { is_active = false }) k s.db
                        (active_service-id k s.db service q),
                  )))
          | inr c ↦ rw (q, a, b, c) (inr (inl (k, refl, remove_service-SameBut w k s.db)))
        ]
      ]
    ]
  ]
