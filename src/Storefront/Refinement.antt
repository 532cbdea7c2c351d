-- ===== src/Storefront/Refinement.antt =====
-- When a reader cannot tell the cache from the database.
use event_booking_ticketing.Cache.Invalidation.{IsFresh-emptied, IsFresh-invalidated}
use event_booking_ticketing.Session.{open_session, Session}
use event_booking_ticketing.Auth.Visit.{Visit}
use event_booking_ticketing.Cache.Sellers.{serve_seller-IsAnnounced, serve_seller, SellerRequest}
use event_booking_ticketing.Env.{Env}
use event_booking_ticketing.Cache.Reads.{
  compute_as_leader-IsRead, get_service_by_id-IsRead, AllFresh,
}
use event_booking_ticketing.Cache.Coherence.{IsFresh-later, IsFresh}
use event_booking_ticketing.Model.{User}
use event_booking_ticketing.Discovery.{get_service_by_id, Wire}
use event_booking_ticketing.Storefront.{
  reads, leads, idle, between, finish, Meanwhile, meets, finishes, visit_of, Site, run_task, look,
  run_tasks, replay_site, sells, run_site, looks, sell, SiteEvent,
}
use event_booking_ticketing.Redis.{Redis}
use event_booking_ticketing.Common.{
  arith, false, Bool, inr, sym, subst, inl, refl, true, ◌≡◌, [], ◌≤◌, ◌∷◌, List, ℕ,
}

abbrev pub time_of : Meanwhile → ℕ
time_of (idle now) = now
time_of (leads now k token) = now
time_of (reads now k token up) = now

abbrev pub AllBetween : ℕ → ℕ → List Meanwhile → Type 0
AllBetween first last [] = Unit
AllBetween first last (m ∷ ms) =
    (first ≤ time_of m) × (time_of m ≤ last) × AllBetween (time_of m) last ms

-- The events are in the order of their times.
abbrev pub IsTimely : ℕ → List SiteEvent → Type 0
IsTimely start [] = Unit
IsTimely start (looks now last k token up ms ∷ events) =
    (start ≤ now) × (now ≤ last) × AllBetween now last ms × IsTimely last events
IsTimely start (sells now e req user ∷ events) = (start ≤ now) × IsTimely now events
IsTimely start (finishes now up ∷ events) = (start ≤ now) × IsTimely now events

-- The tasks of a seller's request run before the next request, and reach Redis. The flag tells
-- whether there are tasks that have not run.
abbrev pub IsPrompt : Bool → List SiteEvent → Type 0
IsPrompt waiting [] = Unit
IsPrompt waiting (looks now last k token up ms ∷ events) = (waiting ≡ false) × IsPrompt false events
IsPrompt waiting (sells now e req user ∷ events) = (waiting ≡ false) × IsPrompt true events
IsPrompt waiting (finishes now up ∷ events) = (up ≡ true) × IsPrompt false events

module _ {S : Type 0} (redis : Redis S) (w : Wire) where
  between-IsFresh :
      (m : Meanwhile) (site : Site S)
      → IsFresh redis w (time_of m) site.committed site.redis
      → ((between redis w m site).0 ≡ time_of m)
        × IsFresh redis w (time_of m) site.committed (between redis w m site).1
  unfolding between
  between-IsFresh (idle now) site fresh = (refl, fresh)
  between-IsFresh (leads now k token) site fresh = (
    refl,
    (compute_as_leader-IsRead redis w now k w.cache_services_ttl token (visit_of true site)
        fresh).1,
  )
  between-IsFresh (reads now k token up) site fresh = (
    refl,
    (get_service_by_id-IsRead redis w now now k token [] (visit_of up site) (omega arith) tt
        fresh).1,
  )

  meets-AllFresh :
      (now last : ℕ) (ms : List Meanwhile) (site : Site S)
      → IsFresh redis w now site.committed site.redis
      → AllBetween now last ms
      → AllFresh redis w last site.committed (meets redis w ms site)
  unfolding meets
  meets-AllFresh now last [] site fresh h = tt
  meets-AllFresh now last (m ∷ ms) site fresh h =
      let (at, fresh') =
        between-IsFresh m site
          (IsFresh-later redis w now (time_of m) site.committed site.redis h.0 fresh) in
      (
        (rw at h.1),
        (rw at fresh'),
        meets-AllFresh (time_of m) last ms (record site { redis = (between redis w m site).1 })
            fresh' h.2,
      )

  -- The cache is fresh and no task is left, or will be fresh once the tasks have run.
  abbrev IsReady : Bool → ℕ → Site S → Type 0
  IsReady false start site = IsFresh redis w start site.committed site.redis × (site.pending ≡ [])
  IsReady true start site =
      (t : ℕ) → start ≤ t → IsFresh redis w t site.committed (finish redis w t true site).redis

  sell-IsReady :
      (start now : ℕ) (e : Env) (req : SellerRequest) (user : User) (site : Site S)
      → IsReady false start site
      → start ≤ now
      → IsReady true now (sell redis w e req user site)
  unfolding sell finish run_tasks run_task
  sell-IsReady start now e req user site (fresh, none_left) before t later =
      let s : Session = serve_seller e w req user (open_session site.committed) in
      let v : Visit S =
        visit_of true (record { committed = s.saved; redis = site.redis; pending = [] }) in
      let fresh' : IsFresh redis w t site.committed site.redis =
        IsFresh-later redis w start t site.committed site.redis (omega (arith, before, later))
          fresh in
      elim (serve_seller-IsAnnounced w (open_session site.committed) e req user refl) [
        | inl (saved, tasks) ↦
            rw (tasks, none_left) (subst (λ db. IsFresh redis w t db site.redis) (sym saved) fresh')
        | inr (inl (k, tasks, same)) ↦
            rw (tasks, none_left)
              (IsFresh-invalidated redis w t k site.committed v refl same fresh')
        | inr (inr tasks) ↦ rw (tasks, none_left) (IsFresh-emptied redis w t v refl)
      ]

  finish-IsReady :
      (waiting : Bool) (start now : ℕ) (site : Site S)
      → IsReady waiting start site
      → start ≤ now
      → IsReady false now (finish redis w now true site)
  unfolding finish run_tasks
  finish-IsReady true start now site ready later = (ready now later, refl)
  finish-IsReady false start now site (fresh, none_left) later =
      (rw none_left (IsFresh-later redis w start now site.committed site.redis later fresh), refl)

  run_site-replay :
      (events : List SiteEvent) (waiting : Bool) (site : Site S) (start : ℕ)
      → IsReady waiting start site
      → IsTimely start events
      → IsPrompt waiting events
      → run_site redis w events site ≡ replay_site w events site.committed
  unfolding run_site replay_site look sell finish
  run_site-replay [] waiting site start ready h p = refl
  run_site-replay (looks now last k token up ms ∷ events) true site start ready h p = cc
  run_site-replay (looks now last k token up ms ∷ events) false site start (fresh, none_left) h p =
      let v : Visit S = visit_of up site in
      let fresh' : IsFresh redis w now site.committed site.redis =
        IsFresh-later redis w start now site.committed site.redis h.0 fresh in
      let read =
        get_service_by_id-IsRead redis w now last k token (meets redis w ms site) v h.1
          (meets-AllFresh now last ms site fresh' h.2) fresh' in
      let site' : Site S = record site {
        redis = (get_service_by_id redis w now k token (meets redis w ms site) v).1.redis;
      } in
      rw (read.0, run_site-replay events false site' last (read.1, none_left) h.3 p.1) refl
  run_site-replay (sells now e req user ∷ events) true site start ready h p = cc
  run_site-replay (sells now e req user ∷ events) false site start ready h p =
      run_site-replay events true (sell redis w e req user site) now
        (sell-IsReady start now e req user site ready h.0) h.1 p.1
  run_site-replay (finishes now up ∷ events) waiting site start ready h (reached, p) = rw reached (
      run_site-replay events false (finish redis w now true site) now
        (finish-IsReady waiting start now site ready h.0) h.1 p)

  -- Over a history of reads of events and of sellers' requests, in the order of their times, in
  -- which the background tasks of each request have run, and reached Redis, before the next read or
  -- request: every reader is answered what the committed database says at that moment. The readers
  -- may wait for one another, and each may be without Redis.
  pub run_site_refines :
      (events : List SiteEvent) (site : Site S) (start : ℕ)
      → IsFresh redis w start site.committed site.redis
      → site.pending ≡ []
      → IsTimely start events
      → IsPrompt false events
      → run_site redis w events site ≡ replay_site w events site.committed
  run_site_refines events site start fresh none_left h p =
      run_site-replay events false site start (fresh, none_left) h p
