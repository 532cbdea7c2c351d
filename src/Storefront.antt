-- ===== src/Storefront.antt =====
-- The endpoint of one event and the requests of the sellers, on one database and one cache
-- (app/routers/services.py, app/core/cache.py), and the same endpoints with no cache.
use event_booking_ticketing.Cache.Coherence.{detail_text}
use event_booking_ticketing.Cache.Reads.{answer_of, answer}
use event_booking_ticketing.Cache.Sellers.{serve_seller, SellerRequest}
use event_booking_ticketing.Env.{Env}
use event_booking_ticketing.Session.{
  invalidate_all, send_cancellation_email, pure, open_session, send_invoice_email, Result, Handler,
  Task,
}
use event_booking_ticketing.Auth.Visit.{Visit}
use event_booking_ticketing.Redis.{Redis}
use event_booking_ticketing.Model.{User, Db}
use event_booking_ticketing.Discovery.{fetch_detail_text, get_service_by_id, Wire}
use event_booking_ticketing.Cache.{
  make_service_detail_cache_key, compute_as_leader, invalidate_services_cache,
}
use event_booking_ticketing.Common.{
  ◌++◌, true, none, some, false, String, [], ◌∷◌, map, List, Bool, ℕ,
}
pub mod Refinement

-- What is committed, what is cached, and the background tasks of the responses that were sent.
pub record Site (S : Type 0) : Type 0 where
  pub committed : Db
  pub redis : S
  pub pending : List Task

-- What goes on between two looks of a reader who waits: nothing, what is left to do for the request
-- that has the lock, or a read of another, with or without Redis.
pub data Meanwhile : Type 0 where
  idle : ℕ → Meanwhile
  leads : (now k token : ℕ) → Meanwhile
  reads : (now k token : ℕ) → Bool → Meanwhile

-- A reader looks at an event between two times, with or without Redis, with the token to lock with.
-- A seller's request is served and commits; its background tasks run later, when Redis is reached
-- or is not.
pub data SiteEvent : Type 0 where
  looks : (now last k token : ℕ) → Bool → List Meanwhile → SiteEvent
  sells : ℕ → Env → SellerRequest → User → SiteEvent
  finishes : ℕ → Bool → SiteEvent

abbrev pub visit_of : {S : Type 0} → Bool → Site S → Visit S
visit_of up site = record {
  db = site.committed;
  saved = site.committed;
  redis_up = up;
  redis = site.redis;
  jobs = [];
  stale_cache = false;
}

module _ {S : Type 0} (redis : Redis S) (w : Wire) where
  -- The mail goes to the queue of the worker, which the cache has no part in.
  unfoldable pub run_task : ℕ → Task → Handler (Visit S) (Unit {0})
  run_task now (Task.invalidate_services_cache k) = invalidate_services_cache redis now (some k)
  run_task now invalidate_all = invalidate_services_cache redis now none
  run_task now (send_invoice_email _ _ _) = pure tt
  run_task now (send_cancellation_email _ _ _) = pure tt

  -- The tasks in the order in which they were added.
  unfoldable pub run_tasks : ℕ → List Task → Visit S → Visit S
  run_tasks now [] v = v
  run_tasks now (task ∷ tasks) v = (run_task now task (run_tasks now tasks v)).1

  -- The time, and the cache then.
  unfoldable pub between : Meanwhile → Site S → ℕ × S
  between (idle now) site = (now, site.redis)
  between (leads now k token) site = (
    now,
    (compute_as_leader redis now (make_service_detail_cache_key k) (fetch_detail_text redis w k)
        w.cache_services_ttl token (visit_of true site)).1.redis,
  )
  between (reads now k token up) site =
      (now, (get_service_by_id redis w now k token [] (visit_of up site)).1.redis)

  -- What a reader who waits finds, look after look.
  unfoldable pub meets : List Meanwhile → Site S → List (ℕ × S)
  meets [] site = []
  meets (m ∷ ms) site =
      let found = between m site in found ∷ meets ms (record site { redis = found.1 })

  unfoldable pub sell : Env → SellerRequest → User → Site S → Site S
  sell e req user site =
      let s = serve_seller e w req user (open_session site.committed) in
      record site { committed = s.saved; pending = s.tasks ++ site.pending }

  unfoldable pub finish : ℕ → Bool → Site S → Site S
  finish now up site = record site {
    redis = (run_tasks now site.pending (visit_of up site)).redis;
    pending = [];
  }

  unfoldable pub look :
      ℕ → ℕ → ℕ → Bool → List Meanwhile → Site S → Result (String × Bool) × Visit S
  look now k token up ms site =
      get_service_by_id redis w now k token (meets ms site) (visit_of up site)

  -- What the readers are answered.
  unfoldable pub run_site : List SiteEvent → Site S → List (Result String)
  run_site [] site = []
  run_site (looks now last k token up ms ∷ events) site =
      let r = look now k token up ms site in
      answer r.0 ∷ run_site events (record site { redis = r.1.redis })
  run_site (sells now e req user ∷ events) site = run_site events (sell e req user site)
  run_site (finishes now up ∷ events) site = run_site events (finish now up site)

-- The readers with no cache: each is answered from the database.
unfoldable pub replay_site : Wire → List SiteEvent → Db → List (Result String)
replay_site w [] db = []
replay_site w (looks now last k token up ms ∷ events) db =
    answer_of (detail_text w k db) ∷ replay_site w events db
replay_site w (sells now e req user ∷ events) db =
    replay_site w events (serve_seller e w req user (open_session db)).saved
replay_site w (finishes now up ∷ events) db = replay_site w events db
