-- ===== src/Lib.antt =====
-- The event booking and ticketing API: reservation holds, payments through Stripe, the sweeper of
-- expired holds, the sellers' catalog, the reviews, the accounts with their sessions and tokens, and
-- the worker that sends the mail.
--
-- The program is a FastAPI application over PostgreSQL. A customer's request to
-- app/routers/bookings.py holds seats, or tickets of general admission, for HOLD_DURATION_MINUTES.
-- app/routers/payments.py opens a payment intent at Stripe for the hold, confirms the booking and
-- issues its invoice when Stripe's webhook reports the money, refunds the money when the hold is no
-- longer good, and cancels bookings on request. app/core/tasks.py releases the holds that expire,
-- after it has asked Stripe what became of their intents. app/routers/services.py lets a seller
-- create, change and archive an event, and app/routers/reviews.py lets those who attended it rate
-- it. They meet in the tables of app/database/model.py only. app/routers/auth/auth.py and
-- app/routers/auth/users.py open and end the sessions of the accounts, which stand in Redis, and
-- app/core/oauth2.py guards the endpoints by the tokens that these issue. Mail goes through a list in
-- Redis (app/core/queue.py) to the worker of app/workers/worker.py.
--
-- Which file models what:
--   Common: the names of the library that the files share, the Boolean tests of the code, and the
--     queries on tables with their lemmas.
--   Model/Rows: the entities and enumerations of app/database/model.py. Model/Tables: the database,
--     a list of rows for each table, with the queries that several files share.
--   Env: the settings, the clock, and values of code outside the repository, as parameters.
--   Gateway: Stripe's requests and replies.
--   Session: the session and transaction of a request (app/database/database.py), the monad of the
--     handlers, and the HTTP errors that they raise.
--   Bookings: `create_booking` and `get_booking_by_id` of app/routers/bookings.py.
--   Payments: app/routers/payments.py. Changes has its writes to the tables, Confirm
--     `confirm_booking_and_invoice`, Pay `create_payment_intent_for_booking`, Webhook
--     `stripe_webhook`, Cancel `cancel_booking_and_refund`.
--   Sweeper: `released_expired_holds` of app/core/tasks.py. Sweeper/Leader: the rounds of
--     `run_hold_sweeper_loop`.
--   Catalog: `create_services`, `update_service` and `delete_service` of app/routers/services.py.
--     Catalog/Seating has the tiers and the seats, Catalog/Search the queries of the public endpoints.
--   Cache: app/core/cache.py. Discovery: the public endpoints of app/routers/services.py, which read
--     through the cache. Storefront: readers and sellers on one database and one cache.
--   Reviews: the creation, update and deletion of app/routers/reviews.py.
--   Redis: the keys and values that the program keeps in Redis, and the server as a record of its
--     commands and of the laws that the program relies on.
--   Auth: Visit has the state of a request to the accounts, Tokens app/core/oauth2.py, Login, Refresh
--     and Logout the endpoints of app/routers/auth/auth.py, Sessions `revoke_all_user_sessions` of
--     app/core/redis.py.
--   Proxies: the address that a client is counted under, and Limiter: the limiter of requests by
--     address and the distributed lock, of app/core/redis.py.
--   Accounts: app/routers/auth/users.py. Otp has the registration and the verification of the
--     mailbox, Password the reset of the password, Profile the reading, update and deletion of a
--     profile and `become_seller`.
--   Locations: app/routers/locations.py, and Locations/Listing the search of the venues, for which
--     ILIKE of PostgreSQL is a parameter.
--   Worker: app/workers/worker.py and app/core/queue.py.
--   System: the requests as steps from one committed database to the next.
--   Kept, Inventory: lemmas on how the handlers and their writes treat properties of the database.
--   Bookings/Limits, Bookings/Refusals, Payments/Invoices, Payments/Repeats, Payments/Requests,
--     Sweeper/Frame, Reviews/Unique, Catalog/Capacity, System/Safety: proofs about the
--     file that they stand below.
--   Auth/Revocation, Auth/Rotation, Auth/Revoked, Auth/Slots, Auth/Lockout, Auth/Guards,
--     Accounts/Revocation, Accounts/Reset, Worker/Drain, Proxies/Spoofing, Limiter/Window,
--     Limiter/Exclusion, Accounts/Closing, Accounts/Codes, Accounts/Unlocking, Locations/Removal,
--     Catalog/Seating/Codes, Catalog/Seating/Names, Catalog/Search/Filters, Catalog/Search/Pages,
--     Cache/Coherence, Cache/Reads, Cache/Invalidation, Cache/Changes, Cache/Announced, Cache/Sellers, Storefront/Refinement,
--     Sweeper/Progress, Sweeper/Liveness: proofs about the file that they stand below.
--   Tests: a small database, and the theorems applied to it. Tests/Memory: a server of Redis that
--     keeps to the laws. Tests/Accounts: the theorems about tokens, accounts and jobs.
--     Tests/Network: the theorems about the limiter, the lock and the addresses.
--     Tests/Venues: the theorems about the venues and the update and deletion of an account.
--     Tests/Codes: the theorems about the codes sent to a mailbox.
--     Tests/Storefront: the theorems about the catalog, the cache and the progress of the sweep.
--
-- How the code is read. A function of the model has the name of the function of the code, and a long
-- handler is cut at its comments into helpers, in the code's order. A handler is an `Action`: it
-- takes a `Session` and returns its result, or the error that it raises, with the session after it.
-- The session keeps the database as the transaction sees it (`db`) and as it is committed (`saved`),
-- the requests sent to Stripe, and the background tasks. `commit` and `rollback` are steps of the
-- handler; what is not committed when a request ends is lost, and `serve` keeps `saved`. An
-- exception that the code does not expect, such as a broken unique or foreign key, is `unhandled`.
--
-- Amounts are natural numbers of cents, and times are microseconds since the epoch, in UTC. An id
-- of Stripe is blank, the marker of a free booking, or Stripe's own; the f-strings of the
-- idempotency keys and of the invoice numbers are data with the values that they print. Stripe is a
-- parameter: for each request, an answer or one of the three kinds of exception that the handlers
-- tell apart, and nothing is assumed of it. So are the verification of the webhook's signature,
-- which yields an event or an error, and the rounding of a unit price. A handler runs on its own, at
-- one reading of the clock. The bookings, payments, webhooks, cancellations and sweeps that meet on a
-- booking or an event take a row lock (`with_for_update`), which puts them in an order;
-- `update_service` and `delete_service` take none, so for them the order is an assumption. Every loop is over a list, so no function
-- takes fuel; the loop of the worker is over a list of outcomes, one for each round.
--
-- Redis and PyJWT are parameters too, records of functions with the laws of their documentation:
-- what a command does to the key that it names, that it leaves the others alone, that keys vanish
-- when their lifetime is over, that SCAN misses nothing; that a token's claims are those of its text,
-- and that it is refused once `exp` is over. The keys of Redis are data, one constructor for each
-- f-string. Redis is reachable for the whole of a request or for none of it. The hash of a
-- password, `strip().lower()` and what is drawn by chance are fields of the environment.
--
-- Not modelled: e-mail (app/services/email.py), app/main.py and the
-- migrations, which are input and output or wiring. A background task is recorded when it is queued;
-- Storefront runs those that concern the cache, as a step after the response, which may find Redis
-- down and then leaves what is cached. A waiting request finds the cache as its argument says; in
-- Storefront other readers go on meanwhile, and sellers do not.
pub mod Common
pub mod Model
pub mod Gateway
pub mod Session
pub mod Env
pub mod Redis
pub mod Proxies
pub mod Auth
pub mod Accounts
pub mod Limiter
pub mod Cache
pub mod Bookings
pub mod Inventory
pub mod Payments
pub mod Sweeper
pub mod Kept
pub mod System
pub mod Reviews
pub mod Catalog
pub mod Locations
pub mod Discovery
pub mod Storefront
pub mod Worker
pub mod Tests
