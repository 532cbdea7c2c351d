-- ===== src/Session.antt =====
-- A request: a SQLAlchemy session (app/database/database.py) with its transaction, the requests
-- sent to Stripe and the background tasks. What is not committed when the request ends is lost.
use event_booking_ticketing.Common.{
  refl, inr, inl, ◌⊎◌, ◌≡◌, [], ℕ, String, Bool, true, false, Option, none, some, List, ◌∷◌,
}
use event_booking_ticketing.Model.{Db, InvoiceNumber}
use event_booking_ticketing.Gateway.{StripeCall}

-- The status code of an `HTTPException`, or an exception that no handler catches (a 500 too).
pub data HttpError : Type 0 where
  bad_request unauthorized forbidden not_found conflict unprocessable too_many_requests : HttpError
  internal_server_error bad_gateway service_unavailable unhandled : HttpError

pub data Result {ℓ} (A : Type ℓ) : Type ℓ where
  ok : A → Result A
  err : HttpError → Result A

-- `background_tasks.add_task(invalidate_services_cache, …)`, and the jobs put on the queue, each
-- with the service or the booking that it is about.
pub data Task : Type 0 where
  invalidate_services_cache : ℕ → Task
  invalidate_all : Task
  send_invoice_email : ℕ → InvoiceNumber → ℕ → Task
  send_cancellation_email : ℕ → ℕ → String → Task

-- `db` is what the session sees, `saved` what is committed.
pub record Session : Type 0 where
  pub db : Db
  pub saved : Db
  pub sent : List StripeCall
  pub tasks : List Task

-- A part of a handler, on the state `S` that it works on.
abbrev pub Handler {ℓ} : Type 0 → Type ℓ → Type ℓ
Handler S A = S → Result A × S

abbrev pub Action {ℓ} : Type ℓ → Type ℓ
Action = Handler Session

module _ {ℓ} {S : Type 0} {A : Type ℓ} where
  abbrev pub pure : A → Handler S A
  pure a s = (ok a, s)

  abbrev pub raise : HttpError → Handler S A
  raise e s = (err e, s)

  -- `if not row: raise HTTPException(...)`
  abbrev pub or_raise : Option A → HttpError → Handler S A
  or_raise none e = raise e
  or_raise (some a) e = pure a

-- A query.
abbrev pub query {ℓ} : {A : Type ℓ} → (Db → A) → Action A
query f s = (ok (f s.db), s)

-- `if test: raise HTTPException(...)`
abbrev pub raise_if : {S : Type 0} → Bool → HttpError → Handler S (Unit {0})
raise_if true e = raise e
raise_if false e = pure tt

abbrev pub modify : (Db → Db) → Action (Unit {0})
modify f s = (ok tt, record s { db = f s.db })

abbrev pub commit : Action (Unit {0})
commit s = (ok tt, record s { saved = s.db })

abbrev pub rollback : Action (Unit {0})
rollback s = (ok tt, record s { db = s.saved })

abbrev pub send : StripeCall → Action (Unit {0})
send c s = (ok tt, record s { sent = c ∷ s.sent })

abbrev pub add_task : Task → Action (Unit {0})
add_task t s = (ok tt, record s { tasks = t ∷ s.tasks })

abbrev pub bind_result {ℓ κ} :
    {S : Type 0} {A : Type ℓ} {B : Type κ} → Result A → (A → Handler S B) → Handler S B
bind_result (ok a) k s = k a s
bind_result (err e) k s = raise e s

infixl 5 ◌>>=◌ ◌>>◌
abbrev pub ◌>>=◌ {ℓ κ} :
    {S : Type 0} {A : Type ℓ} {B : Type κ} → Handler S A → (A → Handler S B) → Handler S B
◌>>=◌ m f s = bind_result (m s).0 f (m s).1

abbrev pub ◌>>◌ {ℓ κ} :
    {S : Type 0} {A : Type ℓ} {B : Type κ} → Handler S A → Handler S B → Handler S B
m >> k = m >>= λ _. k

-- The end of the request: the session is closed.
abbrev pub close : Session → Session
close s = record s { db = s.saved }

-- A property of the database that the session sees and of the one that is committed.
pub record Both (P : Db → Type 0) (s : Session) : Type 0 where
  pub seen : P s.db
  pub kept : P s.saved

bind_result-keeps {ℓ κ} :
    {S : Type 0} {A : Type ℓ} {B : Type κ} (I K : S → Type 0) (r : Result A) (k : A → Handler S B)
    (s : S)
    → I s
    → ((s' : S) → I s' → K s')
    → ((a : A) (s' : S) → I s' → K (k a s').1)
    → K (bind_result r k s).1
bind_result-keeps I K (ok a) k s h stop go = go a s h
bind_result-keeps I K (err e) k s h stop go = stop s h

-- What holds after the first action, and is kept by the rest, holds after both.
pub >>=-keeps {ℓ κ} :
    {S : Type 0} {A : Type ℓ} {B : Type κ} (I K : S → Type 0) (m : Handler S A)
    (k : A → Handler S B) (s : S)
    → I (m s).1
    → ((s' : S) → I s' → K s')
    → ((a : A) (s' : S) → I s' → K (k a s').1)
    → K ((m >>= k) s).1
>>=-keeps I K m k s h stop go = bind_result-keeps I K (m s).0 k (m s).1 h stop go

-- A new session on the committed database.
abbrev pub open_session : Db → Session
open_session db = record { db = db; saved = db; sent = []; tasks = [] }

abbrev pub is_ok {ℓ} : {A : Type ℓ} → Result A → Bool
is_ok (ok a) = true
is_ok (err e) = false

pub Result-cases {ℓ} :
    {A : Type ℓ} (r : Result A) → ((a : A) × (r ≡ ok a)) ⊎ ((f : HttpError) × (r ≡ err f))
Result-cases (ok a) = inl (a, refl)
Result-cases (err f) = inr (f, refl)

-- What leaves the state alone does so in a row.
pub >>=-state {ℓ κ} :
    {S : Type 0} {A : Type ℓ} {B : Type κ} (m : Handler S A) (k : A → Handler S B) (s : S)
    → (m s).1 ≡ s
    → ((a : A) → (k a s).1 ≡ s)
    → ((m >>= k) s).1 ≡ s
>>=-state m k s h go = elim (Result-cases (m s).0) [
  | inl (a, q) ↦ rw (q, h) (go a)
  | inr (f, q) ↦ rw (q, h) refl
]

pub raise_if-state : {S : Type 0} (b : Bool) (f : HttpError) (s : S) → (raise_if b f s).1 ≡ s
raise_if-state true f s = refl
raise_if-state false f s = refl

pub or_raise-state {ℓ} :
    {S : Type 0} {A : Type ℓ} (o : Option A) (f : HttpError) (s : S) → (or_raise o f s).1 ≡ s
or_raise-state none f s = refl
or_raise-state (some a) f s = refl
