-- ===== src/Gateway.antt =====
-- Stripe, which app/routers/payments.py and app/core/tasks.py call: the requests, and the replies
-- as a parameter of the handlers. A request is answered, or raises one of three kinds of exception.
use event_booking_ticketing.Common.{refl, inr, inl, ◌⊎◌, ◌≡◌, ℕ, String, Bool, true, false}
use event_booking_ticketing.Model.{IntentId, IdempotencyKey}

-- The values of `PaymentIntent.status`; `unlisted` is any that the handlers do not name.
pub data IntentStatus : Type 0 where
  needs_payment_method needs_confirmation needs_action in_process : IntentStatus
  intent_succeeded intent_canceled unlisted : IntentStatus

pub record PaymentIntent : Type 0 where
  pub id : IntentId
  pub client_secret : String
  pub status : IntentStatus

-- `InvalidRequestError`, another `StripeError`, any other exception.
pub data Failure : Type 0 where
  invalid_request stripe_error other_exception : Failure

pub data Reply (A : Type 0) : Type 0 where
  answered : A → Reply A
  raised : Failure → Reply A

-- What Stripe replies to the requests of one handler run.
pub record Stripe : Type 0 where
  pub retrieve : IntentId → Reply PaymentIntent
  pub create : ℕ → IdempotencyKey → Reply PaymentIntent
  pub cancel : IntentId → Reply (Unit {0})
  pub refund : IntentId → ℕ → IdempotencyKey → Reply (Unit {0})

-- The requests that change something at Stripe.
pub data StripeCall : Type 0 where
  creates_intent : ℕ → IdempotencyKey → StripeCall
  cancels_intent : IntentId → StripeCall
  refunds_intent : IntentId → ℕ → IdempotencyKey → StripeCall

-- `["requires_payment_method", "requires_confirmation", "requires_action"]`
abbrev pub is_unpaid : IntentStatus → Bool
is_unpaid needs_payment_method = true
is_unpaid needs_confirmation = true
is_unpaid needs_action = true
is_unpaid _ = false

abbrev pub is_in_process : IntentStatus → Bool
is_in_process in_process = true
is_in_process _ = false

abbrev pub is_intent_succeeded : IntentStatus → Bool
is_intent_succeeded intent_succeeded = true
is_intent_succeeded _ = false

abbrev pub is_intent_canceled : IntentStatus → Bool
is_intent_canceled intent_canceled = true
is_intent_canceled _ = false

pub Reply-cases :
    {A : Type 0} (r : Reply A) → ((a : A) × (r ≡ answered a)) ⊎ ((f : Failure) × (r ≡ raised f))
Reply-cases (answered a) = inl (a, refl)
Reply-cases (raised f) = inr (f, refl)
