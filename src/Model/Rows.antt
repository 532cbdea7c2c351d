-- ===== src/Model/Rows.antt =====
-- The entities of app/database/model.py, a record for each table's row. Prices and amounts are
-- `Numeric(10, 2)` columns of values of zero or more: natural numbers of cents. Timestamps are
-- microseconds since the epoch, in UTC. Relationships are the ids that the columns hold.
use event_booking_ticketing.Common.{ℕ, String, Bool, true, false, Option, List}

pub data UserRole : Type 0 where
  customer seller admin : UserRole

pub record SellerProfile : Type 0 where
  pub id : ℕ
  pub user_id : ℕ
  pub business_name : String
  pub business_desc : Option String
  pub is_verified : Bool

-- The columns that the handlers read, with the loaded `seller_profile`.
pub record User : Type 0 where
  pub id : ℕ
  pub name : String
  pub email : String
  pub phone_no : Option String
  pub role : UserRole
  pub password_hash : String
  pub is_verified : Bool
  pub is_active : Bool
  pub verification_otp : Option String
  pub otp_expires_at : Option ℕ
  pub seller_profile : Option SellerProfile

pub record Location : Type 0 where
  pub id : ℕ
  pub seller_id : ℕ
  pub city : String
  pub country : String
  pub address_line : String

pub data BookingMode : Type 0 where
  slot_capacity unit_assigned : BookingMode

pub record Services : Type 0 where
  pub id : ℕ
  pub seller_id : ℕ
  pub location_id : Option ℕ
  pub service_name : String
  pub service_desc : Option String
  pub booking_mode : BookingMode
  pub max_capacity : Option ℕ
  pub base_price : ℕ
  pub start_time : ℕ
  pub end_time : ℕ
  pub is_active : Bool

pub record ServiceTier : Type 0 where
  pub id : ℕ
  pub service_id : ℕ
  pub name : String
  pub price : ℕ

pub data ItemStatus : Type 0 where
  available reserved booked maintenance : ItemStatus

pub record InventoryItems : Type 0 where
  pub id : ℕ
  pub service_id : ℕ
  pub tier_id : ℕ
  pub identifier_code : String
  pub status : ItemStatus

pub data BookingStatus : Type 0 where
  pending confirmed cancelled : BookingStatus

-- `assigned_units` holds the booking's rows of the table `assigns_unit`.
pub record Booking : Type 0 where
  pub id : ℕ
  pub service_id : ℕ
  pub user_id : ℕ
  pub tier_id : Option ℕ
  pub quantity : ℕ
  pub unit_price : Option ℕ
  pub total_amount : Option ℕ
  pub start_time : ℕ
  pub end_time : ℕ
  pub status : BookingStatus
  pub created_at : ℕ
  pub assigned_units : List ℕ

pub data PaymentStatus : Type 0 where
  requires_payment_method requires_confirmation processing : PaymentStatus
  succeeded failed canceled : PaymentStatus

-- The values of the column `stripe_payment_intent_id`: the empty string, `f"free_booking_{id}"`,
-- and an id that Stripe gave, which never begins with `free_`.
pub data IntentId : Type 0 where
  blank : IntentId
  free_booking : ℕ → IntentId
  from_stripe : ℕ → IntentId

-- The idempotency keys, by the f-string that builds them.
pub data IdempotencyKey : Type 0 where
  booking_key : ℕ → IdempotencyKey
  attempt_key : ℕ → ℕ → IdempotencyKey
  refund_booking_key : ℕ → IdempotencyKey
  auto_refund_key : IntentId → IdempotencyKey

pub record Payment : Type 0 where
  pub id : ℕ
  pub booking_id : ℕ
  pub stripe_payment_intent_id : IntentId
  pub client_secret : String
  pub idempotency_key : IdempotencyKey
  pub amount : ℕ
  pub currency : String
  pub status : PaymentStatus

-- `f"INV-{year}-{payment.id:06d}"`, as the two numbers that it prints.
pub record InvoiceNumber : Type 0 where
  pub year : ℕ
  pub payment_id : ℕ

pub record Invoice : Type 0 where
  pub id : ℕ
  pub payment_id : ℕ
  pub invoice_number : InvoiceNumber

pub record Cancellation : Type 0 where
  pub id : ℕ
  pub booking_id : ℕ
  pub refund_amount : ℕ
  pub reason : String

pub record Review : Type 0 where
  pub id : ℕ
  pub booking_id : ℕ
  pub rating : ℕ
  pub comment : Option String

-- The comparisons of an enumeration that the handlers make.
abbrev pub is_admin : UserRole → Bool
is_admin admin = true
is_admin _ = false

abbrev pub is_unit_assigned : BookingMode → Bool
is_unit_assigned unit_assigned = true
is_unit_assigned slot_capacity = false

abbrev pub is_available : ItemStatus → Bool
is_available available = true
is_available _ = false

abbrev pub is_reserved : ItemStatus → Bool
is_reserved reserved = true
is_reserved _ = false

abbrev pub is_pending : BookingStatus → Bool
is_pending pending = true
is_pending _ = false

abbrev pub is_confirmed : BookingStatus → Bool
is_confirmed confirmed = true
is_confirmed _ = false

abbrev pub is_cancelled : BookingStatus → Bool
is_cancelled cancelled = true
is_cancelled _ = false

abbrev pub is_succeeded : PaymentStatus → Bool
is_succeeded succeeded = true
is_succeeded _ = false

abbrev pub is_failed : PaymentStatus → Bool
is_failed failed = true
is_failed _ = false

abbrev pub is_canceled : PaymentStatus → Bool
is_canceled canceled = true
is_canceled _ = false

-- `status in [REQUIRES_PAYMENT_METHOD, REQUIRES_CONFIRMATION, PROCESSING]`
abbrev pub is_open_payment : PaymentStatus → Bool
is_open_payment requires_payment_method = true
is_open_payment requires_confirmation = true
is_open_payment processing = true
is_open_payment _ = false

-- `stripe_payment_intent_id.startswith("free_")`
abbrev pub is_free : IntentId → Bool
is_free (free_booking _) = true
is_free _ = false

-- The truth value of the string.
abbrev pub is_blank : IntentId → Bool
is_blank blank = true
is_blank _ = false
