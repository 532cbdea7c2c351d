-- ===== src/Accounts/Unlocking.antt =====
-- What `reset_password` leaves of the lockout of the account.
use event_booking_ticketing.Auth.Visit.{Visit}
use event_booking_ticketing.Redis.{account_locked, account_locked_at, Redis}
use event_booking_ticketing.Common.{none, ◌≡◌, String, ℕ}

module _ {S : Type 0} (redis : Redis S) where
  -- Neither the account nor the account for the client is locked.
  abbrev IsUnlocked : String → String → ℕ → S → Type 0
  IsUnlocked mailbox ip t s =
      (redis.get t (account_locked_at mailbox ip) s ≡ none)
      × (redis.get t (account_locked mailbox) s ≡ none)
