-- ===== src/Tests/Codes.antt =====
-- The theorems on the codes sent to a mailbox at inputs where their hypotheses hold.
use mathlib.Core.Bool.{false≢true}
use event_booking_ticketing.Accounts.Codes.{otp_guesses_void, verify_otp_proves, activated}
use event_booking_ticketing.Session.{ok}
use event_booking_ticketing.Auth.Login.{find_mailbox}
use event_booking_ticketing.Redis.{second, counter, otp_failed_attempts, RedisKey-discrete}
use event_booking_ticketing.Auth.Visit.{Visit}
use event_booking_ticketing.Tests.Accounts.{visit, at_time, accounts_db, now, ann}
use event_booking_ticketing.Tests.Memory.{is_key, memory, Memory}
use event_booking_ticketing.Model.{User}
use event_booking_ticketing.Accounts.Otp.{
  is_otp, verified_now, update_user_row, is_otp_expired, otp_expiry, activate, check_otp, hit,
  check_email_and_otp_rate_limiting, verify_otp,
}
use event_booking_ticketing.Common.{ap, arith, refl, ◌≢◌, ◌≡◌, [], ◌+◌, some, ◌∷◌, false}

-- Bob's mailbox is not verified yet.
abbrev bob : User
bob = record ann {
  id = 8;
  email = "bob@example.org";
  is_verified = false;
  verification_otp = some "654321";
  otp_expires_at = some (now + otp_expiry);
}

abbrev of_bob : Memory → Visit Memory
of_bob m =
    let db = record accounts_db { users = ann ∷ bob ∷ [] } in
    record (visit m) { db = db; saved = db }

abbrev four_wrong : Memory
four_wrong = memory.set now (otp_failed_attempts "bob@example.org") (counter 4) 300 []

verify_otp_proves_example :
    (user : User) × (find_mailbox (at_time now) "bob@example.org" (of_bob []).db ≡ some user)
    × (user.verification_otp ≡ some "654321")
    × (is_otp_expired (at_time now) user.otp_expires_at ≡ false)
    × ((verify_otp memory (at_time now) "bob@example.org" "654321" (of_bob [])).1.saved
        ≡ update_user_row user.id activated (of_bob []).db)
unfolding verify_otp check_email_and_otp_rate_limiting hit check_otp activate is_key
    RedisKey-discrete
verify_otp_proves_example =
    verify_otp_proves memory (at_time now) "bob@example.org" "654321" (of_bob []) refl

guess_differs : bob.verification_otp ≢ some "111111"
guess_differs q = false≢true (ap (λ o. is_otp o "111111") q)

otp_guesses_void_example :
    (verify_otp memory (at_time (now + second)) "bob@example.org" "654321" (record (of_bob []) {
      db = (verify_otp memory (at_time now) "bob@example.org" "111111" (of_bob four_wrong)).1.saved;
    })).0
    ≢ ok verified_now
unfolding check_email_and_otp_rate_limiting hit is_key RedisKey-discrete
otp_guesses_void_example =
    otp_guesses_void memory (at_time now) (at_time (now + second)) "bob@example.org"
      "bob@example.org" "111111" "654321" bob 4 (of_bob four_wrong)
      (record (of_bob []) {
        db =
            (verify_otp memory (at_time now) "bob@example.org" "111111"
              (of_bob four_wrong)).1.saved;
      })
      refl refl (omega arith) refl refl refl refl guess_differs refl refl refl
