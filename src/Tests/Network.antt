-- ===== src/Tests/Network.antt =====
-- The theorems on the limiter, the lock and the address of a client, at inputs where their
-- hypotheses hold.
use event_booking_ticketing.Tests.Accounts.{at_time, visit}
use event_booking_ticketing.Proxies.Spoofing.{get_client_ip-prefix}
use event_booking_ticketing.Limiter.Exclusion.{lock_exclusive}
use event_booking_ticketing.Redis.{counter, rate_limit, RedisKey-discrete}
use event_booking_ticketing.Limiter.{release, acquire, admitted}
use event_booking_ticketing.Limiter.Window.{admitted_within, IsCounting}
use event_booking_ticketing.Tests.Memory.{memory, Memory, is_key}
use event_booking_ticketing.Proxies.{
  get_client_ip, last_untrusted, valid_ips, is_trusted_address, is_trusted_proxy, Request, Network,
  raw_ips,
}
use event_booking_ticketing.Common.{
  refl, if◌then◌else◌, false, none, true, ◌≡◌, str_eq, ◌<◌, some, [], ◌≤◌, arith, ◌∷◌, ◌≢◌, String,
  ℕ,
}

abbrev network : Network
network = record {
  trusted_hostnames = "proxy" ∷ [];
  in_trusted_networks = λ a. str_eq a "10.0.0.1";
  ip_address = λ s. if str_eq s "proxy" then none else some s;
  strip = λ s. s;
  clean = λ s. s;
  split_commas = λ s.
      if str_eq s "9.9.9.9,1.2.3.4,10.0.0.1"
      then "9.9.9.9" ∷ "1.2.3.4" ∷ "10.0.0.1" ∷ []
      else (if str_eq s "1.2.3.4,10.0.0.1" then "1.2.3.4" ∷ "10.0.0.1" ∷ [] else s ∷ []);
}

abbrev from_proxy : String → Request
from_proxy header = record {
  client_host = some "proxy";
  cf_connecting_ip = none;
  x_forwarded_for = some header;
}

get_client_ip-prefix_example :
    get_client_ip network (from_proxy "9.9.9.9,1.2.3.4,10.0.0.1")
    ≡ get_client_ip network (from_proxy "1.2.3.4,10.0.0.1")
unfolding raw_ips is_trusted_proxy is_trusted_address valid_ips last_untrusted
get_client_ip-prefix_example =
    get_client_ip-prefix network "proxy" "9.9.9.9" "1.2.3.4,10.0.0.1" "1.2.3.4"
      "9.9.9.9,1.2.3.4,10.0.0.1" refl refl refl refl

-- An address that has had a request a minute ago.
abbrev counted : Memory
counted =
    (rate_limit "1.2.3.4" "/login", record { value = counter 1; deadline = some 60000000 }) ∷ []

counted_get :
    (t : ℕ)
    → 1000000 ≤ t
    → t < 60000000
    → memory.get t (rate_limit "1.2.3.4" "/login") counted ≡ some (counter 1)
unfolding is_key RedisKey-discrete
counted_get t later before = ground arith

counted_persists :
    (t : ℕ)
    → 1000000 ≤ t
    → t < 60000000
    → memory.persists t (rate_limit "1.2.3.4" "/login") counted ≡ false
unfolding is_key RedisKey-discrete
counted_persists t later before = ground arith

counted-IsCounting :
    IsCounting memory (rate_limit "1.2.3.4" "/login") 1 1000000 60000000 (visit counted)
counted-IsCounting = record { reachable = refl; counted = counted_get; bounded = counted_persists }

admitted_within_example :
    admitted memory
      (at_time 0)
      3
      true
      "1.2.3.4"
      "/login"
      60
      (2000000 ∷ 3000000 ∷ 4000000 ∷ [])
      (visit counted)
    ≡ 2
admitted_within_example =
    admitted_within memory (at_time 0) 3 true "1.2.3.4" "/login" 60 1 1000000 60000000
      (2000000 ∷ 3000000 ∷ 4000000 ∷ []) (visit counted) counted-IsCounting
      (omega arith, omega arith, (omega arith, omega arith, (omega arith, omega arith, tt)))

other_token : (let n : ℕ = 2 in n ≢ 1)
other_token h = omega (arith, h)

lock_exclusive_example :
    let s' = (acquire memory "sweep" 1 30 (1000 ∷ []) []).1 in
    (acquire memory "sweep" 2 30 (2000 ∷ 3000 ∷ []) s' ≡ (none, s'))
    × (release memory 5000 "sweep" 2 s' ≡ s')
unfolding acquire is_key RedisKey-discrete
lock_exclusive_example =
    lock_exclusive memory "sweep" 1 2 30 30 1000 5000 (1000 ∷ []) (2000 ∷ 3000 ∷ []) [] refl
      other_token (omega arith, (omega arith, tt)) (omega arith, (omega arith, tt)) (omega arith)
      (omega arith)
