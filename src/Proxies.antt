-- ===== src/Proxies.antt =====
-- The address of a client, of app/core/redis.py: `is_trusted_proxy` and `get_client_ip`.
use event_booking_ticketing.Payments.Confirm.{is_text}
pub mod Spoofing
use event_booking_ticketing.Common.{
  ◌||◌, str_eq, any, ◌&&◌, map, [], false, some, if◌then◌else◌, Bool, select, none, ◌∷◌, List,
  Option, String, ℕ,
}

-- The settings of the proxies, and Python's functions on texts and addresses.
pub record Network : Type 0 where
  -- `TRUSTED_HOSTNAMES`
  pub trusted_hostnames : List String
  -- `any(addr in net for net in TRUSTED_NETWORKS)`, of an address
  pub in_trusted_networks : String → Bool
  -- `str(ipaddress.ip_address(text))`; `none` is a `ValueError`
  pub ip_address : String → Option String
  -- `s.strip()` and `s.strip().lower()`
  pub strip : String → String
  pub clean : String → String
  -- `s.split(",")`
  pub split_commas : String → List String

pub record Request : Type 0 where
  pub client_host : Option String
  pub cf_connecting_ip : Option String
  pub x_forwarded_for : Option String

module _ (net : Network) where
  unfoldable pub is_trusted_address : Option String → Bool
  is_trusted_address none = false
  is_trusted_address (some address) = net.in_trusted_networks address

  unfoldable pub is_trusted_proxy : String → Bool
  unfolding is_trusted_address
  is_trusted_proxy host =
      is_text host
      && (any (str_eq (net.clean host)) net.trusted_hostnames
          || is_trusted_address (net.ip_address (net.clean host)))

  -- `except ValueError`
  abbrev pub or_else : Option String → String → String
  or_else none s = s
  or_else (some address) s = address

  -- The parts that are not blank, and of these the addresses.
  unfoldable pub raw_ips : String → List String
  raw_ips forwarded = select is_text (map net.strip (net.split_commas forwarded))

  unfoldable pub valid_ips : List String → List String
  valid_ips [] = []
  valid_ips (part ∷ parts) = elim (net.ip_address part) [
    | none ↦ valid_ips parts
    | some address ↦ address ∷ valid_ips parts
  ]

  -- `for ip in reversed(valid_ips)`: the last that is not a trusted proxy.
  unfoldable pub last_untrusted : List String → Option String
  last_untrusted [] = none
  last_untrusted (ip ∷ ips) = elim (last_untrusted ips) [
    | some later ↦ some later
    | none ↦ if is_trusted_proxy ip then none else some ip
  ]

  unfoldable pub client_of_chain : String → List String → String
  client_of_chain host [] = host
  client_of_chain host (ip ∷ ips) = or_else (last_untrusted (ip ∷ ips)) ip

  unfoldable pub forwarded_client : String → Option String → String
  forwarded_client host none = host
  forwarded_client host (some forwarded) = client_of_chain host (valid_ips (raw_ips forwarded))

  -- A header that is missing, blank or no address is passed over.
  unfoldable pub proxied_client : String → Option String → Option String → String
  proxied_client host none forwarded = forwarded_client host forwarded
  proxied_client host (some cf_ip) forwarded = elim (net.ip_address (net.strip cf_ip)) [
    | none ↦ forwarded_client host forwarded
    | some address ↦ if is_text cf_ip then address else forwarded_client host forwarded
  ]

  unfoldable pub client_of_host : String → Request → String
  client_of_host host r =
      if is_text host
      then (if is_trusted_proxy host
          then proxied_client host r.cf_connecting_ip r.x_forwarded_for
          else or_else (net.ip_address host) host)
      else "127.0.0.1"

  unfoldable pub get_client_ip : Request → String
  get_client_ip r = elim r.client_host [ none ↦ "127.0.0.1" | some host ↦ client_of_host host r ]
