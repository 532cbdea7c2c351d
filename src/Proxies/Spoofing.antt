-- ===== src/Proxies/Spoofing.antt =====
-- What a client can do about the address that it is counted under.
use event_booking_ticketing.Payments.Confirm.{is_text}
use event_booking_ticketing.Proxies.{
  raw_ips, is_trusted_proxy, forwarded_client, proxied_client, client_of_host, get_client_ip,
  last_untrusted, client_of_chain, valid_ips, Network,
}
use event_booking_ticketing.Common.{
  sym, ◌∙◌, none, ap, inr, inl, true, refl, Option-cases, false, [], some, ◌∷◌, ◌++◌, ◌≡◌, Option,
  List, String,
}

module _ (net : Network) where
  valid_ips-append :
      (ps qs : List String) → valid_ips net (ps ++ qs) ≡ valid_ips net ps ++ valid_ips net qs
  unfolding valid_ips
  valid_ips-append [] qs = refl
  valid_ips-append (p ∷ ps) qs = elim (Option-cases (net.ip_address p)) [
    | inl q ↦ rw (q, valid_ips) (valid_ips-append ps qs)
    | inr (a, q) ↦ rw (q, valid_ips) (ap (λ l. a ∷ l) (valid_ips-append ps qs))
  ]

  last_untrusted-append :
      (ps qs : List String) (ip : String)
      → last_untrusted net qs ≡ some ip
      → last_untrusted net (ps ++ qs) ≡ some ip
  unfolding last_untrusted
  last_untrusted-append [] qs ip h = h
  last_untrusted-append (p ∷ ps) qs ip h =
      rw (last_untrusted-append ps qs ip h, last_untrusted) refl

  -- The client of a chain that has an untrusted address.
  client_of_chain-last :
      (host : String) (ips : List String) (ip : String)
      → last_untrusted net ips ≡ some ip
      → client_of_chain net host ips ≡ ip
  unfolding client_of_chain
  client_of_chain-last host [] ip h = absurd (unfold last_untrusted in (cc))
  client_of_chain-last host (i ∷ ips) ip h = rw h refl

  -- Behind a trusted proxy that sends no CF-Connecting-IP, what stands further left in the chain of
  -- X-Forwarded-For than an untrusted address makes no difference: a client that writes a header of
  -- its own is still counted under the address that the proxies saw.
  pub get_client_ip-prefix :
      (host written forwarded : String) (ip : String) (header : String)
      → is_text host ≡ true
      → is_trusted_proxy net host ≡ true
      → raw_ips net header ≡ raw_ips net written ++ raw_ips net forwarded
      → last_untrusted net (valid_ips net (raw_ips net forwarded)) ≡ some ip
      → get_client_ip net (record {
        client_host = some host;
        cf_connecting_ip = none;
        x_forwarded_for = some header;
      })
        ≡ get_client_ip net (record {
          client_host = some host;
          cf_connecting_ip = none;
          x_forwarded_for = some forwarded;
        })
  unfolding get_client_ip client_of_host proxied_client forwarded_client
  get_client_ip-prefix host written forwarded ip header named trusted joined seen =
      let chain : List String = valid_ips net (raw_ips net header) in
      let split : chain
          ≡ valid_ips net (raw_ips net written) ++ valid_ips net (raw_ips net forwarded) =
        ap (valid_ips net) joined
        ∙ valid_ips-append (raw_ips net written) (raw_ips net forwarded) in
      let last : last_untrusted net chain ≡ some ip =
        ap (last_untrusted net) split
        ∙ last_untrusted-append (valid_ips net (raw_ips net written))
            (valid_ips net (raw_ips net forwarded)) ip seen in
      rw (named, trusted)
        (client_of_chain-last host chain ip last
          ∙ sym (client_of_chain-last host (valid_ips net (raw_ips net forwarded)) ip seen))

  -- A client that is no trusted proxy is counted under its own address, whatever it writes.
  get_client_ip-direct :
      (host : String) (cf xff cf' xff' : Option String)
      → is_trusted_proxy net host ≡ false
      → get_client_ip net
          (record { client_host = some host; cf_connecting_ip = cf; x_forwarded_for = xff })
        ≡ get_client_ip net
            (record { client_host = some host; cf_connecting_ip = cf'; x_forwarded_for = xff' })
  unfolding get_client_ip client_of_host
  get_client_ip-direct host cf xff cf' xff' untrusted = rw untrusted refl
