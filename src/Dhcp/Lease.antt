-- ===== src/Dhcp/Lease.antt =====
-- src/net/dhcp.cpp: from an offer to a lease.
use fox_os_kernel.Prelude.{
  ℕ, ◌%◌, ◌^◌, ◌<◌, ◌≡◌, refl, ap, ap₂, ◌∙◌, true, some, List, [], ◌∷◌, ◌++◌, arith,
}
use fox_os_kernel.Net.{bytes_of}
use fox_os_kernel.Dhcp.{
  DhcpPacket, DhcpProtocol, get_dhcp_options, request_options, make_dhcp_packet, word_at, on_type,
  acknowledged, request_address, on_udp_message,
}

-- What the client's own messages say.
own_type :
    (mac msg_type ip : ℕ)
    → (rest : List ℕ) × (get_dhcp_options (request_options mac msg_type ip) 53
        ≡ some (some (msg_type % 256 ∷ rest)))
unfolding get_dhcp_options request_options
own_type mac msg_type ip = (_, refl)

own_address :
    (mac msg_type ip : ℕ)
    → (rest : List ℕ) × (get_dhcp_options (request_options mac msg_type ip) 50
        ≡ some (some (bytes_of 4 ip ++ rest)))
unfolding get_dhcp_options request_options
own_address mac msg_type ip = (_, refl)

word_of_bytes :
    (ip : ℕ) (rest : List ℕ) → ip < 2 ^ 32 → word_at (some (some (bytes_of 4 ip ++ rest))) ≡ some ip
word_of_bytes ip rest fits = ap some (omega arith)

-- The message that asks for an address.
abbrev pub Requests : ℕ → DhcpPacket → Type 0
Requests ip q =
    ((rest : List ℕ) × (get_dhcp_options q.options 53 ≡ some (some (3 ∷ rest))))
    × (word_at (get_dhcp_options q.options 50) ≡ some ip)

request_address-Requests : (mac ip : ℕ) → ip < 2 ^ 32 → Requests ip (make_dhcp_packet mac 3 ip)
unfolding make_dhcp_packet
request_address-Requests mac ip fits =
    let a = own_address mac 3 ip in (own_type mac 3 ip, ap word_at a.1 ∙ word_of_bytes ip a.0 fits)

-- An offer of a 32-bit address and then an acknowledgement that has the router, the name server and the
-- subnet, each as a word: the client answers the offer with one message, a request whose own options
-- ask for the address that was offered, and then takes the acknowledged address and the three words
-- and is complete.
pub lease_lem :
    (mac gateway dns subnet : ℕ) (offer ack : DhcpPacket) (d : DhcpProtocol) (o a : List ℕ)
    → offer.your_ip < 2 ^ 32
    → get_dhcp_options offer.options 53 ≡ some (some (2 ∷ o))
    → get_dhcp_options ack.options 53 ≡ some (some (5 ∷ a))
    → word_at (get_dhcp_options ack.options 3) ≡ some gateway
    → word_at (get_dhcp_options ack.options 6) ≡ some dns
    → word_at (get_dhcp_options ack.options 1) ≡ some subnet
    → (q : DhcpPacket) × Requests offer.your_ip q
      × ((asked : DhcpProtocol) × (on_udp_message mac offer d ≡ some asked)
          × (asked ≡ record d { sent = d.sent ++ (q ∷ []) })
          × (on_udp_message mac ack asked
              ≡ some (record {
                ip = ack.your_ip;
                gateway = gateway;
                subnet = subnet;
                dns = dns;
                complete = true;
                sent = d.sent ++ (q ∷ []);
              })))
unfolding on_udp_message request_address
lease_lem mac gateway dns subnet offer ack d o a fits offered acked has_gateway has_dns has_subnet =
    let q = make_dhcp_packet mac 3 offer.your_ip in
    let asked = request_address mac offer.your_ip d in
    (
      q,
      request_address-Requests mac offer.your_ip fits,
      (
        asked,
        ap (on_type mac offer d) offered,
        refl,
        ap (on_type mac ack asked) acked
            ∙ ap
                (λ w.
                  acknowledged ack.your_ip asked w (word_at (get_dhcp_options ack.options 6))
                    (word_at (get_dhcp_options ack.options 1)))
                has_gateway
            ∙ ap₂ (acknowledged ack.your_ip asked (some gateway)) has_dns has_subnet,
      ),
    )
