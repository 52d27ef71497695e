-- ===== src/Dhcp.antt =====
-- src/net/dhcp.cpp: the DHCP client. A message is its fields and the list of the bytes of its options;
-- `none` is a read behind the list or of `nullptr`.
pub mod Options
pub mod Lease
use fox_os_kernel.Prelude.{
  ℕ, zero, suc, ◌+◌, ◌-◌, ◌*◌, ◌%◌, ◌^◌, Bool, true, Option, none, some, List, [], ◌∷◌, ◌++◌, ◌==◌,
  if◌then◌else◌, length, replicate,
}
use fox_os_kernel.Net.{bytes_of}

-- The fields of `dhcp_packet_t` that the client sets or reads; the others are 0.
pub record DhcpPacket : Type 0 where
  pub op : ℕ
  pub hardware_type : ℕ
  pub hardware_addr_len : ℕ
  pub hops : ℕ
  pub xid : ℕ
  pub flags : ℕ
  pub your_ip : ℕ
  pub client_hardware_addr : List ℕ
  pub options : List ℕ

-- `sent` are the messages that the socket got.
pub record DhcpProtocol : Type 0 where
  pub ip : ℕ
  pub gateway : ℕ
  pub subnet : ℕ
  pub dns : ℕ
  pub complete : Bool
  pub sent : List DhcpPacket

abbrev pub drop : ℕ → List ℕ → List ℕ
drop zero s = s
drop (suc n) [] = []
drop (suc n) (c ∷ s) = drop n s

-- The loop of `get_dhcp_options` from `options` on: `some none` is `nullptr`.
unfoldable pub find_option : ℕ → ℕ → List ℕ → Option (Option (List ℕ))
find_option zero type options = none
find_option (suc fuel) type [] = none
find_option (suc fuel) type (t ∷ []) = if t == 0xff then some none else none
find_option (suc fuel) type (t ∷ len ∷ rest) =
    let next = find_option fuel type (drop len rest) in
    if t == 0xff then some none else if t == type then some (some rest) else next

-- Each round passes two bytes at least, so there are enough.
unfoldable pub get_dhcp_options : List ℕ → ℕ → Option (Option (List ℕ))
unfolding find_option
get_dhcp_options options type = find_option (suc (length options)) type (drop 4 options)

-- `HOSTNAME` is `FoxOS`.
abbrev pub hostname : List ℕ
hostname = b'F' ∷ b'o' ∷ b'x' ∷ b'O' ∷ b'S' ∷ []

abbrev pub parameter_list : List ℕ
parameter_list = 0x1 ∷ 0x3 ∷ 0x6 ∷ 0xf ∷ 0x2c ∷ 0x2e ∷ 0x2f ∷ 0x39 ∷ []

-- The cookie and the options, up to the zeros that `memset` has left.
unfoldable pub request_options : ℕ → ℕ → ℕ → List ℕ
request_options mac msg_type request_ip =
    (0x63 ∷ 0x82 ∷ 0x53 ∷ 0x63 ∷ 53 ∷ 1 ∷ (msg_type % 256) ∷ 61 ∷ 0x07 ∷ 0x01 ∷ bytes_of 6 mac)
    ++ ((50 ∷ 0x04 ∷ bytes_of 4 request_ip)
        ++ ((12 ∷ (1 + length hostname) ∷ hostname)
            ++ ((0x00 ∷ 55 ∷ 8 ∷ parameter_list) ++ (0xff ∷ replicate 23 0))))

-- `bswap32(0x55555555)` is the number itself.
unfoldable pub make_dhcp_packet : ℕ → ℕ → ℕ → DhcpPacket
unfolding request_options
make_dhcp_packet mac msg_type request_ip = record {
  op = 1;
  hardware_type = 1;
  hardware_addr_len = 6;
  hops = 0;
  xid = 0x55555555;
  flags = 0;
  your_ip = 0;
  client_hardware_addr = bytes_of 8 mac;
  options = request_options mac msg_type request_ip;
}

abbrev pub send : DhcpPacket → DhcpProtocol → DhcpProtocol
send p d = record d { sent = d.sent ++ (p ∷ []) }

-- `request(ip)`
unfoldable pub request_address : ℕ → ℕ → DhcpProtocol → DhcpProtocol
unfolding make_dhcp_packet
request_address mac ip d = send (make_dhcp_packet mac 3 ip) d

-- The waits of `request()`: what happens in each of the `timeout - 1` rounds is a parameter.
unfoldable pub await_complete : (ℕ → DhcpProtocol → DhcpProtocol) → ℕ → DhcpProtocol → DhcpProtocol
await_complete meanwhile zero d = d
await_complete meanwhile (suc rounds) d =
    let rest = await_complete meanwhile rounds (meanwhile rounds d) in
    if d.complete then d else rest

unfoldable pub request : (ℕ → DhcpProtocol → DhcpProtocol) → ℕ → DhcpProtocol → DhcpProtocol
unfolding make_dhcp_packet
request meanwhile mac d = await_complete meanwhile 99999 (send (make_dhcp_packet mac 1 0) d)

-- `*(uint32_t*)`
abbrev pub word_at : Option (Option (List ℕ)) → Option ℕ
word_at (some (some (a ∷ b ∷ c ∷ d ∷ rest))) = some (a + b * 2 ^ 8 + c * 2 ^ 16 + d * 2 ^ 24)
word_at _ = none

abbrev pub acknowledged : ℕ → DhcpProtocol → Option ℕ → Option ℕ → Option ℕ → Option DhcpProtocol
acknowledged ip d (some gateway) (some dns) (some subnet) =
    some (record d { ip = ip; gateway = gateway; dns = dns; complete = true; subnet = subnet })
acknowledged ip d _ _ _ = none

abbrev pub on_type : ℕ → DhcpPacket → DhcpProtocol → Option (Option (List ℕ)) → Option DhcpProtocol
on_type mac p d (some (some (type ∷ rest))) =
    if type == 2
    then some (request_address mac p.your_ip d)
    else if type == 5
    then acknowledged p.your_ip d (word_at (get_dhcp_options p.options 3))
        (word_at (get_dhcp_options p.options 6)) (word_at (get_dhcp_options p.options 1))
    else some d
on_type mac p d _ = none

unfoldable pub on_udp_message : ℕ → DhcpPacket → DhcpProtocol → Option DhcpProtocol
unfolding get_dhcp_options request_address
on_udp_message mac p d = on_type mac p d (get_dhcp_options p.options 53)
