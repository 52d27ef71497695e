-- ===== src/Arp.antt =====
-- src/net/arp.cpp: the address resolution protocol. The network card's addresses do not change here;
-- `sleep n` is what interrupts do in the wait that has `n` rounds left. They can change more than the
-- cache, so the state `S` is that of the caller: `view` is the protocol's part of it and `put` stores
-- that part.
pub mod Cache
use fox_os_kernel.Prelude.{
  ℕ, zero, suc, ◌+◌, not, ◌&&◌, List, [], ◌∷◌, ◌++◌, ltb, ◌==◌, if◌then◌else◌, update,
}
use fox_os_kernel.Net.{and_then}

pub record ArpMessage : Type 0 where
  pub hardware_type : ℕ
  pub protocol : ℕ
  pub hardware_address_size : ℕ
  pub protocol_address_size : ℕ
  pub command : ℕ
  pub src_mac : ℕ
  pub src_ip : ℕ
  pub dest_mac : ℕ
  pub dest_ip : ℕ

pub record Arp : Type 0 where
  pub num_cache_entry : ℕ
  pub ip_cache : ℕ → ℕ
  pub mac_cache : ℕ → ℕ
  pub ip : ℕ
  pub mac : ℕ
  pub sent : List ArpMessage

abbrev pub broadcast_address : ℕ
broadcast_address = 281474976710655

unfoldable pub answer : ArpMessage → Arp → Arp
answer m a = record a {
  sent =
      a.sent
      ++ record m {
        command = 512;
        dest_ip = m.src_ip;
        dest_mac = m.src_mac;
        src_ip = a.ip;
        src_mac = a.mac;
      }
        ∷ [];
}

unfoldable pub enter : ArpMessage → Arp → Arp
enter m a =
    if ltb a.num_cache_entry 128
    then record a {
      ip_cache = update a.ip_cache a.num_cache_entry m.src_ip;
      mac_cache = update a.mac_cache a.num_cache_entry m.src_mac;
      num_cache_entry = a.num_cache_entry + 1;
    }
    else a

-- The message has 28 bytes.
unfoldable pub on_ether_frame_received : ArpMessage → ℕ → Arp → Arp
unfolding answer enter
on_ether_frame_received m size a =
    if ltb size 28
    then a
    else if m.hardware_type == 256
        && (m.protocol == 8
            && m.hardware_address_size == 6
            && m.protocol_address_size == 4
            && m.dest_ip == a.ip)
    then (if m.command == 256 then answer m a else if m.command == 512 then enter m a else a)
    else a

unfoldable pub get_mac_from_cache_from : Arp → ℕ → ℕ → ℕ → ℕ
get_mac_from_cache_from a ip_be i zero = broadcast_address
get_mac_from_cache_from a ip_be i (suc n) =
    let rest = get_mac_from_cache_from a ip_be (i + 1) n in
    if a.ip_cache i == ip_be then a.mac_cache i else rest

unfoldable pub get_mac_from_cache : Arp → ℕ → ℕ
unfolding get_mac_from_cache_from
get_mac_from_cache a ip_be = get_mac_from_cache_from a ip_be 0 a.num_cache_entry

unfoldable pub request_mac_address : ℕ → Arp → Arp
request_mac_address ip_be a = record a {
  sent =
      a.sent
      ++ record {
        hardware_type = 256;
        protocol = 8;
        hardware_address_size = 6;
        protocol_address_size = 4;
        command = 256;
        src_mac = a.mac;
        src_ip = a.ip;
        dest_mac = broadcast_address;
        dest_ip = ip_be;
      }
        ∷ [];
}

-- `while (result == 0xFFFFFFFFFFFF) { ...; if (--timeout == 0) return 0; sleep(10); }`
unfoldable pub await_mac : {S : Type 0} → (S → Arp) → (ℕ → S → S) → ℕ → ℕ → ℕ → S → ℕ × S
unfolding get_mac_from_cache
await_mac view sleep ip_be result zero s = (0, s)
await_mac view sleep ip_be result (suc timeout) s =
    let found = get_mac_from_cache (view s) ip_be in
    let rest = await_mac view sleep ip_be found timeout (sleep timeout s) in
    if result == broadcast_address then (if timeout == 0 then (0, s) else rest) else (result, s)

unfoldable pub resolve : {S : Type 0} → (S → Arp) → (Arp → S → S) → (ℕ → S → S) → ℕ → S → ℕ × S
unfolding get_mac_from_cache
resolve view put sleep ip_be s =
    let result = get_mac_from_cache (view s) ip_be in
    let asked =
      if result == broadcast_address then put (request_mac_address ip_be (view s)) s else s in
    if ip_be == 4294967295
    then (broadcast_address, s)
    else await_mac view sleep ip_be result 100000 asked

unfoldable pub broadcast_mac : (ℕ → Arp → Arp) → ℕ → Arp → Arp
unfolding resolve
broadcast_mac sleep ip_be a =
    let r = resolve (λ b. b) (λ b _. b) sleep ip_be a in
    record (r.1) {
      sent =
          (r.1).sent
          ++ record {
            hardware_type = 256;
            protocol = 8;
            hardware_address_size = 6;
            protocol_address_size = 4;
            command = 512;
            src_mac = a.mac;
            src_ip = a.ip;
            dest_mac = r.0;
            dest_ip = ip_be;
          }
            ∷ [];
    }
