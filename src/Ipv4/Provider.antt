-- ===== src/Ipv4/Provider.antt =====
-- src/net/ipv4.cpp: `onEtherFrameReceived` and `send`. A packet is a byte memory from its first byte
-- on. The protocols' handlers, the address resolution and the frames below are arguments, and `S` is
-- their state.
use fox_os_kernel.Prelude.{
  ℕ, ◌+◌, ◌-◌, ◌*◌, ◌%◌, bit_and, Bool, true, false, ◌||◌, none, some, List, [], ◌∷◌, ◌++◌, ltb,
  ◌==◌, if◌then◌else◌, length,
}
use fox_os_kernel.Net.{bswap16, word16, word32, bytes16, bytes32, sub32, store_bytes, read_bytes}
use fox_os_kernel.Ipv4.{checksum}
use fox_os_kernel.Slots.{Slots, find}

pub record Ipv4Provider : Type 0 where
  pub handlers : Slots ℕ
  -- the protocol that a handler is for
  pub protocol : ℕ → ℕ
  pub ip : ℕ
  pub gateway_ip_be : ℕ
  pub subnet_mask_be : ℕ

-- Whether a packet to this address is taken in.
unfoldable pub is_for : Ipv4Provider → ℕ → Bool
is_for v dest_ip = dest_ip == v.ip || dest_ip == 4294967295 || v.ip == 0

-- The addresses change places, and the header gets a new time to live and checksum.
unfoldable pub turn_back : (ℕ → ℕ) → ℕ → ℕ
unfolding store_bytes read_bytes checksum
turn_back p =
    let q = store_bytes (0 ∷ 0 ∷ []) 10 (
      store_bytes (64 ∷ []) 8
        (store_bytes (bytes32 (word32 p 16) ++ bytes32 (word32 p 12)) 12 p)) in
    store_bytes (bytes16 (checksum (read_bytes q 0 (4 * (p 0 % 16))))) 10 q

-- The header with a checksum field of its own.
unfoldable pub header_bytes : Ipv4Provider → ℕ → ℕ → ℕ → ℕ → List ℕ
unfolding bswap16
header_bytes v dest_ip_be protocol size sum =
    (69 ∷ 0 ∷ [])
    ++ bytes16 (bswap16 ((size + 20) % 65536))
    ++ bytes16 0
    ++ bytes16 0
    ++ (64 ∷ protocol % 256 ∷ [])
    ++ bytes16 sum
    ++ bytes32 v.ip
    ++ bytes32 dest_ip_be

-- A destination outside the subnet goes to the gateway.
unfoldable pub route : Ipv4Provider → ℕ → ℕ
route v dest_ip_be =
    if bit_and dest_ip_be v.subnet_mask_be == bit_and v.ip v.subnet_mask_be
    then dest_ip_be
    else v.gateway_ip_be

-- The packet with a payload that its handler has written.
abbrev pub with_payload : ℕ → (ℕ → ℕ) → (ℕ → ℕ) → ℕ → ℕ
with_payload header p payload a = if ltb a header then p a else payload (a - header)

-- The packet that `send` builds.
unfoldable pub packet : Ipv4Provider → ℕ → ℕ → List ℕ → List ℕ
unfolding header_bytes checksum
packet v dest_ip_be protocol payload =
    let sum = checksum (header_bytes v dest_ip_be protocol (length payload) 0) in
    header_bytes v dest_ip_be protocol (length payload) sum ++ payload

module _ {S : Type 0} where
  unfoldable pub on_ether_frame_received :
      (ℕ → ℕ → ℕ → (ℕ → ℕ) → ℕ → S → (ℕ → ℕ) × S × Bool)
      → ((ℕ → ℕ) → ℕ → S → S)
      → Ipv4Provider
      → (ℕ → ℕ)
      → ℕ
      → S
      → (ℕ → ℕ) × S × Bool
  unfolding find is_for turn_back
  on_ether_frame_received on_received send_frame v p size s =
      let length = if ltb size (word16 p 2) then size else word16 p 2 in
      let header = 4 * (p 0 % 16) in
      let handled : (ℕ → ℕ) × S × Bool = elim (find (λ h. p 9 == v.protocol h) v.handlers) [
        | none ↦ (p, s, false)
        | some n ↦
            let r =
              on_received (v.handlers.nodes n).value (word32 p 12) (word32 p 16)
                (λ i. p (header + i)) (sub32 length header) s in
            (with_payload header p (r.0), r.1, r.2)
      ] in
      let turned = turn_back (handled.0) in
      let answered : (ℕ → ℕ) × S × Bool =
        if handled.2 then (turned, send_frame turned size (handled.1), true) else handled in
      if ltb size 20
      then (p, s, false)
      else if is_for v (word32 p 16)
      then answered
      else (p, s, false)

  unfoldable pub send :
      (ℕ → S → ℕ × S) → (ℕ → List ℕ → S → S) → Ipv4Provider → ℕ → ℕ → List ℕ → S → S
  unfolding packet route
  send resolve send_f v dest_ip_be protocol payload s =
      let r = resolve (route v dest_ip_be) s in
      send_f (r.0) (packet v dest_ip_be protocol payload) (r.1)
