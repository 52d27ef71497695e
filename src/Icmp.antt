-- ===== src/Icmp.antt =====
-- src/net/icmp.cpp: echo requests and replies. `sent` are the calls of `Ipv4Handler::send`, an address
-- and the bytes; the checksum is that of the IPv4 provider.
use fox_os_kernel.Prelude.{ℕ, List, [], ◌∷◌, ◌++◌, ltb, ◌==◌, if◌then◌else◌}
use fox_os_kernel.Net.{bytes16, bytes32, read_bytes, store_bytes}
use fox_os_kernel.Ipv4.{checksum}

pub record Icmp : Type 0 where
  pub sent : List (ℕ × List ℕ)

unfoldable pub echo_request : List ℕ
unfolding checksum
echo_request =
    (8 ∷ 0 ∷ []) ++ bytes16 (checksum ((8 ∷ 0 ∷ []) ++ bytes16 0 ++ bytes32 14099)) ++ bytes32 14099

-- The reply is the request with another type and its checksum; only its eight bytes go back.
unfoldable pub echo_reply : (ℕ → ℕ) → ℕ → ℕ
unfolding checksum read_bytes store_bytes
echo_reply p =
    let q = store_bytes (0 ∷ 0 ∷ []) 2 (store_bytes (0 ∷ []) 0 p) in
    store_bytes (bytes16 (checksum (read_bytes q 0 8))) 2 q

-- The payload as it is afterwards, and the state.
unfoldable pub on_internet_protocol_received : ℕ → (ℕ → ℕ) → ℕ → Icmp → (ℕ → ℕ) × Icmp
unfolding echo_reply read_bytes
on_internet_protocol_received src_ip p size c =
    let answered : (ℕ → ℕ) × Icmp =
      (echo_reply p, record c { sent = c.sent ++ (src_ip, read_bytes (echo_reply p) 0 8) ∷ [] }) in
    if ltb size 8 then (p, c) else if p 0 == 8 then answered else (p, c)

unfoldable pub send_echo_request : ℕ → Icmp → Icmp
unfolding echo_request
send_echo_request dst_ip c = record c { sent = c.sent ++ (dst_ip, echo_request) ∷ [] }
