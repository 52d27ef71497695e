-- ===== src/Udp.antt =====
-- src/net/udp.cpp: the UDP provider and its sockets. A `UdpSocket*` is a number and `sockets` is the
-- memory behind these pointers.
pub mod Binds
pub mod Deliver
use fox_os_kernel.Prelude.{
  ℕ, ◌+◌, ◌-◌, ◌%◌, Bool, true, false, ◌&&◌, ◌||◌, Option, none, some, List, [], ◌∷◌, ◌++◌, ltb,
  ◌==◌, if◌then◌else◌, length, update,
}
use fox_os_kernel.Net.{bytes16, word16, bswap16, add16, and_then}
use fox_os_kernel.Slots.{Slots, find, add, remove}

pub record UdpSocket : Type 0 where
  pub listening : Bool
  pub remote_port : ℕ
  pub remote_ip : ℕ
  pub local_port : ℕ
  pub local_ip : ℕ
  pub handler : Option ℕ

pub record UdpBind : Type 0 where
  pub port : ℕ
  pub handler : ℕ

-- A call of `Ipv4Handler::send`, whose wait for an address of the next hop is left out here.
pub record Datagram : Type 0 where
  pub dest_ip : ℕ
  pub payload : List ℕ

pub record UdpProvider : Type 0 where
  pub sockets : ℕ → UdpSocket
  pub binds : Slots UdpBind
  pub free_port : ℕ
  pub ip : ℕ
  pub sent : List Datagram

abbrev pub broadcast : ℕ
broadcast = 4294967295

abbrev pub set_socket : UdpProvider → ℕ → UdpSocket → UdpProvider
set_socket w s q = record w { sockets = update w.sockets s q }

-- The two conditions of the search. The first one's `if` also changes the socket that it finds, and
-- the search ends there.
unfoldable pub is_opened_by : ℕ → ℕ → UdpSocket → Bool
is_opened_by dst_ip dst_port q = q.local_port == dst_port && q.local_ip == dst_ip && q.listening

unfoldable pub is_peer : ℕ → ℕ → ℕ → UdpSocket → Bool
is_peer src_ip dst_ip src_port q =
    q.remote_port == src_port
    && (q.remote_ip == src_ip
        || dst_ip == broadcast
        || src_ip == broadcast
        || q.remote_ip == broadcast)

unfoldable pub open_for : ℕ → ℕ → UdpSocket → UdpSocket
open_for src_ip src_port q = record q {
  listening = false;
  remote_port = src_port;
  remote_ip = src_ip;
}

-- `handleUdpMessage`
unfoldable pub handle_udp_message :
    (ℕ → ℕ → (ℕ → ℕ) → ℕ → UdpProvider → UdpProvider) → ℕ → (ℕ → ℕ) → ℕ → UdpProvider → UdpProvider
handle_udp_message on_message socket p size w = elim (w.sockets socket).handler [
  | some h ↦ on_message h socket p size w
  | none ↦ w
]

unfoldable pub deliver :
    (ℕ → ℕ → (ℕ → ℕ) → ℕ → UdpProvider → UdpProvider)
    → ℕ
    → ℕ
    → (ℕ → ℕ)
    → ℕ
    → ℕ
    → UdpProvider
    → UdpProvider
unfolding is_opened_by open_for handle_udp_message
deliver on_message src_ip dst_ip p size socket w =
    let q = w.sockets socket in
    let w1 =
      if is_opened_by dst_ip (word16 p 2) q
      then set_socket w socket (open_for src_ip (word16 p 0) q)
      else w in
    handle_udp_message on_message socket (λ i. p (8 + i)) (size - 8) w1

unfoldable pub on_internet_protocol_received :
    (ℕ → ℕ → (ℕ → ℕ) → ℕ → UdpProvider → UdpProvider)
    → ℕ
    → ℕ
    → (ℕ → ℕ)
    → ℕ
    → UdpProvider
    → UdpProvider
unfolding is_opened_by is_peer deliver find
on_internet_protocol_received on_message src_ip dst_ip p size w =
    let found : UdpProvider =
      elim (find
        (λ (b : UdpBind).
          is_opened_by dst_ip (word16 p 2) (w.sockets b.handler)
          || is_peer src_ip dst_ip (word16 p 0) (w.sockets b.handler))
        w.binds) [
          | none ↦ w
          | some n ↦ deliver on_message src_ip dst_ip p size (w.binds.nodes n).value.handler w
        ] in
    if ltb size 8 then w else found

-- `connect(ip, port)` and `listen(port)`, with the new socket at the pointer `socket`, in a memory that
-- the constructor only partly clears.
unfoldable pub connect : ℕ → ℕ → ℕ → ℕ → UdpProvider → Option UdpProvider
unfolding bswap16 add
connect fuel socket ip port w =
    let q = record (w.sockets socket) {
      handler = none;
      listening = false;
      remote_ip = ip;
      remote_port = bswap16 port;
      local_port = bswap16 (w.free_port % 65536);
      local_ip = w.ip;
    } in
    and_then (add 24 fuel (record { port = q.local_port; handler = socket }) w.binds)
      (λ r. some (set_socket (record w { binds = r.1; free_port = w.free_port + 1 }) socket q))

unfoldable pub listen : ℕ → ℕ → ℕ → UdpProvider → Option UdpProvider
unfolding bswap16 add
listen fuel socket port w =
    let q = record (w.sockets socket) {
      handler = none;
      listening = true;
      local_port = bswap16 port;
      local_ip = w.ip;
    } in
    and_then (add 24 fuel (record { port = q.local_port; handler = socket }) w.binds)
      (λ r. some (set_socket (record w { binds = r.1 }) socket q))

abbrev pub cleared_bind : UdpBind
cleared_bind = record { port = 0; handler = 0 }

-- A search without a result would be a null pointer that is used.
unfoldable pub disconnect : ℕ → UdpProvider → Option UdpProvider
unfolding find remove
disconnect socket w =
    and_then (find (λ b. socket == b.handler) w.binds)
      (λ n. some (record w { binds = remove cleared_bind n w.binds }))

-- The packet of a message whose size and header fit into 16 bits.
unfoldable pub packet : UdpSocket → List ℕ → List ℕ
unfolding bswap16
packet q payload =
    bytes16 q.local_port
    ++ bytes16 q.remote_port
    ++ bytes16 (bswap16 (add16 (length payload) 8))
    ++ bytes16 0
    ++ payload

unfoldable pub send : ℕ → List ℕ → UdpProvider → UdpProvider
unfolding packet
send socket payload w = record w {
  sent =
      w.sent
      ++ record {
        dest_ip = (w.sockets socket).remote_ip;
        payload = packet (w.sockets socket) payload;
      }
        ∷ [];
}

unfoldable pub bind : ℕ → ℕ → UdpProvider → UdpProvider
bind socket handler w = set_socket w socket (record (w.sockets socket) { handler = some handler })
