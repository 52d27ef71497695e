-- ===== src/Tcp.antt =====
-- src/net/tcp.cpp: the state of the TCP provider and its sockets. A `TcpSocket*` is a number, and
-- `sockets` is the memory behind these pointers. The waits of the code let interrupts run: `sleep n`
-- is what happens to the provider in the wait that has `n` rounds left, and `arp_sleep n` in that for
-- an address. `stray` is the pointer that an
-- uninitialised `list_node` holds.
pub mod Flag
pub mod Send
pub mod Receive
pub mod Provider
pub mod Quiet
pub mod Sends
pub mod Handshake
use fox_os_kernel.Prelude.{
  ℕ, ◌*◌, ◌/◌, ◌%◌, bit_and, Bool, Option, List, [], ◌∷◌, ◌++◌, ◌==◌, if◌then◌else◌, update,
}
use fox_os_kernel.Net.{bytes16, bytes32, word16, word32, bswap16, bswap32}
use fox_os_kernel.Slots.{Slots}
use fox_os_kernel.Arp.{Arp}
use fox_os_kernel.Ipv4.Provider.{Ipv4Provider}
use fox_os_kernel.Tcp.Flag

pub data TcpSocketState : Type 0 where
  closed : TcpSocketState
  listening : TcpSocketState
  syn_sent : TcpSocketState
  syn_received : TcpSocketState
  established : TcpSocketState
  fin_wait_1 : TcpSocketState
  fin_wait_2 : TcpSocketState
  closing : TcpSocketState
  time_wait : TcpSocketState
  close_wait : TcpSocketState

-- The number of the state in the enumeration.
abbrev pub ordinal : TcpSocketState → ℕ
ordinal closed = 0
ordinal listening = 1
ordinal syn_sent = 2
ordinal syn_received = 3
ordinal established = 4
ordinal fin_wait_1 = 5
ordinal fin_wait_2 = 6
ordinal closing = 7
ordinal time_wait = 8
ordinal close_wait = 9

abbrev pub same_state : TcpSocketState → TcpSocketState → Bool
same_state s t = ordinal s == ordinal t

pub record TcpSentPacket : Type 0 where
  pub seq_num : ℕ
  pub data_empty : Bool
  pub was_acked : Bool

pub record TcpSocket : Type 0 where
  pub state : TcpSocketState
  pub remote_port : ℕ
  pub remote_ip : ℕ
  pub local_port : ℕ
  pub local_ip : ℕ
  pub seq_num : ℕ
  pub ack_num : ℕ
  pub handler : Option ℕ
  pub acknowledged : Slots TcpSentPacket

pub record TcpBind : Type 0 where
  pub port : ℕ
  pub handler : ℕ

-- A call of `EtherFrameProvider::send_f`.
pub record Frame : Type 0 where
  pub dest_mac : ℕ
  pub packet : List ℕ

pub record TcpProvider : Type 0 where
  pub sockets : ℕ → TcpSocket
  pub binds : Slots TcpBind
  pub free_port : ℕ
  pub ip : ℕ
  pub arp : Arp
  pub sent : List Frame

pub record Environment : Type 0 where
  pub ipv4 : Ipv4Provider
  pub sleep : ℕ → TcpProvider → TcpProvider
  pub arp_sleep : ℕ → TcpProvider → TcpProvider
  pub stray : ℕ
  pub on_tcp_message : ℕ → ℕ → (ℕ → ℕ) → ℕ → TcpProvider → TcpProvider × Bool

abbrev pub set_socket : TcpProvider → ℕ → TcpSocket → TcpProvider
set_socket w s q = record w { sockets = update w.sockets s q }

abbrev pub set_state : TcpProvider → ℕ → TcpSocketState → TcpProvider
set_state w s t = set_socket w s (record (w.sockets s) { state = t })

-- The header of a segment in memory, and as the code reads it: ports as they are, numbers swapped.
pub record TcpHeader : Type 0 where
  pub src_port : ℕ
  pub dst_port : ℕ
  pub seq_num : ℕ
  pub ack : ℕ
  pub data_offset : ℕ
  pub flags : ℕ

unfoldable pub read_header : (ℕ → ℕ) → TcpHeader
unfolding bswap32
read_header p = record {
  src_port = word16 p 0;
  dst_port = word16 p 2;
  seq_num = bswap32 (word32 p 4);
  ack = bswap32 (word32 p 8);
  data_offset = p 12 / 16;
  flags = p 13;
}

-- The 24 bytes of a `tcp_header_t` and the 12 bytes of a `tcp_pseudo_header_t`.
unfoldable pub header_bytes : TcpSocket → ℕ → ℕ → List ℕ
unfolding bswap32
header_bytes q flags checksum =
    bytes16 q.local_port
    ++ bytes16 q.remote_port
    ++ bytes32 (bswap32 q.seq_num)
    ++ bytes32 (bswap32 q.ack_num)
    ++ (6 * 16 ∷ flags % 256 ∷ [])
    ++ bytes16 65535
    ++ bytes16 checksum
    ++ bytes16 0
    ++ bytes32 (if bit_and flags Flag.syn == 0 then 0 else 3020227586)

unfoldable pub pseudo_header_bytes : TcpSocket → ℕ → List ℕ
unfolding bswap16
pseudo_header_bytes q total_size =
    bytes32 q.local_ip ++ bytes32 q.remote_ip ++ bytes16 1536 ++ bytes16 (bswap16 total_size)
