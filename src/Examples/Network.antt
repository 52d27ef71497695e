-- ===== src/Examples/Network.antt =====
-- The network stack at concrete inputs.
use fox_os_kernel.Prelude.{
  ℕ, zero, suc, ◌+◌, ◌≡◌, refl, true, false, none, some, [], ◌∷◌, arith, ◌==◌, if◌then◌else◌,
  length,
}
use fox_os_kernel.Ipv4.{checksum}
use fox_os_kernel.Ipv4.Provider.{route}
use fox_os_kernel.Arp.{ArpMessage, Arp, on_ether_frame_received, get_mac_from_cache}
use fox_os_kernel.Arp.Cache.{reply-get_mac}
use fox_os_kernel.Udp.{UdpSocket, UdpProvider, set_socket, open_for, is_opened_by, is_peer}
use fox_os_kernel.Udp.Binds.{OnMessage, NoOther, Message, receive, hand_over}
use fox_os_kernel.Udp.Deliver.{Second, two_messages}
use fox_os_kernel.Tcp.Flag
use fox_os_kernel.Tcp.{
  TcpSocketState, syn_sent, established, TcpSocket, TcpHeader, TcpProvider, Environment,
}
use fox_os_kernel.Tcp.Send.{segment}
use fox_os_kernel.Tcp.Receive.{go_on, on_syn_ack, on_fin}
use fox_os_kernel.Tcp.Quiet.{Knows}
use fox_os_kernel.Tcp.Sends.{Sends}
use fox_os_kernel.Tcp.Handshake.{opened, half_closed, syn_ack-Sends, fin-Sends}

-- A header of an IPv4 packet whose checksum, 0xb861, is known.
checksum_known :
    checksum (
      69 ∷ 0 ∷ 0 ∷ 115 ∷ 0 ∷ 0 ∷ 64 ∷ 0 ∷ 64 ∷ 17 ∷ 0 ∷ 0 ∷ 192 ∷ 168 ∷ 0 ∷ 1 ∷ 192 ∷ 168 ∷ 0 ∷ 199
      ∷ [])
    ≡ 25016
unfolding checksum
checksum_known = refl

abbrev arp : Arp
arp = record {
  num_cache_entry = 1;
  ip_cache = λ _. 10;
  mac_cache = λ _. 77;
  ip = 20;
  mac = 55;
  sent = [];
}

abbrev reply_message : ArpMessage
reply_message = record {
  hardware_type = 256;
  protocol = 8;
  hardware_address_size = 6;
  protocol_address_size = 4;
  command = 512;
  src_mac = 99;
  src_ip = 30;
  dest_mac = 55;
  dest_ip = 20;
}

reply_example : get_mac_from_cache (on_ether_frame_received reply_message 28 arp) 30 ≡ 99
reply_example =
    reply-get_mac arp reply_message 28 (omega arith) refl refl refl refl refl refl (omega arith)
      (λ j l u. omega arith)

abbrev udp_socket : ℕ → UdpSocket
udp_socket port = record {
  listening = true;
  remote_port = 0;
  remote_ip = 0;
  local_port = port;
  local_ip = 20;
  handler = some 4;
}

-- The sockets 7 and 8 listen at different ports.
abbrev udp_provider : UdpProvider
udp_provider = record {
  sockets = λ s. udp_socket (if s == 7 then 13568 else 17664);
  binds = record {
    length = 2;
    capacity = 2;
    nodes = λ i. record { value = record { port = 0; handler = 7 + i }; taken = true };
  };
  free_port = 1024;
  ip = 20;
  sent = [];
}

-- From port 3 of an address to the port 53 of this one.
abbrev message : ℕ → Message
message src_ip = record {
  src_ip = src_ip;
  dst_ip = 20;
  bytes = λ i. if i == 1 then 3 else if i == 3 then 53 else 0;
  size = 12;
}

abbrev on_message : OnMessage
on_message h socket p size w = w

no_other : (src_ip : ℕ) → NoOther 0 (message src_ip) udp_provider
unfolding is_opened_by is_peer
no_other src_ip zero lt t d = absurd (d refl)
no_other src_ip (suc zero) lt t d = refl
no_other src_ip (suc (suc i)) lt t d = absurd (omega arith)

two_messages_example :
    let w1 = receive on_message (message 30) udp_provider in
    (w1
      ≡ hand_over on_message 7
          (message 30)
          (set_socket udp_provider 7 (open_for 30 768 (udp_socket 13568))))
    × Second on_message (message 30) (message 31) w1 7
unfolding is_opened_by
two_messages_example =
    two_messages on_message 0 (message 30) (message 31) udp_provider (λ h s p size w. (refl, refl))
      (omega arith, refl, λ i lt t d. omega arith) (omega arith) (omega arith) (omega arith)
      (omega arith) (omega arith) (no_other 30) (no_other 31) refl

abbrev socket_in : TcpSocketState → TcpSocket
socket_in state = record {
  state = state;
  remote_port = 80;
  remote_ip = 30;
  local_port = 4000;
  local_ip = 20;
  seq_num = 3203386110;
  ack_num = 0;
  handler = none;
  acknowledged = record {
    length = 1;
    capacity = 1;
    nodes = λ _. record {
      value = record { seq_num = 0; data_empty = false; was_acked = false };
      taken = false;
    };
  };
}

-- The socket is at 7, and its bind is the first of the list.
abbrev provider : TcpSocketState → TcpProvider
provider state = record {
  sockets = λ _. socket_in state;
  binds = record {
    length = 1;
    capacity = 1;
    nodes = λ _. record { value = record { port = 4000; handler = 7 }; taken = true };
  };
  free_port = 1024;
  ip = 20;
  arp = record arp { ip_cache = λ _. 30 };
  sent = [];
}

-- The header, its options and two bytes of data.
segment_length : length (segment (socket_in established) (1 ∷ 2 ∷ []) 18) ≡ 26
unfolding segment
segment_length = refl

abbrev environment : Environment
environment = record {
  ipv4 = record {
    handlers = record {
      length = 0;
      capacity = 0;
      nodes = λ _. record { value = 0; taken = false };
    };
    protocol = λ _. 6;
    ip = 20;
    gateway_ip_be = 1;
    subnet_mask_be = 65280;
  };
  sleep = λ _ w. w;
  arp_sleep = λ _ w. w;
  stray = 5;
  on_tcp_message = λ _ _ _ _ w. (w, true);
}

peer_known : (state : TcpSocketState) → Knows environment 30 (provider state)
unfolding route get_mac_from_cache
peer_known state = (omega arith, omega arith)

abbrev header : ℕ → TcpHeader
header flags = record {
  src_port = 80;
  dst_port = 4000;
  seq_num = 500;
  ack = 3203386111;
  data_offset = 6;
  flags = flags;
}

syn_ack_example :
    (w' : TcpProvider) × (on_syn_ack environment 1 (header 18) 7 (provider syn_sent)
      ≡ some (w', go_on false))
    × Sends environment 7
        (segment ((opened (header 18) 7 (provider syn_sent)).sockets 7) [] Flag.ack ∷ [])
        (opened (header 18) 7 (provider syn_sent))
        w'
syn_ack_example =
    syn_ack-Sends environment 0 (header 18) 7 (provider syn_sent) refl (peer_known syn_sent)

fin_example :
    (w' : TcpProvider) × (on_fin environment 1 7 (provider established) ≡ some (w', go_on false))
    × Sends environment 7
        (segment ((half_closed 7 (provider established)).sockets 7) [] Flag.ack
          ∷ segment ((half_closed 7 (provider established)).sockets 7) [] (Flag.fin + Flag.ack)
          ∷ [])
        (half_closed 7 (provider established))
        w'
fin_example =
    fin-Sends environment 0 7 (provider established) refl (omega arith) (peer_known established)
