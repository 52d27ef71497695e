-- ===== src/Tcp/Send.antt =====
-- src/net/tcp.cpp: `send` and `retransmit`.
use fox_os_kernel.Prelude.{
  ℕ, zero, suc, ◌+◌, Bool, true, false, not, ◌&&◌, Option, none, some, List, [], ◌∷◌, ◌++◌, ◌==◌,
  if◌then◌else◌, length,
}
use fox_os_kernel.Net.{add16, add32, and_then}
use fox_os_kernel.Arp.{resolve}
use fox_os_kernel.Ipv4.{checksum}
use fox_os_kernel.Ipv4.Provider
use fox_os_kernel.Slots.{add, remove}
use fox_os_kernel.Tcp.Flag
use fox_os_kernel.Tcp.{
  TcpSocketState, closed, syn_sent, established, same_state, TcpSentPacket, TcpSocket, TcpProvider,
  Environment, set_socket, set_state, header_bytes, pseudo_header_bytes,
}

-- `while (!list_node->data.was_acked && socket->state == s) { if (--timeout == 0) ...; sleep(100); }`
-- with a timeout that is not 0: the provider afterwards, and whether the time was over.
unfoldable pub wait_while :
    Environment → TcpSocketState → ℕ → ℕ → ℕ → TcpProvider → TcpProvider × Bool
wait_while env s socket node zero w = (w, true)
wait_while env s socket node (suc timeout) w =
    let rest = wait_while env s socket node timeout (env.sleep timeout w) in
    if not ((w.sockets socket).acknowledged.nodes node).value.was_acked
      && same_state (w.sockets socket).state s
    then (if timeout == 0 then (w, true) else rest)
    else (w, false)

abbrev pub timeout_rounds : ℕ
timeout_rounds = 1000

abbrev pub cleared_packet : TcpSentPacket
cleared_packet = record { seq_num = 0; data_empty = false; was_acked = false }

-- `socket->acknowledged.remove(list_node); free(packet);`
unfoldable pub forget : ℕ → ℕ → TcpProvider → TcpProvider
unfolding remove
forget socket node w = set_socket w socket (record (w.sockets socket) {
  acknowledged = remove cleared_packet node (w.sockets socket).acknowledged;
})

-- The Ethernet frames below.
abbrev pub send_f : ℕ → List ℕ → TcpProvider → TcpProvider
send_f dest_mac packet w = record w {
  sent = w.sent ++ record { dest_mac = dest_mac; packet = packet } ∷ [];
}

-- `Ipv4Handler::send(socket->remoteIp, data, size)`, with the wait for the address of the next hop
unfoldable pub transmit : Environment → ℕ → List ℕ → TcpProvider → TcpProvider
unfolding Provider.send resolve
transmit env socket payload w =
    Provider.send (resolve (λ (v : TcpProvider). v.arp) (λ a v. record v { arp = a }) env.arp_sleep)
      send_f env.ipv4 (w.sockets socket).remote_ip 6 payload w

unfoldable pub take : ℕ → List ℕ → List ℕ
take zero l = []
take (suc n) [] = []
take (suc n) (x ∷ l) = x ∷ take n l

-- `packet` is the whole buffer, the pseudo header first.
unfoldable pub retransmit : Environment → ℕ → ℕ → List ℕ → ℕ → ℕ → TcpProvider → Option TcpProvider
unfolding wait_while forget take transmit
retransmit env zero socket packet size node w = none
retransmit env (suc fuel) socket packet size node w =
    let r =
      wait_while env established socket node timeout_rounds
        (transmit env socket (take size packet) w) in
    let again = retransmit env fuel socket packet size node r.0 in
    if same_state (w.sockets socket).state established
    then (if r.1 && same_state (r.0.sockets socket).state established
        then again
        else some (forget socket node r.0))
    else some (forget socket node w)

-- Whether a segment with these flags is one that the peer acknowledges.
abbrev pub expects_ack : ℕ → Bool
expects_ack flags =
    not (flags == Flag.fin + Flag.ack) && not (flags == Flag.ack) && not (flags == Flag.rst)

-- The segment that `send` builds; its checksum is that of the whole buffer with a checksum of 0. The
-- sizes are 16 bits wide.
unfoldable pub segment : TcpSocket → List ℕ → ℕ → List ℕ
unfolding header_bytes pseudo_header_bytes checksum take
segment q payload flags =
    let total_size = add16 (length payload) 24 in
    let sum = checksum (
      take (add16 total_size 12)
        (pseudo_header_bytes q total_size ++ header_bytes q flags 0 ++ payload)) in
    take total_size (header_bytes q flags sum ++ payload)

-- `sent_packet` enters the list of the packets that wait for their acknowledgement.
unfoldable pub remember : Environment → ℕ → List ℕ → ℕ → TcpSocket → Option (ℕ × TcpSocket)
unfolding add
remember env fuel payload flags q =
    if expects_ack flags
    then and_then
        (add 12 fuel
          (record { seq_num = q.seq_num; data_empty = length payload == 0; was_acked = false })
          q.acknowledged)
        (λ r. some (r.0, record q { acknowledged = r.1 }))
    else some (env.stray, q)

-- The wait for the acknowledgement of the segment.
unfoldable pub await_ack : Environment → ℕ → ℕ → ℕ → TcpProvider → TcpProvider × Bool
unfolding wait_while
await_ack env flags socket node w =
    if expects_ack flags
    then wait_while env established socket node timeout_rounds w
    else (w, false)

-- The wait of a socket in SYN_SENT for the answer of the peer.
unfoldable pub await_open : Environment → ℕ → ℕ → TcpProvider → TcpProvider × Bool
unfolding wait_while
await_open env socket node w =
    if same_state (w.sockets socket).state syn_sent
    then wait_while env syn_sent socket node timeout_rounds w
    else (w, false)

unfoldable pub send : Environment → ℕ → ℕ → List ℕ → ℕ → TcpProvider → Option TcpProvider
unfolding transmit segment remember await_ack await_open retransmit forget pseudo_header_bytes
send env zero socket payload flags w = none
send env (suc fuel) socket payload flags w =
    let q = w.sockets socket in
    let tcp = segment q payload flags in
    and_then
      (remember env fuel payload flags (record q { seq_num = add32 q.seq_num (length payload) }))
      (λ r.
        let a =
          await_ack env flags socket r.0 (transmit env socket tcp (set_socket w socket r.1)) in
        let again =
          retransmit env fuel socket (pseudo_header_bytes q (add16 (length payload) 24) ++ tcp)
            (length payload) r.0 a.0 in
        let b = await_open env socket r.0 a.0 in
        let refused =
          and_then (send env fuel socket [] Flag.rst b.0)
            (λ w2. some (forget socket r.0 (set_state w2 socket closed))) in
        if a.1 && same_state (a.0.sockets socket).state established
        then again
        else (if b.1 then refused else some (forget socket r.0 b.0)))
