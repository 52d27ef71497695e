-- ===== src/Tcp/Receive.antt =====
-- src/net/tcp.cpp: the cases of `onInternetProtocolReceived`.
use fox_os_kernel.Prelude.{
  ℕ, ◌+◌, ◌*◌, bit_and, Bool, true, false, not, ◌&&◌, ◌||◌, Option, none, some, [], ◌==◌,
  if◌then◌else◌, update,
}
use fox_os_kernel.Net.{add32, sub32, and_then}
use fox_os_kernel.Slots.{Slots, find}
use fox_os_kernel.Tcp.Flag
use fox_os_kernel.Tcp.{
  closed, listening, syn_sent, syn_received, established, fin_wait_1, fin_wait_2, close_wait,
  same_state, TcpSentPacket, TcpBind, TcpHeader, TcpProvider, Environment, set_socket, set_state,
}
use fox_os_kernel.Tcp.Send.{send}

-- What a case of the `switch` ends with: an early `return false`, or a `break` with `reset` as it is.
pub data Verdict : Type 0 where
  leave : Verdict
  go_on : Bool → Verdict

abbrev pub broadcast : ℕ
broadcast = 4294967295

-- The search of the socket that a segment is for.
unfoldable pub is_for : TcpProvider → ℕ → ℕ → TcpHeader → TcpBind → Bool
is_for w src_ip dst_ip tcp b =
    let q = w.sockets b.handler in
    q.local_port == tcp.dst_port
      && q.local_ip == dst_ip
      && same_state q.state listening
      && bit_and tcp.flags (Flag.syn + Flag.ack) == Flag.syn
    || q.remote_port == tcp.src_port
      && (q.remote_ip == src_ip
          || dst_ip == broadcast
          || src_ip == broadcast
          || q.remote_ip == broadcast)

unfoldable pub is_acknowledged_by : ℕ → TcpSentPacket → Bool
is_acknowledged_by ack_num p = add32 p.seq_num (if p.data_empty then 1 else 0) == ack_num

abbrev pub set_acked : Slots TcpSentPacket → ℕ → Slots TcpSentPacket
set_acked l i = record l {
  nodes =
      update l.nodes i
        (record (l.nodes i) { value = record ((l.nodes i).value) { was_acked = true } });
}

-- The acknowledgement number: the provider, and whether the connection is to be reset.
unfoldable pub acknowledge : TcpHeader → ℕ → TcpProvider → TcpProvider × Bool
unfolding find is_acknowledged_by
acknowledge tcp socket w =
    let q = w.sockets socket in
    let searched : TcpProvider × Bool = elim (find (is_acknowledged_by tcp.ack) q.acknowledged) [
      | none ↦ (w, true)
      | some i ↦
          (set_socket w socket (record q { acknowledged = set_acked q.acknowledged i }), false)
    ] in
    if not (q.seq_num == tcp.ack) && not (bit_and tcp.flags Flag.ack == 0)
    then searched
    else (w, false)

-- `send(socket, 0, 0, flags);`, and what follows it.
abbrev pub reply :
    Environment
    → ℕ
    → ℕ
    → ℕ
    → TcpProvider
    → (TcpProvider → TcpProvider × Verdict)
    → Option (TcpProvider × Verdict)
reply env fuel socket flags w after =
    and_then (send env fuel socket [] flags w) (λ w'. some (after w'))

unfoldable pub on_syn :
    Environment → ℕ → TcpHeader → ℕ → ℕ → TcpProvider → Option (TcpProvider × Verdict)
on_syn env fuel tcp src_ip socket w =
    let q = w.sockets socket in
    let opened =
      reply env fuel socket (Flag.syn + Flag.ack)
        (set_socket w socket (record q {
          state = syn_received;
          remote_port = tcp.src_port;
          remote_ip = src_ip;
          ack_num = add32 tcp.seq_num 1;
          seq_num = 3203386110;
        }))
        (λ w'. (
          set_socket w' socket
              (record (w'.sockets socket) { seq_num = add32 (w'.sockets socket).seq_num 1 }),
          go_on false,
        )) in
    if same_state q.state listening then opened else some (w, go_on true)

unfoldable pub on_syn_ack :
    Environment → ℕ → TcpHeader → ℕ → TcpProvider → Option (TcpProvider × Verdict)
on_syn_ack env fuel tcp socket w =
    let q = w.sockets socket in
    let opened =
      reply env fuel socket Flag.ack
        (set_socket w socket (record q {
          state = established;
          ack_num = add32 tcp.seq_num 1;
          seq_num = add32 q.seq_num 1;
        }))
        (λ w'. (w', go_on false)) in
    if same_state q.state syn_sent then opened else some (w, go_on true)

unfoldable pub on_fin : Environment → ℕ → ℕ → TcpProvider → Option (TcpProvider × Verdict)
on_fin env fuel socket w =
    let q = w.sockets socket in
    let passive =
      and_then
        (send env fuel socket [] Flag.ack
          (set_socket w socket (record q { state = close_wait; ack_num = add32 q.ack_num 1 })))
        (λ w'. reply env fuel socket (Flag.fin + Flag.ack) w' (λ w2. (w2, go_on false))) in
    let active =
      reply env fuel socket Flag.ack
        (set_socket w socket (record q { state = closed; ack_num = add32 q.ack_num 1 }))
        (λ w'. (w', go_on false)) in
    if same_state q.state established
    then passive
    else if same_state q.state close_wait
    then some (set_state w socket closed, go_on false)
    else if same_state q.state fin_wait_1 || same_state q.state fin_wait_2
    then active
    else some (w, go_on true)

-- The `default` case: data for the handler of the socket.
unfoldable pub handle_tcp_message : Environment → ℕ → (ℕ → ℕ) → ℕ → TcpProvider → TcpProvider × Bool
handle_tcp_message env socket p size w = elim (w.sockets socket).handler [
  | some h ↦ env.on_tcp_message h socket p size w
  | none ↦ (w, false)
]

unfoldable pub on_data :
    Environment → ℕ → TcpHeader → ℕ → (ℕ → ℕ) → ℕ → TcpProvider → Option (TcpProvider × Verdict)
unfolding handle_tcp_message
on_data env fuel tcp socket payload size w =
    let length = sub32 size (tcp.data_offset * 4) in
    let r = handle_tcp_message env socket (λ i. payload (tcp.data_offset * 4 + i)) length w in
    let q = r.0.sockets socket in
    let answered =
      reply env fuel socket Flag.ack
        (set_socket (r.0) socket (record q { ack_num = add32 q.ack_num length }))
        (λ w'. (w', go_on false)) in
    if tcp.seq_num == (w.sockets socket).ack_num
    then (if r.1 then answered else some (r.0, go_on true))
    else some (w, go_on true)

unfoldable pub on_ack :
    Environment → ℕ → TcpHeader → ℕ → (ℕ → ℕ) → ℕ → TcpProvider → Option (TcpProvider × Verdict)
unfolding on_data
on_ack env fuel tcp socket payload size w =
    let q = w.sockets socket in
    let data_case = on_data env fuel tcp socket payload size w in
    if same_state q.state syn_received
    then some (set_state w socket established, leave)
    else if same_state q.state fin_wait_1
    then some (set_state w socket fin_wait_2, leave)
    else if same_state q.state close_wait
    then some (set_state w socket closed, go_on false)
    else if payload (tcp.data_offset * 4) == 0
    then some (w, go_on false)
    else data_case
