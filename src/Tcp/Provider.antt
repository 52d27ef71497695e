-- ===== src/Tcp/Provider.antt =====
-- src/net/tcp.cpp: `onInternetProtocolReceived`, and `connect`, `listen`, `disconnect` and `bind`. The
-- pointer that `new` gives is an argument, and with it what its memory holds.
use fox_os_kernel.Prelude.{
  ℕ, ◌+◌, ◌%◌, bit_and, true, false, ◌||◌, Option, none, some, [], ltb, ◌==◌, if◌then◌else◌,
}
use fox_os_kernel.Net.{add32, and_then, bswap16}
use fox_os_kernel.Slots.{find, add, remove, create}
use fox_os_kernel.Tcp.Flag
use fox_os_kernel.Tcp.{
  closed, listening, syn_sent, fin_wait_1, same_state, TcpSocket, TcpBind, TcpHeader, TcpProvider,
  Environment, set_socket, set_state, read_header,
}
use fox_os_kernel.Tcp.Send.{send, cleared_packet}
use fox_os_kernel.Tcp.Receive.{
  Verdict, leave, go_on, is_for, acknowledge, on_syn, on_syn_ack, on_fin, on_ack, on_data,
}

-- `switch((tcp->flags) & (TcpFlag::SYN | TcpFlag::ACK | TcpFlag::FIN))`
unfoldable pub dispatch :
    Environment → ℕ → TcpHeader → ℕ → ℕ → (ℕ → ℕ) → ℕ → TcpProvider → Option (TcpProvider × Verdict)
unfolding on_syn on_syn_ack on_fin on_ack on_data
dispatch env fuel tcp src_ip socket payload size w =
    let kind = bit_and tcp.flags 19 in
    if kind == Flag.syn
    then on_syn env fuel tcp src_ip socket w
    else if kind == Flag.syn + Flag.ack
    then on_syn_ack env fuel tcp socket w
    else if kind == Flag.syn + Flag.fin || kind == 19
    then some (w, go_on true)
    else if kind == Flag.fin || kind == Flag.fin + Flag.ack
    then on_fin env fuel socket w
    else if kind == Flag.ack
    then on_ack env fuel tcp socket payload size w
    else on_data env fuel tcp socket payload size w

abbrev pub cleared_bind : TcpBind
cleared_bind = record { port = 0; handler = 0 }

-- The socket's bind is searched once more, and removed; a search without a result would be a null
-- pointer that is used.
unfoldable pub release : ℕ → TcpProvider → Option TcpProvider
unfolding find remove
release socket w =
    and_then (find (λ b. socket == b.handler) w.binds)
      (λ n. some (record w { binds = remove cleared_bind n w.binds }))

-- What follows the `switch`.
unfoldable pub conclude : Environment → ℕ → ℕ → TcpProvider → Verdict → Option TcpProvider
unfolding release
conclude env fuel socket w leave = some w
conclude env fuel socket w (go_on true) = send env fuel socket [] Flag.rst w
conclude env fuel socket w (go_on false) =
    let released = release socket w in
    if same_state (w.sockets socket).state closed then released else some w

-- A segment for a socket that the search found.
unfoldable pub deliver :
    Environment → ℕ → TcpHeader → ℕ → ℕ → (ℕ → ℕ) → ℕ → TcpProvider → Option TcpProvider
unfolding acknowledge dispatch conclude
deliver env fuel tcp src_ip socket payload size w =
    let w1 = if bit_and tcp.flags Flag.rst == 0 then w else set_state w socket closed in
    let a = acknowledge tcp socket w1 in
    let reset = conclude env fuel socket a.0 (go_on true) in
    let handled =
      and_then (dispatch env fuel tcp src_ip socket payload size a.0)
        (λ r. conclude env fuel socket r.0 r.1) in
    if same_state (w1.sockets socket).state closed
    then conclude env fuel socket w1 (go_on false)
    else (if a.1 then reset else handled)

unfoldable pub on_internet_protocol_received :
    Environment → ℕ → ℕ → ℕ → (ℕ → ℕ) → ℕ → TcpProvider → Option TcpProvider
unfolding read_header is_for deliver find
on_internet_protocol_received env fuel src_ip dst_ip payload size w =
    let tcp = read_header payload in
    let found : Option TcpProvider = elim (find (is_for w src_ip dst_ip tcp) w.binds) [
      | none ↦ some w
      | some n ↦ deliver env fuel tcp src_ip (w.binds.nodes n).value.handler payload size w
    ] in
    if ltb size 20 then some w else found

-- `new TcpSocket(this)`: the other fields, and the nodes behind the first, keep what the memory holds.
unfoldable pub new_socket : TcpSocket → TcpSocket
unfolding create
new_socket memory = record memory {
  state = closed;
  handler = none;
  acknowledged = create 8 12 1 cleared_packet memory.acknowledged.nodes;
}

-- `connect(ip, port)`, with the new socket at the pointer `socket`.
unfoldable pub connect : Environment → ℕ → ℕ → ℕ → ℕ → TcpProvider → Option TcpProvider
unfolding new_socket bswap16 add
connect env fuel socket ip port w =
    let q = record (new_socket (w.sockets socket)) {
      remote_ip = ip;
      remote_port = bswap16 port;
      local_port = bswap16 (w.free_port % 65536);
      local_ip = w.ip;
    } in
    and_then (add 24 fuel (record { port = q.local_port; handler = socket }) w.binds) (λ r.
      send env fuel socket [] Flag.syn (
        set_socket (record w { binds = r.1; free_port = w.free_port + 1 }) socket
          (record q { state = syn_sent; seq_num = 3203386110 })))

unfoldable pub listen : ℕ → ℕ → ℕ → TcpProvider → Option TcpProvider
unfolding new_socket bswap16 add
listen fuel socket port w =
    let q = record (new_socket (w.sockets socket)) {
      local_port = bswap16 port;
      local_ip = w.ip;
      state = listening;
    } in
    and_then (add 24 fuel (record { port = q.local_port; handler = socket }) w.binds)
      (λ r. some (set_socket (record w { binds = r.1 }) socket q))

unfoldable pub bind : ℕ → ℕ → TcpProvider → TcpProvider
bind socket handler w = set_socket w socket (record (w.sockets socket) { handler = some handler })

unfoldable pub disconnect : Environment → ℕ → ℕ → TcpProvider → Option TcpProvider
disconnect env fuel socket w =
    and_then (send env fuel socket [] (Flag.fin + Flag.ack) (set_state w socket fin_wait_1)) (λ w'.
      some (
        set_socket w' socket
          (record (w'.sockets socket) { seq_num = add32 (w'.sockets socket).seq_num 1 })))
