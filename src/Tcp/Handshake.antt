-- ===== src/Tcp/Handshake.antt =====
-- src/net/tcp.cpp: what the segments that open and close a connection do.
use fox_os_kernel.Prelude.{
  ℕ, suc, ◌+◌, ◌^◌, ◌<◌, bit_and, ◌≡◌, refl, sym, ap, ◌∙◌, subst, ◌≢◌, true, false, some, [], ◌∷◌,
  arith, ◌==◌, if◌then◌else◌, ne→==, update_self,
}
use fox_os_kernel.Net.{add32, and_then}
use fox_os_kernel.Slots.{remove}
use fox_os_kernel.Tcp.Flag
use fox_os_kernel.Tcp.{
  syn_sent, established, close_wait, same_state, TcpSocket, TcpHeader, TcpProvider, Environment,
  set_state, set_socket, closed,
}
use fox_os_kernel.Tcp.Send.{expects_ack, segment, send, forget}
use fox_os_kernel.Tcp.Receive.{go_on, on_syn_ack, on_fin}
use fox_os_kernel.Tcp.Sends.{Sends, after_send-Sends, Sends-two}
use fox_os_kernel.Slots.{find, remove}
use fox_os_kernel.Tcp.Provider.{deliver, conclude, release, cleared_bind}
use fox_os_kernel.Tcp.Quiet.{Knows, after_send, send_quiet}

-- A socket that answers the peer's SYN and ACK.
abbrev pub opened : TcpHeader → ℕ → TcpProvider → TcpProvider
opened tcp socket w = set_socket w socket (record (w.sockets socket) {
  state = established;
  ack_num = add32 tcp.seq_num 1;
  seq_num = add32 (w.sockets socket).seq_num 1;
})

quiet_socket :
    (env : Environment) (fuel socket flags : ℕ) (w : TcpProvider) (q : TcpSocket)
    → expects_ack flags ≡ false
    → same_state q.state syn_sent ≡ false
    → Knows env q.remote_ip w
    → send env (suc fuel) socket [] flags (set_socket w socket q)
      ≡ some (after_send env socket [] flags (set_socket w socket q))
quiet_socket env fuel socket flags w q e s known =
    send_quiet env fuel socket [] flags (set_socket w socket q) e
      (ap (λ (k : TcpSocket). same_state k.state syn_sent) (update_self w.sockets socket q) ∙ s)
      (subst (λ (k : TcpSocket). Knows env k.remote_ip w) (sym (update_self w.sockets socket q))
        known)

on_syn_ack-opened :
    (env : Environment) (fuel : ℕ) (tcp : TcpHeader) (socket : ℕ) (w : TcpProvider)
    → (w.sockets socket).state ≡ syn_sent
    → on_syn_ack env fuel tcp socket w
      ≡ and_then
          (send env fuel socket [] Flag.ack (opened tcp socket w))
          (λ w'. some (w', go_on false))
unfolding on_syn_ack
on_syn_ack-opened env fuel tcp socket w e =
    ap
      (λ st.
        if same_state st syn_sent
        then and_then (send env fuel socket [] Flag.ack (opened tcp socket w))
            (λ w'. some (w', go_on false))
        else some (w, go_on true))
      e

-- The segment with SYN and ACK for a socket in SYN_SENT. The next hop to its peer is not the
-- broadcast address, and the cache of ARP has a hardware address for it, not the broadcast one: with
-- any fuel but 0 the handler ends, the socket is established and counts the peer's SYN and its own,
-- and one segment with ACK goes out in a frame to that hardware address. No wait takes place, and no
-- other socket changes.
pub syn_ack-Sends :
    (env : Environment) (fuel : ℕ) (tcp : TcpHeader) (socket : ℕ) (w : TcpProvider)
    → (w.sockets socket).state ≡ syn_sent
    → Knows env (w.sockets socket).remote_ip w
    → (w' : TcpProvider) × (on_syn_ack env (suc fuel) tcp socket w ≡ some (w', go_on false))
      × Sends env socket
          (segment ((opened tcp socket w).sockets socket) [] Flag.ack ∷ [])
          (opened tcp socket w)
          w'
syn_ack-Sends env fuel tcp socket w e known =
    let q = record (w.sockets socket) {
      state = established;
      ack_num = add32 tcp.seq_num 1;
      seq_num = add32 (w.sockets socket).seq_num 1;
    } in
    (
      after_send env socket [] Flag.ack (opened tcp socket w),
      on_syn_ack-opened env (suc fuel) tcp socket w e
          ∙ ap (λ o. and_then o (λ w'. some (w', go_on false)))
              (quiet_socket env fuel socket Flag.ack w q refl refl known),
      after_send-Sends env socket Flag.ack (opened tcp socket w) (
          subst (λ (k : TcpSocket). k.seq_num < 2 ^ 32) (sym (update_self w.sockets socket q))
            (omega arith)),
    )

-- A socket that answers the peer's FIN.
abbrev pub half_closed : ℕ → TcpProvider → TcpProvider
half_closed socket w =
    set_socket w socket (record (w.sockets socket) {
      state = close_wait;
      ack_num = add32 (w.sockets socket).ack_num 1;
    })

on_fin-half_closed :
    (env : Environment) (fuel socket : ℕ) (w : TcpProvider)
    → (w.sockets socket).state ≡ established
    → on_fin env fuel socket w
      ≡ and_then (send env fuel socket [] Flag.ack (half_closed socket w)) (λ w1.
        and_then (send env fuel socket [] (Flag.fin + Flag.ack) w1) (λ w'. some (w', go_on false)))
unfolding on_fin
on_fin-half_closed env fuel socket w e = rw e refl

-- The peer's FIN for an established socket whose sequence number has 32 bits. The next hop to its
-- peer is not the broadcast address, and the cache of ARP has a hardware address for it, not the
-- broadcast one: with any fuel but 0 the handler ends, the socket is in CLOSE_WAIT and counts the FIN,
-- and two segments go out in frames to that hardware address, one with ACK and one with FIN and ACK.
-- No wait takes place, and no other socket changes.
pub fin-Sends :
    (env : Environment) (fuel socket : ℕ) (w : TcpProvider)
    → (w.sockets socket).state ≡ established
    → (w.sockets socket).seq_num < 2 ^ 32
    → Knows env (w.sockets socket).remote_ip w
    → (w' : TcpProvider) × (on_fin env (suc fuel) socket w ≡ some (w', go_on false))
      × Sends env socket
          (segment ((half_closed socket w).sockets socket) [] Flag.ack
            ∷ segment ((half_closed socket w).sockets socket) [] (Flag.fin + Flag.ack)
            ∷ [])
          (half_closed socket w)
          w'
unfolding forget
fin-Sends env fuel socket w e lt known =
    let q = record (w.sockets socket) {
      state = close_wait;
      ack_num = add32 (w.sockets socket).ack_num 1;
    } in
    let w1 = after_send env socket [] Flag.ack (half_closed socket w) in
    let h1 =
      after_send-Sends env socket Flag.ack (half_closed socket w)
        (subst (λ (k : TcpSocket). k.seq_num < 2 ^ 32) (sym (update_self w.sockets socket q)) lt) in
    let same = ap (λ (k : TcpSocket). k.state) (update_self w.sockets socket q) in
    (
      after_send env socket [] (Flag.fin + Flag.ack) w1,
      on_fin-half_closed env (suc fuel) socket w e
          ∙ ap
              (λ o. and_then o (λ w1.
                and_then (send env (suc fuel) socket [] (Flag.fin + Flag.ack) w1)
                  (λ w'. some (w', go_on false))))
              (quiet_socket env fuel socket Flag.ack w q refl refl known)
          ∙ ap (λ o. and_then o (λ w'. some (w', go_on false)))
              (send_quiet env fuel socket [] (Flag.fin + Flag.ack) w1 refl
                (ap (λ st. same_state st syn_sent) (h1.0.0 ∙ same))
                (subst (λ a. Knows env a w)
                  (sym
                    (h1.0.2 ∙ ap (λ (k : TcpSocket). k.remote_ip) (update_self w.sockets socket q)))
                  known)),
      Sends-two env socket (Flag.fin + Flag.ack) _ (half_closed socket w) w1
          (after_send env socket [] (Flag.fin + Flag.ack) w1) h1
          (after_send-Sends env socket (Flag.fin + Flag.ack) w1 (
            subst (λ k. k < 2 ^ 32)
              (sym (h1.0.5 ∙ ap (λ (k : TcpSocket). k.seq_num) (update_self w.sockets socket q)))
              lt)),
    )

-- A segment with RST for a socket whose bind the list holds at `n`: the socket is closed, the bind
-- at `n` is taken off the list, and nothing is sent.
pub deliver-release :
    (env : Environment) (fuel : ℕ) (tcp : TcpHeader) (src_ip socket : ℕ) (payload : ℕ → ℕ)
    (size n : ℕ) (w : TcpProvider)
    → bit_and tcp.flags Flag.rst ≢ 0
    → find (λ b. socket == b.handler) w.binds ≡ some n
    → deliver env fuel tcp src_ip socket payload size w
      ≡ some (record (set_state w socket closed) { binds = remove cleared_bind n w.binds })
unfolding deliver conclude release
deliver-release env fuel tcp src_ip socket payload size n w r e =
    let shut =
      ap (λ (k : TcpSocket). same_state k.state closed)
        (update_self w.sockets socket (record (w.sockets socket) { state = closed })) in
    rw (ne→== (bit_and tcp.flags Flag.rst) 0 r, shut, e) refl
