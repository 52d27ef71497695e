-- ===== src/Tcp/Sends.antt =====
-- src/net/tcp.cpp: what a provider has sent from a socket.
use fox_os_kernel.Prelude.{
  ℕ, ◌^◌, ◌<◌, ◌≡◌, refl, sym, ap, ap₂, ◌∙◌, subst, ◌≢◌, List, [], ◌∷◌, ◌++◌, map, append_assoc,
  arith, update, update_self, update_ne,
}
use fox_os_kernel.Net.{add32}
use fox_os_kernel.Slots.{remove}
use fox_os_kernel.Arp.{get_mac_from_cache}
use fox_os_kernel.Ipv4.Provider.{packet, route}
use fox_os_kernel.Tcp.{
  header_bytes, pseudo_header_bytes, TcpSocket, TcpProvider, Environment, Frame,
}
use fox_os_kernel.Tcp.Send.{cleared_packet, segment, forget}
use fox_os_kernel.Tcp.Quiet.{frame, after_send}

-- The packets that wait for an acknowledgement aside, `q` and `q'` are the same socket.
abbrev pub SameSocket : TcpSocket → TcpSocket → Type 0
SameSocket q q' =
    (q.state ≡ q'.state)
    × (q.remote_port ≡ q'.remote_port)
    × (q.remote_ip ≡ q'.remote_ip)
    × (q.local_port ≡ q'.local_port)
    × (q.local_ip ≡ q'.local_ip)
    × (q.seq_num ≡ q'.seq_num)
    × (q.ack_num ≡ q'.ack_num)
    × (q.handler ≡ q'.handler)

-- `w'` is `w` after these segments went out from the socket, each in a packet to its peer and a frame
-- to the address that the cache of ARP has for the next hop.
abbrev pub Sends : Environment → ℕ → List (List ℕ) → TcpProvider → TcpProvider → Type 0
Sends env socket segments w w' =
    SameSocket (w'.sockets socket) (w.sockets socket)
    × (w'.sent ≡ w.sent ++ map (frame env (w.sockets socket).remote_ip w) segments)
    × ((other : ℕ) → socket ≢ other → w'.sockets other ≡ w.sockets other)
    × (w'.binds ≡ w.binds)
    × (w'.arp ≡ w.arp)

abbrev forget_packet : ℕ → TcpSocket → TcpSocket
forget_packet stray q = record q { acknowledged = remove cleared_packet stray q.acknowledged }

after_send_socket :
    (env : Environment) (socket flags : ℕ) (w : TcpProvider)
    → (after_send env socket [] flags w).sockets socket
      ≡ forget_packet env.stray
          (record (w.sockets socket) { seq_num = add32 (w.sockets socket).seq_num 0 })
unfolding forget
after_send_socket env socket flags w =
    let q = record (w.sockets socket) { seq_num = add32 (w.sockets socket).seq_num 0 } in
    update_self (update w.sockets socket q) socket
      (forget_packet env.stray (update w.sockets socket q socket))
    ∙ ap (forget_packet env.stray) (update_self w.sockets socket q)

after_send_sent :
    (env : Environment) (socket flags : ℕ) (w : TcpProvider)
    → (after_send env socket [] flags w).sent
      ≡ w.sent
        ++ frame env (w.sockets socket).remote_ip w (segment (w.sockets socket) [] flags) ∷ []
unfolding forget
after_send_sent env socket flags w =
    let q = record (w.sockets socket) { seq_num = add32 (w.sockets socket).seq_num 0 } in
    ap
      (λ (k : TcpSocket).
        w.sent ++ frame env k.remote_ip w (segment (w.sockets socket) [] flags) ∷ [])
      (update_self w.sockets socket q)

after_send_other :
    (env : Environment) (socket flags : ℕ) (w : TcpProvider) (other : ℕ)
    → socket ≢ other
    → (after_send env socket [] flags w).sockets other ≡ w.sockets other
unfolding forget
after_send_other env socket flags w other h =
    let q = record (w.sockets socket) { seq_num = add32 (w.sockets socket).seq_num 0 } in
    update_ne (update w.sockets socket q) socket other
      (forget_packet env.stray (update w.sockets socket q socket)) h
    ∙ update_ne w.sockets socket other q h

pub after_send-Sends :
    (env : Environment) (socket flags : ℕ) (w : TcpProvider)
    → (w.sockets socket).seq_num < 2 ^ 32
    → Sends env socket
        (segment (w.sockets socket) [] flags ∷ [])
        w
        (after_send env socket [] flags w)
unfolding forget
after_send-Sends env socket flags w lt = (
  subst (λ k. SameSocket k (w.sockets socket)) (sym (after_send_socket env socket flags w))
      (refl, refl, refl, refl, refl, omega arith, refl, refl),
  after_send_sent env socket flags w,
  after_send_other env socket flags w,
  refl,
  refl,
)

segment_same :
    (q q' : TcpSocket) (flags : ℕ) → SameSocket q q' → segment q [] flags ≡ segment q' [] flags
unfolding segment header_bytes pseudo_header_bytes
segment_same q q' flags h = rw (h.1, h.3, h.4, h.5, h.6, h.2) refl

SameSocket-trans : (q q' q'' : TcpSocket) → SameSocket q q' → SameSocket q' q'' → SameSocket q q''
SameSocket-trans q q' q'' h k =
    (h.0 ∙ k.0, h.1 ∙ k.1, h.2 ∙ k.2, h.3 ∙ k.3, h.4 ∙ k.4, h.5 ∙ k.5, h.6 ∙ k.6, h.7 ∙ k.7)

frame_same :
    (env : Environment) (ip ip' : ℕ) (w w' : TcpProvider) (s s' : List ℕ)
    → ip ≡ ip'
    → w.arp ≡ w'.arp
    → s ≡ s'
    → frame env ip w s ≡ frame env ip' w' s'
frame_same env ip ip' w w' s s' e a l =
    ap
      (λ c. record {
        dest_mac = get_mac_from_cache c (route env.ipv4 ip);
        packet = packet env.ipv4 ip 6 s;
      })
      a
    ∙ ap₂ (λ i t. frame env i w' t) e l

-- One segment, and then another one.
pub Sends-two :
    (env : Environment) (socket flags : ℕ) (s : List ℕ) (w w1 w2 : TcpProvider)
    → Sends env socket (s ∷ []) w w1
    → Sends env socket (segment (w1.sockets socket) [] flags ∷ []) w1 w2
    → Sends env socket (s ∷ segment (w.sockets socket) [] flags ∷ []) w w2
Sends-two env socket flags s w w1 w2 h k = (
  SameSocket-trans (w2.sockets socket) (w1.sockets socket) (w.sockets socket) k.0 h.0,
  k.1
      ∙ ap₂ (λ a (b : Frame). a ++ b ∷ []) h.1
          (frame_same env _ _ w1 w _ _ h.0.2 h.4
            (segment_same (w1.sockets socket) (w.sockets socket) flags h.0))
      ∙ append_assoc w.sent _ _,
  λ other d. k.2 other d ∙ h.2 other d,
  k.3 ∙ h.3,
  k.4 ∙ h.4,
)
