-- ===== src/Udp/Deliver.antt =====
-- src/net/udp.cpp: a listening socket takes its first peer, and from then on only that one.
use fox_os_kernel.Prelude.{
  ℕ, ◌+◌, ◌-◌, ◌≤◌, ◌<◌, ◌≡◌, refl, sym, ap, ◌∙◌, subst, ◌≢◌, ◌⊎◌, inl, inr, true, false, ◌||◌,
  Option, none, some, arith, ℕ_discrete, Option-cases, update, update_self, update_ne,
}
use fox_os_kernel.Net.{word16}
use fox_os_kernel.Slots.{Slots}
use fox_os_kernel.Udp.Binds.{
  OnMessage, Message, receive, hand_over, accepts, NoOther, IsBound, KeepsSockets, receive_accepted,
  receive_refused,
}
use fox_os_kernel.Udp.{
  UdpSocket, UdpBind, UdpProvider, broadcast, set_socket, is_opened_by, is_peer, open_for,
  handle_udp_message, deliver,
}

hand_over_keeps :
    (on_message : OnMessage) (socket : ℕ) (m : Message) (w : UdpProvider)
    → KeepsSockets on_message
    → ((hand_over on_message socket m w).sockets ≡ w.sockets)
      × ((hand_over on_message socket m w).binds ≡ w.binds)
unfolding handle_udp_message
hand_over_keeps on_message socket m w keeps =
    let branch : Option ℕ → UdpProvider = λ o. elim o [
      | some h ↦ on_message h socket (λ i. m.bytes (8 + i)) (m.size - 8) w
      | none ↦ w
    ] in
    let Kept : UdpProvider → Type 0 = λ v. (v.sockets ≡ w.sockets) × (v.binds ≡ w.binds) in
    elim (Option-cases (w.sockets socket).handler) [
      | inl e ↦ subst Kept (ap branch (sym e)) (refl, refl)
      | inr (h, e) ↦
          subst Kept (ap branch (sym e)) (keeps h socket (λ i. m.bytes (8 + i)) (m.size - 8) w)
    ]

deliver_opened :
    (on_message : OnMessage) (socket : ℕ) (m : Message) (w : UdpProvider)
    → is_opened_by m.dst_ip (word16 m.bytes 2) (w.sockets socket) ≡ true
    → deliver on_message m.src_ip m.dst_ip m.bytes m.size socket w
      ≡ hand_over on_message socket m
          (set_socket w socket (open_for m.src_ip (word16 m.bytes 0) (w.sockets socket)))
unfolding deliver
deliver_opened on_message socket m w e = rw e refl

deliver_other :
    (on_message : OnMessage) (socket : ℕ) (m : Message) (w : UdpProvider)
    → is_opened_by m.dst_ip (word16 m.bytes 2) (w.sockets socket) ≡ false
    → deliver on_message m.src_ip m.dst_ip m.bytes m.size socket w ≡ hand_over on_message socket m w
unfolding deliver
deliver_other on_message socket m w e = rw e refl

-- The second message has the source of the first.
abbrev pub SamePeer : Message → Message → Type 0
SamePeer m m' = (m'.src_ip ≡ m.src_ip) × (word16 m'.bytes 0 ≡ word16 m.bytes 0)

module _ (m m' : Message) (q : UdpSocket) where
  opened_listens_no_more :
      is_opened_by m'.dst_ip (word16 m'.bytes 2) (open_for m.src_ip (word16 m.bytes 0) q) ≡ false
  unfolding is_opened_by open_for
  opened_listens_no_more = ground arith

  peer_accepted : SamePeer m m' → accepts m' (open_for m.src_ip (word16 m.bytes 0) q) ≡ true
  unfolding is_opened_by open_for is_peer
  peer_accepted h = ground (arith, h.0, h.1)

  stranger_refused :
      ¬ SamePeer m m'
      → m.src_ip ≢ broadcast
      → m'.src_ip ≢ broadcast
      → m'.dst_ip ≢ broadcast
      → accepts m' (open_for m.src_ip (word16 m.bytes 0) q) ≡ false
  unfolding is_opened_by open_for is_peer
  stranger_refused ne a b c = elim (ℕ_discrete m'.src_ip m.src_ip) [
    | yes x ↦ elim (ℕ_discrete (word16 m'.bytes 0) (word16 m.bytes 0)) [
      | yes y ↦ absurd (ne (x, y))
      | no y ↦ ground arith
    ]
    | no x ↦ ground arith
  ]

NoOther-opened :
    (n : ℕ) (m' : Message) (w w1 : UdpProvider) (q : UdpSocket)
    → IsBound n w
    → w1.sockets ≡ update w.sockets (w.binds.nodes n).value.handler q
    → w1.binds ≡ w.binds
    → NoOther n m' w
    → NoOther n m' w1
NoOther-opened n m' w w1 q bound e b others =
    subst
      (λ (l : Slots UdpBind).
        (i : ℕ)
        → i < l.length
        → (l.nodes i).taken ≡ true
        → n ≢ i
        → accepts m' (w1.sockets (l.nodes i).value.handler) ≡ false)
      (sym b)
      (λ i lt taken d.
        ap (λ f. accepts m' (f (w.binds.nodes i).value.handler)) e
        ∙ ap (accepts m') (
            update_ne w.sockets (w.binds.nodes n).value.handler (w.binds.nodes i).value.handler q
              (bound.2 i lt taken d))
        ∙ others i lt taken d)

SamePeer-cases : (m m' : Message) → SamePeer m m' ⊎ (¬ SamePeer m m')
SamePeer-cases m m' = elim (ℕ_discrete m'.src_ip m.src_ip) [
  | no x ↦ inr (λ h. x (h.0))
  | yes x ↦ elim (ℕ_discrete (word16 m'.bytes 0) (word16 m.bytes 0)) [
    | no y ↦ inr (λ h. y (h.1))
    | yes y ↦ inl (x, y)
  ]
]

-- What the second message comes to.
abbrev pub Second : OnMessage → Message → Message → UdpProvider → ℕ → Type 0
Second on_message m m' w1 socket =
    (SamePeer m m' × (receive on_message m' w1 ≡ hand_over on_message socket m' w1))
    ⊎ ((¬ SamePeer m m') × (receive on_message m' w1 ≡ w1))

second_lem :
    (on_message : OnMessage) (n : ℕ) (m m' : Message) (w1 : UdpProvider) (before : UdpSocket)
    → IsBound n w1
    → 8 ≤ m'.size
    → m.src_ip ≢ broadcast
    → m'.src_ip ≢ broadcast
    → m'.dst_ip ≢ broadcast
    → NoOther n m' w1
    → w1.sockets (w1.binds.nodes n).value.handler ≡ open_for m.src_ip (word16 m.bytes 0) before
    → Second on_message m m' w1 (w1.binds.nodes n).value.handler
second_lem on_message n m m' w1 before bound long a b c others at = elim (SamePeer-cases m m') [
  | inl same ↦ inl (
    same,
    receive_accepted on_message m' n w1 bound long others
          (ap (accepts m') at ∙ peer_accepted m m' before same)
        ∙ deliver_other on_message (w1.binds.nodes n).value.handler m' w1 (
            ap (is_opened_by m'.dst_ip (word16 m'.bytes 2)) at
            ∙ opened_listens_no_more m m' before),
  )
  | inr other ↦ inr (
    other,
    receive_refused on_message m' n w1 bound long others
        (ap (accepts m') at ∙ stranger_refused m m' before other a b c),
  )
]

-- A bind whose socket listens where the first message goes, both messages having the eight bytes of
-- a header, no address being the broadcast address but perhaps the destination of the first, no
-- other bind having the socket or accepting one of the messages, and a message handler that changes
-- no socket and no bind: the first message opens the socket for its source and is handed over. The
-- second is handed over to the socket as well when it comes from that source, and changes nothing when
-- it comes from another address or port.
pub two_messages :
    (on_message : OnMessage) (n : ℕ) (m m' : Message) (w : UdpProvider)
    → KeepsSockets on_message
    → IsBound n w
    → 8 ≤ m.size
    → 8 ≤ m'.size
    → m.src_ip ≢ broadcast
    → m'.src_ip ≢ broadcast
    → m'.dst_ip ≢ broadcast
    → NoOther n m w
    → NoOther n m' w
    → is_opened_by m.dst_ip (word16 m.bytes 2) (w.sockets (w.binds.nodes n).value.handler) ≡ true
    → let socket = (w.binds.nodes n).value.handler in
      let opened = set_socket w socket (open_for m.src_ip (word16 m.bytes 0) (w.sockets socket)) in
      let w1 = receive on_message m w in
      (w1 ≡ hand_over on_message socket m opened)
      × ((SamePeer m m' × (receive on_message m' w1 ≡ hand_over on_message socket m' w1))
          ⊎ ((¬ SamePeer m m') × (receive on_message m' w1 ≡ w1)))
two_messages on_message n m m' w keeps bound long long' a b c others others' listens =
    let socket = (w.binds.nodes n).value.handler in
    let q = open_for m.src_ip (word16 m.bytes 0) (w.sockets socket) in
    let w1 = receive on_message m w in
    let first =
      receive_accepted on_message m n w bound long others
        (ap (λ x. x || is_peer m.src_ip m.dst_ip (word16 m.bytes 0) (w.sockets socket)) listens)
      ∙ deliver_opened on_message socket m w listens in
    let kept = hand_over_keeps on_message socket m (set_socket w socket q) keeps in
    let sockets : w1.sockets ≡ update w.sockets socket q = ap (λ v. v.sockets) first ∙ kept.0 in
    let binds : w1.binds ≡ w.binds = ap (λ v. v.binds) first ∙ kept.1 in
    let Bound : Slots UdpBind → Type 0 = λ l. IsBound n (record w1 { binds = l }) in
    let same : (w1.binds.nodes n).value.handler ≡ socket =
      ap (λ (l : Slots UdpBind). (l.nodes n).value.handler) binds in
    (
      first,
      subst (Second on_message m m' w1) same (
          second_lem on_message n m m' w1 (w.sockets socket) (subst Bound (sym binds) bound) long' a
            b c (NoOther-opened n m' w w1 q bound sockets binds others')
            (ap w1.sockets same ∙ ap (λ f. f socket) sockets ∙ update_self w.sockets socket q)),
    )
