-- ===== src/Udp/Binds.antt =====
-- src/net/udp.cpp: which bind a message is for.
use fox_os_kernel.Prelude.{
  ℕ, ◌+◌, ◌-◌, ◌≤◌, ◌<◌, ◌≡◌, refl, sym, ap, ◌≢◌, Bool, true, false, ◌||◌, Option, none, some,
  arith, ℕ_discrete, le→ltb,
}
use fox_os_kernel.Net.{word16}
use fox_os_kernel.Slots.{Slots}
use fox_os_kernel.Slots.Search.{IsFirst, find-IsFirst}
use fox_os_kernel.Udp.{
  UdpSocket, UdpBind, UdpProvider, is_opened_by, is_peer, handle_udp_message, deliver,
  on_internet_protocol_received,
}

abbrev pub OnMessage : Type 0
OnMessage = ℕ → ℕ → (ℕ → ℕ) → ℕ → UdpProvider → UdpProvider

-- A message with its addresses.
pub record Message : Type 0 where
  pub src_ip : ℕ
  pub dst_ip : ℕ
  pub bytes : ℕ → ℕ
  pub size : ℕ

abbrev pub receive : OnMessage → Message → UdpProvider → UdpProvider
receive on_message m w = on_internet_protocol_received on_message m.src_ip m.dst_ip m.bytes m.size w

-- The socket gets what is behind the header.
abbrev pub hand_over : OnMessage → ℕ → Message → UdpProvider → UdpProvider
hand_over on_message socket m w =
    handle_udp_message on_message socket (λ i. m.bytes (8 + i)) (m.size - 8) w

abbrev pub accepts : Message → UdpSocket → Bool
accepts m q =
    is_opened_by m.dst_ip (word16 m.bytes 2) q || is_peer m.src_ip m.dst_ip (word16 m.bytes 0) q

-- No bind but the one at `n` is for the message.
abbrev pub NoOther : ℕ → Message → UdpProvider → Type 0
NoOther n m w =
    (i : ℕ)
    → i < w.binds.length
    → (w.binds.nodes i).taken ≡ true
    → n ≢ i
    → accepts m (w.sockets (w.binds.nodes i).value.handler) ≡ false

-- The bind at `n` is in the list, and no other one has its socket.
abbrev pub IsBound : ℕ → UdpProvider → Type 0
IsBound n w =
    (n < w.binds.length)
    × ((w.binds.nodes n).taken ≡ true)
    × ((i : ℕ)
        → i < w.binds.length
        → (w.binds.nodes i).taken ≡ true
        → n ≢ i
        → (w.binds.nodes n).value.handler ≢ (w.binds.nodes i).value.handler)

-- A handler that changes no socket and no bind.
abbrev pub KeepsSockets : OnMessage → Type 0
KeepsSockets on_message =
    (h socket : ℕ) (p : ℕ → ℕ) (size : ℕ) (w : UdpProvider)
    → ((on_message h socket p size w).sockets ≡ w.sockets)
      × ((on_message h socket p size w).binds ≡ w.binds)

module _ (f : UdpBind → Bool) (l : Slots UdpBind) (n : ℕ) (lt : n < l.length)
    (taken : (l.nodes n).taken ≡ true)
    (others : (i : ℕ)
      → i < l.length
      → (l.nodes i).taken ≡ true
      → n ≢ i
      → f (l.nodes i).value ≡ false) where
  find_only :
      f (l.nodes n).value ≡ true → (o : Option ℕ) → IsFirst f l.nodes 0 l.length o → o ≡ some n
  find_only e none h = absurd (ground (arith, h n (omega arith) (omega arith)))
  find_only e (some x) h = elim (ℕ_discrete n x) [
    | yes q ↦ ap some (sym q)
    | no q ↦ absurd (ground (arith, others x (omega arith) h.2 q, h.3))
  ]

  find_none :
      f (l.nodes n).value ≡ false → (o : Option ℕ) → IsFirst f l.nodes 0 l.length o → o ≡ none
  find_none e none h = refl
  find_none e (some x) h = elim (ℕ_discrete n x) [
    | yes q ↦ absurd (ground (arith, ap (λ i. f (l.nodes i).value) q, h.3))
    | no q ↦ absurd (ground (arith, others x (omega arith) h.2 q, h.3))
  ]

module _ (on_message : OnMessage) (m : Message) (n : ℕ) (w : UdpProvider) (bound : IsBound n w)
    (long : 8 ≤ m.size) (others : NoOther n m w) where
  pub receive_accepted :
      accepts m (w.sockets (w.binds.nodes n).value.handler) ≡ true
      → receive on_message m w
        ≡ deliver on_message m.src_ip m.dst_ip m.bytes m.size (w.binds.nodes n).value.handler w
  unfolding on_internet_protocol_received
  receive_accepted e =
      let f : UdpBind → Bool = λ b. accepts m (w.sockets b.handler) in
      let found = find_only f w.binds n bound.0 bound.1 others e _ (find-IsFirst f w.binds) in
      rw (found, le→ltb m.size 8 long) refl

  pub receive_refused :
      accepts m (w.sockets (w.binds.nodes n).value.handler) ≡ false → receive on_message m w ≡ w
  unfolding on_internet_protocol_received
  receive_refused e =
      let f : UdpBind → Bool = λ b. accepts m (w.sockets b.handler) in
      let found = find_none f w.binds n bound.0 bound.1 others e _ (find-IsFirst f w.binds) in
      rw (found, le→ltb m.size 8 long) refl
