-- ===== src/Tcp/Quiet.antt =====
-- src/net/tcp.cpp: the segments that are sent without a wait.
use fox_os_kernel.Prelude.{
  ℕ, suc, ◌≡◌, refl, sym, ap, ◌∙◌, subst, ◌≢◌, false, some, List, [], ◌∷◌, ◌++◌, length,
  update_self,
}
use fox_os_kernel.Net.{add32}
use fox_os_kernel.Arp.{broadcast_address, get_mac_from_cache}
use fox_os_kernel.Arp.Cache.{resolve-cached}
use fox_os_kernel.Ipv4.Provider.{packet, route}
use fox_os_kernel.Ipv4.Provider
use fox_os_kernel.Tcp.{TcpSocket, syn_sent, same_state, Frame, TcpProvider, Environment, set_socket}
use fox_os_kernel.Tcp.Send.{
  expects_ack, send, segment, send_f, transmit, forget, remember, await_ack, await_open,
}

-- The next hop towards `ip` is not the broadcast address, and the cache has a hardware address for
-- it that is not the broadcast one.
abbrev pub Knows : Environment → ℕ → TcpProvider → Type 0
Knows env ip w =
    (route env.ipv4 ip ≢ 4294967295)
    × (get_mac_from_cache w.arp (route env.ipv4 ip) ≢ broadcast_address)

-- The frame of a segment to `ip`, where the cache has the address of the next hop.
abbrev pub frame : Environment → ℕ → TcpProvider → List ℕ → Frame
frame env ip w s = record {
  dest_mac = get_mac_from_cache w.arp (route env.ipv4 ip);
  packet = packet env.ipv4 ip 6 s;
}

abbrev pub transmitted : Environment → ℕ → List ℕ → TcpProvider → TcpProvider
transmitted env socket s w = record w {
  sent = w.sent ++ frame env (w.sockets socket).remote_ip w s ∷ [];
}

transmit_known :
    (env : Environment) (socket : ℕ) (s : List ℕ) (w : TcpProvider)
    → Knows env (w.sockets socket).remote_ip w
    → transmit env socket s w ≡ transmitted env socket s w
unfolding transmit Provider.send
transmit_known env socket s w h =
    let ip = (w.sockets socket).remote_ip in
    ap (λ (r : ℕ × TcpProvider). send_f (r.0) (packet env.ipv4 ip 6 s) (r.1))
      (resolve-cached (λ (v : TcpProvider). v.arp) (λ a v. record v { arp = a }) env.arp_sleep
        (route env.ipv4 ip) w h.0 h.1)

-- The provider after `payload` went out from the socket with these flags.
abbrev pub after_send : Environment → ℕ → List ℕ → ℕ → TcpProvider → TcpProvider
after_send env socket payload flags w =
    let q = w.sockets socket in
    forget socket env.stray (
      transmitted env socket (segment q payload flags)
        (set_socket w socket (record q { seq_num = add32 q.seq_num (length payload) })))

remember_lem :
    (env : Environment) (fuel : ℕ) (payload : List ℕ) (flags : ℕ) (q : TcpSocket)
    → expects_ack flags ≡ false
    → remember env fuel payload flags q ≡ some (env.stray, q)
unfolding remember
remember_lem env fuel payload flags q e = rw e refl

await_ack_lem :
    (env : Environment) (flags socket node : ℕ) (w : TcpProvider)
    → expects_ack flags ≡ false
    → await_ack env flags socket node w ≡ (w, false)
unfolding await_ack
await_ack_lem env flags socket node w e = rw e refl

await_open_lem :
    (env : Environment) (socket node : ℕ) (w : TcpProvider)
    → same_state (w.sockets socket).state syn_sent ≡ false
    → await_open env socket node w ≡ (w, false)
unfolding await_open
await_open_lem env socket node w e = rw e refl

-- Flags that no acknowledgement is expected for, a socket that is not in SYN_SENT, and a next hop
-- that the cache of ARP has the address of: with any fuel but 0 `send` returns without a wait, one
-- frame more has gone out, and the packet that is taken off the list of unacknowledged ones is the one that an uninitialised pointer gives.
pub send_quiet :
    (env : Environment) (fuel socket : ℕ) (payload : List ℕ) (flags : ℕ) (w : TcpProvider)
    → expects_ack flags ≡ false
    → same_state (w.sockets socket).state syn_sent ≡ false
    → Knows env (w.sockets socket).remote_ip w
    → send env (suc fuel) socket payload flags w ≡ some (after_send env socket payload flags w)
unfolding send
send_quiet env fuel socket payload flags w e s known =
    let q = w.sockets socket in
    let q' = record q { seq_num = add32 q.seq_num (length payload) } in
    let w1 = transmitted env socket (segment q payload flags) (set_socket w socket q') in
    rw
      (
        remember_lem env fuel payload flags q' e,
        transmit_known env socket (segment q payload flags) (set_socket w socket q') (
            subst (λ (k : TcpSocket). Knows env k.remote_ip w)
              (sym (update_self w.sockets socket q')) known),
        await_ack_lem env flags socket env.stray w1 e,
        await_open_lem env socket env.stray w1 (
            ap (λ (k : TcpSocket). same_state k.state syn_sent) (update_self w.sockets socket q')
            ∙ s),
      )
      refl
