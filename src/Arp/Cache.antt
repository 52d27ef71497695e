-- ===== src/Arp/Cache.antt =====
-- src/net/arp.cpp: what the cache gives.
use fox_os_kernel.Prelude.{
  ℕ, zero, suc, ◌+◌, ◌≤◌, ◌<◌, ◌≡◌, refl, ◌∙◌, subst, ◌≢◌, inl, inr, arith, ◌==◌, lt→ltb, le→ltb,
  ==_refl, ne→==, Bool-cases, update, update_self, update_ne,
}
use fox_os_kernel.Arp.{
  ArpMessage, Arp, broadcast_address, enter, on_ether_frame_received, get_mac_from_cache_from,
  get_mac_from_cache, request_mac_address, await_mac, resolve,
}

suc_add : (n : ℕ) → suc n ≡ n + 1
suc_add n = omega arith

-- The address is not in the entries from `i` on.
abbrev pub NotCached : Arp → ℕ → ℕ → ℕ → Type 0
NotCached a ip_be i n = (j : ℕ) → i ≤ j → j < i + n → a.ip_cache j ≢ ip_be

not_cached_lem :
    (a : Arp) (ip_be i n : ℕ)
    → NotCached a ip_be i n
    → get_mac_from_cache_from a ip_be i n ≡ broadcast_address
unfolding get_mac_from_cache_from
not_cached_lem a ip_be i zero h = refl
not_cached_lem a ip_be i (suc n) h =
    rw (ne→== (a.ip_cache i) ip_be (h i (omega arith) (omega arith)))
      (not_cached_lem a ip_be (i + 1) n (λ j l u. h j (omega arith) (omega arith)))

entered_lem :
    (a : Arp) (m : ArpMessage) (x i n : ℕ)
    → x ≡ i + n
    → NotCached a m.src_ip i n
    → get_mac_from_cache_from
        (record a {
          ip_cache = update a.ip_cache x m.src_ip;
          mac_cache = update a.mac_cache x m.src_mac;
          num_cache_entry = x + 1;
        })
        m.src_ip
        i
        (suc n)
      ≡ m.src_mac
unfolding get_mac_from_cache_from
entered_lem a m x i zero p h =
    let q : x ≡ i = omega arith in
    rw (q, update_self a.ip_cache i m.src_ip, ==_refl m.src_ip)
      (update_self a.mac_cache i m.src_mac)
entered_lem a m x i (suc n) p h =
    rw
      (
        update_ne a.ip_cache x i m.src_ip (λ q. absurd (omega arith)),
        ne→== (a.ip_cache i) m.src_ip (h i (omega arith) (omega arith)),
      )
      (entered_lem a m x (i + 1) n (omega arith) (λ j l u. h j (omega arith) (omega arith)))

-- A reply of at least 28 bytes over Ethernet and IPv4 for this card, whose sender is not in a cache
-- with room for one more: the cache then gives the sender's hardware address for it.
pub reply-get_mac :
    (a : Arp) (m : ArpMessage) (size : ℕ)
    → 28 ≤ size
    → m.hardware_type ≡ 256
    → m.protocol ≡ 8
    → m.hardware_address_size ≡ 6
    → m.protocol_address_size ≡ 4
    → m.dest_ip ≡ a.ip
    → m.command ≡ 512
    → a.num_cache_entry < 128
    → NotCached a m.src_ip 0 a.num_cache_entry
    → get_mac_from_cache (on_ether_frame_received m size a) m.src_ip ≡ m.src_mac
unfolding on_ether_frame_received enter get_mac_from_cache
reply-get_mac a m size s h0 h1 h2 h3 h4 h5 lt h =
    rw (le→ltb size 28 s, h0, h1, h2, h3, h4, ==_refl a.ip, h5, lt→ltb a.num_cache_entry 128 lt)
      (subst
        (λ k.
          get_mac_from_cache_from
            (record a {
              ip_cache = update a.ip_cache a.num_cache_entry m.src_ip;
              mac_cache = update a.mac_cache a.num_cache_entry m.src_mac;
              num_cache_entry = a.num_cache_entry + 1;
            })
            m.src_ip 0 k
          ≡ m.src_mac)
        (suc_add a.num_cache_entry)
        (entered_lem a m a.num_cache_entry 0 a.num_cache_entry (omega arith) h))

await_known :
    {S : Type 0} (view : S → Arp) (sleep : ℕ → S → S) (ip_be result timeout : ℕ) (s : S)
    → result ≢ broadcast_address
    → await_mac view sleep ip_be result (suc timeout) s ≡ (result, s)
unfolding await_mac
await_known view sleep ip_be result timeout s k = rw (ne→== result broadcast_address k) refl

-- An address that the cache holds: `resolve` gives what the cache gives, and nothing is sent.
pub resolve-cached :
    {S : Type 0} (view : S → Arp) (put : Arp → S → S) (sleep : ℕ → S → S) (ip_be : ℕ) (s : S)
    → ip_be ≢ 4294967295
    → get_mac_from_cache (view s) ip_be ≢ broadcast_address
    → resolve view put sleep ip_be s ≡ (get_mac_from_cache (view s) ip_be, s)
unfolding resolve
resolve-cached view put sleep ip_be s h k =
    rw (ne→== ip_be 4294967295 h, ne→== (get_mac_from_cache (view s) ip_be) broadcast_address k)
      (await_known view sleep ip_be (get_mac_from_cache (view s) ip_be) 99999 s k)

await_silent :
    (sleep : ℕ → Arp → Arp) (ip_be timeout : ℕ) (a : Arp)
    → ((n : ℕ) (b : Arp) → get_mac_from_cache (sleep n b) ip_be ≡ get_mac_from_cache b ip_be)
    → get_mac_from_cache a ip_be ≡ broadcast_address
    → (await_mac (λ b. b) sleep ip_be broadcast_address timeout a).0 ≡ 0
unfolding await_mac
await_silent sleep ip_be zero a q h = refl
await_silent sleep ip_be (suc timeout) a q h = elim (Bool-cases (timeout == 0)) [
  | inl e ↦ rw e refl
  | inr e ↦ rw (e, h) (await_silent sleep ip_be timeout (sleep timeout a) q (q timeout a ∙ h))
]

-- An address other than the broadcast address that the cache gives no answer for, while no
-- interrupt changes what it gives for it: `resolve` returns, with 0.
pub resolve-silent :
    (sleep : ℕ → Arp → Arp) (ip_be : ℕ) (a : Arp)
    → ip_be ≢ 4294967295
    → ((n : ℕ) (b : Arp) → get_mac_from_cache (sleep n b) ip_be ≡ get_mac_from_cache b ip_be)
    → get_mac_from_cache a ip_be ≡ broadcast_address
    → (resolve (λ b. b) (λ b _. b) sleep ip_be a).0 ≡ 0
unfolding resolve request_mac_address
resolve-silent sleep ip_be a h q e =
    rw (ne→== ip_be 4294967295 h, e)
      (await_silent sleep ip_be 100000 (request_mac_address ip_be a) q e)
