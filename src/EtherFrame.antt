-- ===== src/EtherFrame.antt =====
-- src/net/etherframe.cpp: frames. A received frame is a byte memory from its first byte on; the
-- handlers are an argument, and `S` is their state. A frame that is sent is built in a page of the page
-- frame allocator.
pub mod Buffer
use fox_os_kernel.Prelude.{
  ℕ, ◌+◌, ◌-◌, Bool, true, false, ◌||◌, none, some, List, [], ◌∷◌, ◌++◌, ltb, ◌==◌, if◌then◌else◌,
}
use fox_os_kernel.Net.{word16, word48, bytes16, bytes48, sub32, store_bytes}
use fox_os_kernel.Slots.{Slots, find}
use fox_os_kernel.PageFrames.{Allocator, request_page, free_page}

pub record EtherFrameProvider : Type 0 where
  pub handlers : Slots ℕ
  -- the type of the frames that a handler is for
  pub ether_type_be : ℕ → ℕ
  pub mac : ℕ
  pub allocator : Allocator
  pub sent : List (List ℕ)

abbrev pub broadcast_mac : ℕ
broadcast_mac = 281474976710655

-- The frame with a payload that its handler has written.
abbrev pub with_payload : (ℕ → ℕ) → (ℕ → ℕ) → ℕ → ℕ
with_payload data_before payload a = if ltb a 14 then data_before a else payload (a - 14)

module _ {S : Type 0} where
  unfoldable pub recv :
      (ℕ → (ℕ → ℕ) → ℕ → S → (ℕ → ℕ) × S × Bool)
      → EtherFrameProvider
      → (ℕ → ℕ)
      → ℕ
      → S
      → (ℕ → ℕ) × S × Bool
  unfolding find store_bytes
  recv on_received e frame size s =
      let handled : (ℕ → ℕ) × S × Bool =
        elim (find (λ h. word16 frame 12 == e.ether_type_be h) e.handlers) [
          | none ↦ (frame, s, false)
          | some n ↦
              let r =
                on_received (e.handlers.nodes n).value (λ i. frame (14 + i)) (sub32 size 14) s in
              (with_payload frame (r.0), r.1, r.2)
        ] in
      let back = store_bytes (bytes48 (word48 (handled.0) 6) ++ bytes48 e.mac) 0 (handled.0) in
      if word48 frame 0 == broadcast_mac || word48 frame 0 == e.mac
      then (if handled.2 then (back, handled.1, true) else handled)
      else (frame, s, false)

unfoldable pub send_f : ℕ → ℕ → List ℕ → EtherFrameProvider → EtherFrameProvider
send_f dest_mac_be ether_type_be payload e =
    let r = request_page e.allocator in
    record e {
      sent =
          e.sent ++ (bytes48 dest_mac_be ++ bytes48 e.mac ++ bytes16 ether_type_be ++ payload) ∷ [];
      allocator = free_page (r.1) (r.0);
    }
