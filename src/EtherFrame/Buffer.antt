-- ===== src/EtherFrame/Buffer.antt =====
-- src/net/etherframe.cpp: the page that `send_f` builds a frame in.
use fox_os_kernel.Prelude.{
  ℕ, ◌/◌, ◌^◌, ◌≤◌, ◌<◌, ◌≡◌, refl, sym, ap, ◌∙◌, subst, inl, inr, Bool, true, false, List, arith,
  ℕ_discrete, ◌==◌, if◌then◌else◌, ==_refl, ne→==, mul64,
}
use fox_os_kernel.Bitmap.{bits}
use fox_os_kernel.Bitmap.Laws.{IsBytes}
use fox_os_kernel.PageFrames.{Allocator, taken, request_page, free_page}
use fox_os_kernel.PageFrames.Ops.{free_page-Marks}
use fox_os_kernel.PageFrames.Requests.{Grants, request_page_lem}
use fox_os_kernel.EtherFrame.{EtherFrameProvider, send_f}

same_bit :
    (x j : ℕ) (t : ℕ → Bool)
    → t x ≡ false
    → (if x == j then false else (if x == j then true else t j)) ≡ t j
same_bit x j t f = elim (ℕ_discrete x j) [
  | yes p ↦ rw (← p, ==_refl x) (sym f)
  | no p ↦ rw (ne→== x j p) refl
]

granted_back :
    (s : Allocator) (x j : ℕ) (r : ℕ × Allocator)
    → bits s.page_bitmap < 2 ^ 52
    → Grants s x r
    → taken (free_page r.1 r.0) j ≡ taken s j
granted_back s x j r b g =
    let index : r.0 / 4096 ≡ x = omega (arith, g.address) in
    let inside : r.0 / 4096 ≤ bits r.1.page_bitmap =
      subst (λ z. r.0 / 4096 ≤ mul64 z 8) (sym g.marks.size) (omega (arith, g.inside, index)) in
    let freed = free_page-Marks r.1 r.0 g.marks.bytes inside in
    freed.bit j
    ∙ ap (λ k. if k == j then false else taken r.1 j) index
    ∙ ap (λ b. if x == j then false else b) (g.marks.bit j)
    ∙ same_bit x j (taken s) g.was_free

-- A bitmap of bytes with fewer than 2 ^ 52 bits, and a page `x` that is free: sending a frame leaves
-- every page as free or as taken as it was. (Where no page is free, `send_f` frees page 0.)
pub send_f-taken :
    (dest_mac_be ether_type_be : ℕ) (payload : List ℕ) (e : EtherFrameProvider) (x : ℕ)
    → IsBytes e.allocator.page_bitmap
    → bits e.allocator.page_bitmap < 2 ^ 52
    → x < bits e.allocator.page_bitmap
    → taken e.allocator x ≡ false
    → (j : ℕ) → taken (send_f dest_mac_be ether_type_be payload e).allocator j ≡ taken e.allocator j
unfolding send_f
send_f-taken dest_mac_be ether_type_be payload e x h b lt f j =
    elim (request_page_lem e.allocator h b) [
      | inl (y, g) ↦ granted_back e.allocator y j (request_page e.allocator) b g
      | inr r ↦ absurd (ground (arith, r.exhausted x lt))
    ]
