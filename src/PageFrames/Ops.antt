-- ===== src/PageFrames/Ops.antt =====
-- What the page operations of src/paging/page_frame_allocator.cpp do to the bitmap.
use fox_os_kernel.Prelude.{
  ℕ, ◌+◌, ◌/◌, ◌^◌, ◌≤◌, ◌<◌, ◌≡◌, refl, sym, ap, ◌∙◌, subst, ◌≢◌, inl, inr, Bool, true, false,
  ◌&&◌, arith, dec_lt, ltb, leb, ◌==◌, if◌then◌else◌, Bool-eq_or_ne, add64, mul64, for_range_inv,
}
use fox_os_kernel.Bitmap
use fox_os_kernel.Bitmap.{Bitmap, bits}
use fox_os_kernel.Bitmap.Laws.{IsBytes, get-set, get_out, set_in, set_out, size-set, set-IsBytes}
use fox_os_kernel.PageFrames.{
  Allocator, taken, page_address, page_offset, lock_page, free_page, reserve_page, unreserve_page,
  each_page, lock_pages, free_pages, reserve_pages, unreserve_pages,
}

-- `s'` has the bitmap of `s` with the bit `i` at `v`.
pub record Marks (v : Bool) (i : ℕ) (s s' : Allocator) : Type 0 where
  pub size : s'.page_bitmap.size ≡ s.page_bitmap.size
  pub bytes : IsBytes s'.page_bitmap
  pub bit : (j : ℕ) → taken s' j ≡ (if i == j then v else taken s j)

set-Marks :
    (v : Bool) (i : ℕ) (s s' : Allocator)
    → IsBytes s.page_bitmap
    → i ≤ bits s.page_bitmap
    → s'.page_bitmap ≡ (Bitmap.set s.page_bitmap i v).0
    → Marks v i s s'
set-Marks v i s s' h p e = record {
  size = ap (λ b. b.size) e ∙ size-set s.page_bitmap i v;
  bytes = subst IsBytes (sym e) (set-IsBytes s.page_bitmap i v h);
  bit = λ j. ap (λ b. Bitmap.get b j) e ∙ get-set s.page_bitmap i j v h p;
}

same-Marks :
    (v : Bool) (i : ℕ) (s : Allocator) → IsBytes s.page_bitmap → taken s i ≡ v → Marks v i s s
same-Marks v i s h e = record {
  size = refl;
  bytes = h;
  bit = λ j. ground (arith, ap (taken s) {x = i} {y = j});
}

Marks-of :
    (v : Bool) (i : ℕ) (s s' : Allocator)
    → IsBytes s.page_bitmap
    → i ≤ bits s.page_bitmap
    → (taken s i ≡ v → s' ≡ s)
    → (taken s i ≢ v → s'.page_bitmap ≡ (Bitmap.set s.page_bitmap i v).0)
    → Marks v i s s'
Marks-of v i s s' h p same other = elim (Bool-eq_or_ne (taken s i) v) [
  | inl e ↦ rw (same e) (same-Marks v i s h e)
  | inr n ↦ set-Marks v i s s' h p (other n)
]

module _ (s : Allocator) (a : ℕ) (h : IsBytes s.page_bitmap)
    (p : a / 4096 ≤ bits s.page_bitmap) where
  pub lock_page-Marks : Marks true (a / 4096) s (lock_page s a)
  unfolding lock_page
  lock_page-Marks =
      Marks-of true (a / 4096) s (lock_page s a) h p (λ e. ground arith)
        (λ n. ground (arith, set_in s.page_bitmap (a / 4096) true p))

  pub reserve_page-Marks : Marks true (a / 4096) s (reserve_page s a)
  unfolding reserve_page
  reserve_page-Marks =
      Marks-of true (a / 4096) s (reserve_page s a) h p (λ e. ground arith)
        (λ n. ground (arith, set_in s.page_bitmap (a / 4096) true p))

  pub free_page-Marks : Marks false (a / 4096) s (free_page s a)
  unfolding free_page
  free_page-Marks =
      Marks-of false (a / 4096) s (free_page s a) h p (λ e. ground arith)
        (λ n. ground (arith, set_in s.page_bitmap (a / 4096) false p))

  pub unreserve_page-Marks : Marks false (a / 4096) s (unreserve_page s a)
  unfolding unreserve_page
  unreserve_page-Marks =
      Marks-of false (a / 4096) s (unreserve_page s a) h p (λ e. ground arith)
        (λ n. ground (arith, set_in s.page_bitmap (a / 4096) false p))

-- Behind the bitmap an operation does nothing.
module _ (s : Allocator) (a : ℕ) (out : bits s.page_bitmap < a / 4096) where
  pub lock_page_out : lock_page s a ≡ s
  unfolding lock_page
  lock_page_out =
      rw (get_out s.page_bitmap (a / 4096) out, set_out s.page_bitmap (a / 4096) true out) refl

  pub free_page_out : free_page s a ≡ s
  unfolding free_page
  free_page_out = rw (get_out s.page_bitmap (a / 4096) out) refl

  pub reserve_page_out : reserve_page s a ≡ s
  unfolding reserve_page
  reserve_page_out =
      rw (get_out s.page_bitmap (a / 4096) out, set_out s.page_bitmap (a / 4096) true out) refl

  pub unreserve_page_out : unreserve_page s a ≡ s
  unfolding unreserve_page
  unreserve_page_out = rw (get_out s.page_bitmap (a / 4096) out) refl

-- `s'` has the bitmap of `s` with those of the bits `x, …, x + n - 1` at `v` that it has.
pub record MarksRange (v : Bool) (x n : ℕ) (s s' : Allocator) : Type 0 where
  pub size : s'.page_bitmap.size ≡ s.page_bitmap.size
  pub bytes : IsBytes s'.page_bitmap
  pub bit :
      (j : ℕ)
      → taken s' j
        ≡ (if leb x j && (ltb j (x + n) && leb j (bits s.page_bitmap)) then v else taken s j)

page_of_offset :
    (x k : ℕ) → x + k < 2 ^ 52 → k < 2 ^ 19 → add64 (page_address x) (page_offset k) / 4096 ≡ x + k
page_of_offset x k h l = ground arith

module _ (v : Bool) (x k : ℕ) (s s' s'' : Allocator) (m : MarksRange v x k s s') where
  MarksRange-in : x + k ≤ bits s.page_bitmap → Marks v (x + k) s' s'' → MarksRange v x (k + 1) s s''
  MarksRange-in p n = record {
    size = n.size ∙ m.size;
    bytes = n.bytes;
    bit = λ j. ground (arith, n.bit j, m.bit j);
  }

  MarksRange-out : bits s.page_bitmap < x + k → s'' ≡ s' → MarksRange v x (k + 1) s s''
  MarksRange-out p e = record {
    size = ap (λ t. t.page_bitmap.size) e ∙ m.size;
    bytes = subst (λ t. IsBytes t.page_bitmap) (sym e) m.bytes;
    bit = λ j. ground (arith, ap (λ t. taken t j) e, m.bit j);
  }

-- An operation that marks the page of its address, run over a range of pages, marks that range.
module _ (op : Allocator → ℕ → Allocator) (v : Bool)
    (marks : (s : Allocator) (a : ℕ)
      → IsBytes s.page_bitmap
      → a / 4096 ≤ bits s.page_bitmap
      → Marks v (a / 4096) s (op s a))
    (outside : (s : Allocator) (a : ℕ) → bits s.page_bitmap < a / 4096 → op s a ≡ s) (s : Allocator)
    (x n : ℕ) (h : IsBytes s.page_bitmap) (l : n ≤ 2 ^ 19) (b : x + n ≤ 2 ^ 52) where
  page_round :
      (k : ℕ) (s' : Allocator)
      → k < n
      → MarksRange v x k s s'
      → MarksRange v x (k + 1) s (op s' (add64 (page_address x) (page_offset k)))
  page_round k s' lt m =
      let a = add64 (page_address x) (page_offset k) in
      let e = page_of_offset x k (omega arith) (omega arith) in
      let same : bits s'.page_bitmap ≡ bits s.page_bitmap = ap (λ z. mul64 z 8) m.size in
      elim (dec_lt (bits s.page_bitmap) (x + k)) [
        | yes o ↦
            MarksRange-out v x k s s' (op s' a) m o
              (outside s' a (subst (λ z. bits s'.page_bitmap < z) (sym e) (omega arith)))
        | no i ↦ MarksRange-in v x k s s' (op s' a) m (omega arith) (
            subst (λ z. Marks v z s' (op s' a)) e
              (marks s' a m.bytes (subst (λ z. z ≤ bits s'.page_bitmap) (sym e) (omega arith))))
      ]

  each_page-MarksRange : MarksRange v x n s (each_page op s (page_address x) n)
  unfolding each_page
  each_page-MarksRange =
      for_range_inv (λ k s'. MarksRange v x k s s') _ n 0 n (omega arith) page_round s
        (record { size = refl; bytes = h; bit = λ j. ground arith })

module _ (s : Allocator) (x n : ℕ) (h : IsBytes s.page_bitmap) (l : n ≤ 2 ^ 19)
    (b : x + n ≤ 2 ^ 52) where
  -- A bitmap of bytes and a range of at most 2 ^ 19 pages that ends at page 2 ^ 52 or before:
  -- `lock_pages` sets the bits of the range that the bitmap has, and leaves the others as they
  -- were.
  pub lock_pages-MarksRange : MarksRange true x n s (lock_pages s (page_address x) n)
  unfolding lock_pages
  lock_pages-MarksRange =
      each_page-MarksRange lock_page true lock_page-Marks lock_page_out s x n h l b

  -- A bitmap of bytes and a range of at most 2 ^ 19 pages that ends at page 2 ^ 52 or before:
  -- `free_pages` clears the bits of the range that the bitmap has, and leaves the others as they
  -- were.
  pub free_pages-MarksRange : MarksRange false x n s (free_pages s (page_address x) n)
  unfolding free_pages
  free_pages-MarksRange =
      each_page-MarksRange free_page false free_page-Marks free_page_out s x n h l b

  pub reserve_pages-MarksRange : MarksRange true x n s (reserve_pages s (page_address x) n)
  unfolding reserve_pages
  reserve_pages-MarksRange =
      each_page-MarksRange reserve_page true reserve_page-Marks reserve_page_out s x n h l b

  pub unreserve_pages-MarksRange : MarksRange false x n s (unreserve_pages s (page_address x) n)
  unfolding unreserve_pages
  unreserve_pages-MarksRange =
      each_page-MarksRange unreserve_page false unreserve_page-Marks unreserve_page_out s x n h l b
