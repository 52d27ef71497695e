-- ===== src/PageFrames/Accounting.antt =====
-- The counters of src/paging/page_frame_allocator.cpp against the bitmap.
use fox_os_kernel.Prelude.{
  ℕ, ◌+◌, ◌*◌, ◌/◌, ◌%◌, ◌^◌, ◌≤◌, ◌<◌, ◌≡◌, sym, ap, ◌∙◌, inl, inr, true, false, arith, dec_lt,
  Bool-cases, add64, sub64, mul64, count, count_flip,
}
use fox_os_kernel.Bitmap.{bits}
use fox_os_kernel.Bitmap.Laws.{IsBytes, get_out, set_in, set_out}
use fox_os_kernel.PageFrames.{Allocator, taken, lock_page, free_page, reserve_page, unreserve_page}
use fox_os_kernel.PageFrames.Ops.{
  Marks, lock_page-Marks, free_page-Marks, reserve_page-Marks, unreserve_page-Marks,
}

-- The pages whose bit is set.
pub pages_taken : Allocator → ℕ
unfolding count
pages_taken s = count (taken s) (bits s.page_bitmap + 1)

-- What the counters add up to, and what the free counter and the bitmap add up to, in uint64_t.
pub record Balanced (total cover : ℕ) (s : Allocator) : Type 0 where
  pub bytes : IsBytes s.page_bitmap
  pub counters : (s.free_memory + s.used_memory + s.reserved_memory) % 2 ^ 64 ≡ total
  pub bitmap : (s.free_memory + 4096 * pages_taken s) % 2 ^ 64 ≡ cover

pages_taken-mark :
    (i : ℕ) (s s' : Allocator)
    → Marks true i s s'
    → taken s i ≡ false
    → i ≤ bits s.page_bitmap
    → pages_taken s' ≡ pages_taken s + 1
unfolding pages_taken
pages_taken-mark i s s' m e p =
    ap (λ z. count (taken s') (mul64 z 8 + 1)) m.size
    ∙ count_flip (taken s) (taken s') i (bits s.page_bitmap + 1) m.bit e (omega arith)

pages_taken-unmark :
    (i : ℕ) (s s' : Allocator)
    → Marks false i s s'
    → taken s i ≡ true
    → i ≤ bits s.page_bitmap
    → pages_taken s' + 1 ≡ pages_taken s
unfolding pages_taken
pages_taken-unmark i s s' m e p =
    ap (λ z. count (taken s') (mul64 z 8 + 1) + 1) m.size
    ∙ sym (
        count_flip (taken s') (taken s) i (bits s.page_bitmap + 1)
          (λ k. ground (arith, m.bit k, ap (taken s) {x = i} {y = k})) (ground (arith, m.bit i))
          (omega arith))

taken_in : (s : Allocator) (i : ℕ) → taken s i ≡ true → i ≤ bits s.page_bitmap
taken_in s i e = ground (arith, get_out s.page_bitmap i)

module _ (total cover : ℕ) (s s' : Allocator) (i : ℕ) (v : Balanced total cover s) where
  Balanced-take :
      Marks true i s s'
      → taken s i ≡ false
      → i ≤ bits s.page_bitmap
      → s'.free_memory ≡ sub64 s.free_memory 4096
      → (s'.used_memory + s'.reserved_memory) % 2 ^ 64
        ≡ (s.used_memory + s.reserved_memory + 4096) % 2 ^ 64
      → Balanced total cover s'
  Balanced-take m e p f u = record {
    bytes = m.bytes;
    counters = omega (arith, v.counters);
    bitmap = omega (arith, v.bitmap, pages_taken-mark i s s' m e p);
  }

  Balanced-give :
      Marks false i s s'
      → taken s i ≡ true
      → s'.free_memory ≡ add64 s.free_memory 4096
      → (s'.used_memory + s'.reserved_memory + 4096) % 2 ^ 64
        ≡ (s.used_memory + s.reserved_memory) % 2 ^ 64
      → Balanced total cover s'
  Balanced-give m e f u = record {
    bytes = m.bytes;
    counters = omega (arith, v.counters);
    bitmap = omega (arith, v.bitmap, pages_taken-unmark i s s' m e (taken_in s i e));
  }

-- A page is taken already, behind the bitmap, or becomes taken.
taking_cases :
    (P : Type 0) (s : Allocator) (i : ℕ)
    → (taken s i ≡ true → P)
    → (bits s.page_bitmap < i → taken s i ≡ false → P)
    → (i ≤ bits s.page_bitmap → taken s i ≡ false → P)
    → P
taking_cases P s i had out inn = elim (Bool-cases (taken s i)) [
  | inl e ↦ had e
  | inr e ↦ elim (dec_lt (bits s.page_bitmap) i) [ yes o ↦ out o e | no n ↦ inn (omega arith) e ]
]

module _ (total cover : ℕ) (s : Allocator) (a : ℕ) (v : Balanced total cover s) where
  pub lock_page-Balanced : Balanced total cover (lock_page s a)
  unfolding lock_page
  lock_page-Balanced =
      taking_cases _ s (a / 4096) (λ e. rw e v)
        (λ o e. rw (e, set_out s.page_bitmap (a / 4096) true o) v)
        (λ p e.
          Balanced-take total cover s (lock_page s a) (a / 4096) v (lock_page-Marks s a v.bytes p) e
            p (ground (arith, set_in s.page_bitmap (a / 4096) true p))
            (ground (arith, set_in s.page_bitmap (a / 4096) true p)))

  pub reserve_page-Balanced : Balanced total cover (reserve_page s a)
  unfolding reserve_page
  reserve_page-Balanced =
      taking_cases _ s (a / 4096) (λ e. rw e v)
        (λ o e. rw (e, set_out s.page_bitmap (a / 4096) true o) v)
        (λ p e.
          Balanced-take total cover s (reserve_page s a) (a / 4096) v
            (reserve_page-Marks s a v.bytes p) e p
            (ground (arith, set_in s.page_bitmap (a / 4096) true p))
            (ground (arith, set_in s.page_bitmap (a / 4096) true p)))

  pub free_page-Balanced : Balanced total cover (free_page s a)
  unfolding free_page
  free_page-Balanced = elim (Bool-cases (taken s (a / 4096))) [
    | inl e ↦
        let p = taken_in s (a / 4096) e in
        Balanced-give total cover s (free_page s a) (a / 4096) v (free_page-Marks s a v.bytes p) e
          (ground (arith, set_in s.page_bitmap (a / 4096) false p))
          (ground (arith, set_in s.page_bitmap (a / 4096) false p))
    | inr e ↦ rw e v
  ]

  pub unreserve_page-Balanced : Balanced total cover (unreserve_page s a)
  unfolding unreserve_page
  unreserve_page-Balanced = elim (Bool-cases (taken s (a / 4096))) [
    | inl e ↦
        let p = taken_in s (a / 4096) e in
        Balanced-give total cover s (unreserve_page s a) (a / 4096) v
          (unreserve_page-Marks s a v.bytes p) e
          (ground (arith, set_in s.page_bitmap (a / 4096) false p))
          (ground (arith, set_in s.page_bitmap (a / 4096) false p))
    | inr e ↦ rw e v
  ]

-- The search index is not counted.
pub Balanced-index :
    (total cover : ℕ) (s : Allocator) (i : ℕ)
    → Balanced total cover s
    → Balanced total cover (record s { page_bitmap_index = i })
unfolding pages_taken
Balanced-index total cover s i v = record {
  bytes = v.bytes;
  counters = v.counters;
  bitmap = v.bitmap;
}
