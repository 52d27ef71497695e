-- ===== src/PageFrames/Requests.antt =====
-- What `request_page` and `request_pages` of src/paging/page_frame_allocator.cpp give out.
use fox_os_kernel.Prelude.{
  ℕ, ◌+◌, ◌-◌, ◌*◌, ◌/◌, ◌^◌, ◌≤◌, ◌<◌, ◌≡◌, refl, sym, ap, ◌∙◌, subst, ◌⊎◌, inl, inr, Bool, true,
  false, ◌&&◌, Option, none, some, arith, dec_lt, ltb, leb, ◌==◌, if◌then◌else◌,
}
use fox_os_kernel.Bitmap
use fox_os_kernel.Bitmap.{bits}
use fox_os_kernel.Bitmap.Laws.{IsBytes}
use fox_os_kernel.PageFrames.{
  Allocator, taken, page_address, find_free, rewind_index, lock_found, lock_page, request_page,
}
use fox_os_kernel.PageFrames.Ops.{Marks, MarksRange, lock_page-Marks}
use fox_os_kernel.PageFrames.Search.{IsFirstFree, find_free-IsFirstFree}

-- What a request of one page may answer: nothing where every page is taken, and otherwise the
-- lowest free page, whose bit is then set.
pub record Grants (s : Allocator) (x : ℕ) (r : ℕ × Allocator) : Type 0 where
  pub inside : x < bits s.page_bitmap
  pub address : r.0 ≡ x * 4096
  pub was_free : taken s x ≡ false
  pub lowest : (j : ℕ) → j < x → taken s j ≡ true
  pub marks : Marks true x s r.1

pub record Refuses (s : Allocator) (r : ℕ × Allocator) : Type 0 where
  pub null : r.0 ≡ 0
  pub exhausted : (j : ℕ) → j < bits s.page_bitmap → taken s j ≡ true
  pub same : r.1.page_bitmap ≡ s.page_bitmap

-- After the first loop every page below the index is taken.
abbrev pub Rewound : Allocator → Allocator → Type 0
Rewound s r =
    (r.page_bitmap ≡ s.page_bitmap) × ((j : ℕ) → j < r.page_bitmap_index → taken s j ≡ true)

Rewound-of :
    (s : Allocator) (r : Option ℕ)
    → IsFirstFree s.page_bitmap 0 s.page_bitmap_index r
    → Rewound s (elim r [ none ↦ s | some i ↦ record s { page_bitmap_index = i } ])
Rewound-of s none f = (refl, λ j l. f j (omega arith) (omega arith))
Rewound-of s (some i) f = (refl, λ j l. f.3 j (omega arith) l)

pub rewind_index-Rewound : (s : Allocator) → Rewound s (rewind_index s)
unfolding rewind_index
rewind_index-Rewound s =
    Rewound-of s (find_free s.page_bitmap 0 s.page_bitmap_index)
      (find_free-IsFirstFree s.page_bitmap 0 s.page_bitmap_index)

Marks-from :
    (v : Bool) (i : ℕ) (s r s' : Allocator)
    → r.page_bitmap ≡ s.page_bitmap
    → Marks v i r s'
    → Marks v i s s'
Marks-from v i s r s' e m = record {
  size = m.size ∙ ap (λ b. b.size) e;
  bytes = m.bytes;
  bit = λ j. m.bit j ∙ ap (λ b. if i == j then v else Bitmap.get b j) e;
}

pub MarksRange-from :
    (v : Bool) (x n : ℕ) (s r s' : Allocator)
    → r.page_bitmap ≡ s.page_bitmap
    → MarksRange v x n r s'
    → MarksRange v x n s s'
MarksRange-from v x n s r s' e m = record {
  size = m.size ∙ ap (λ b. b.size) e;
  bytes = m.bytes;
  bit = λ j.
      m.bit j
      ∙ ap (λ b. if leb x j && (ltb j (x + n) && leb j (bits b)) then v else Bitmap.get b j) e;
}

-- The second loop, started where the first left off.
module _ (s r : Allocator) (n : ℕ) (h : IsBytes s.page_bitmap) (b : bits s.page_bitmap < 2 ^ 52)
    (w : Rewound s r) (e : n ≡ bits r.page_bitmap - r.page_bitmap_index) where
  lowest_free :
      (x : ℕ)
      → ((j : ℕ) → r.page_bitmap_index ≤ j → j < x → taken r j ≡ true)
      → (j : ℕ) → j < x
      → taken s j ≡ true
  lowest_free x above j l = elim (dec_lt j r.page_bitmap_index) [
    | yes p ↦ w.1 j p
    | no p ↦ ap (λ m. Bitmap.get m j) (sym w.0) ∙ above j (omega arith) l
  ]

  found-Grants :
      (x : ℕ)
      → IsFirstFree r.page_bitmap r.page_bitmap_index n (some x)
      → Grants s x (lock_found r (some x))
  unfolding lock_found
  found-Grants x f =
      let same_bits = ap bits w.0 in
      let page : page_address x / 4096 ≡ x = omega arith in
      record {
        inside = omega arith;
        address = omega arith;
        was_free = ap (λ m. Bitmap.get m x) (sym w.0) ∙ f.2;
        lowest = lowest_free x f.3;
        marks = Marks-from true x s r _ w.0 (
            subst (λ i. Marks true i r (lock_page r (page_address x))) page
              (lock_page-Marks r (page_address x) (subst IsBytes (sym w.0) h) (omega arith)));
      }

  none-Refuses :
      IsFirstFree r.page_bitmap r.page_bitmap_index n none → Refuses s (lock_found r none)
  unfolding lock_found
  none-Refuses f =
      let same_bits = ap bits w.0 in
      record {
        null = refl;
        exhausted = lowest_free (bits s.page_bitmap) (λ j l u. f j l (omega arith));
        same = w.0;
      }

  lock_found_lem :
      (f : Option ℕ)
      → IsFirstFree r.page_bitmap r.page_bitmap_index n f
      → ((x : ℕ) × Grants s x (lock_found r f)) ⊎ Refuses s (lock_found r f)
  lock_found_lem none f = inr (none-Refuses f)
  lock_found_lem (some x) f = inl (x, found-Grants x f)

-- A bitmap of bytes with fewer than 2 ^ 52 bits: a request for one page gives the lowest free page,
-- whose bit is then set and no other changed, or, where every page is taken, gives NULL and leaves
-- the bitmap as it was.
pub request_page_lem :
    (s : Allocator)
    → IsBytes s.page_bitmap
    → bits s.page_bitmap < 2 ^ 52
    → ((x : ℕ) × Grants s x (request_page s)) ⊎ Refuses s (request_page s)
unfolding request_page
request_page_lem s h b =
    let r = rewind_index s in
    let n = bits r.page_bitmap - r.page_bitmap_index in
    lock_found_lem s r n h b (rewind_index-Rewound s) refl
      (find_free r.page_bitmap r.page_bitmap_index n)
      (find_free-IsFirstFree r.page_bitmap r.page_bitmap_index n)
