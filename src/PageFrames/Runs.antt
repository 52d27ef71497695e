-- ===== src/PageFrames/Runs.antt =====
-- What `request_pages` of src/paging/page_frame_allocator.cpp gives out, and giving a page back.
use fox_os_kernel.Prelude.{
  ℕ, ◌+◌, ◌-◌, ◌*◌, ◌/◌, ◌^◌, ◌≤◌, ◌<◌, ◌≡◌, refl, sym, ap, ◌∙◌, subst, ◌⊎◌, inl, inr, true, false,
  Option, none, some, arith, dec_lt, ltb, if◌then◌else◌, add64, sub64, mul64,
}
use fox_os_kernel.Bitmap
use fox_os_kernel.Bitmap.{bits}
use fox_os_kernel.Bitmap.Laws.{IsBytes, set_in, set-set_restores}
use fox_os_kernel.PageFrames.{
  Allocator, taken, rewind_index, find_run, all_free, lock_run, lock_page, free_page, request_pages,
}
use fox_os_kernel.PageFrames.Ops.{
  lock_page-Marks, lock_page_out, free_page_out, MarksRange, lock_pages-MarksRange,
}
use fox_os_kernel.PageFrames.Search.{all_free_lem, find_run_lem}
use fox_os_kernel.PageFrames.Requests.{rewind_index-Rewound, MarksRange-from}

-- The pages `x, …, x + amount - 1` were free; those of them that the bitmap has are taken now.
pub record GrantsRun (s : Allocator) (amount x : ℕ) (r : ℕ × Allocator) : Type 0 where
  pub inside : x < bits s.page_bitmap
  pub address : r.0 ≡ x * 4096
  pub were_free : (j : ℕ) → x ≤ j → j < x + amount → taken s j ≡ false
  pub marks : MarksRange true x amount s r.1

lock_run_lem :
    (s r : Allocator) (amount : ℕ) (f : Option ℕ)
    → IsBytes s.page_bitmap
    → bits s.page_bitmap + amount ≤ 2 ^ 52
    → amount ≤ 2 ^ 19
    → r.page_bitmap ≡ s.page_bitmap
    → ((x : ℕ) → f ≡ some x → (x < bits r.page_bitmap) × (all_free r.page_bitmap x amount ≡ true))
    → ((x : ℕ) × GrantsRun s amount x (lock_run r amount f))
      ⊎ ((lock_run r amount f).0 ≡ 0) × ((lock_run r amount f).1.page_bitmap ≡ s.page_bitmap)
unfolding lock_run
lock_run_lem s r amount none h b a w found = inr (refl, w)
lock_run_lem s r amount (some x) h b a w found =
    let same_bits = ap bits w in
    let (lt, free) = found x refl in
    inl (
      x,
      record {
        inside = omega arith;
        address = omega arith;
        were_free = λ j l u.
            ap (λ m. Bitmap.get m j) (sym w)
            ∙ all_free_lem r.page_bitmap x amount free (omega arith) j l u;
        marks =
            MarksRange-from true x amount s r _ w
              (lock_pages-MarksRange r x amount (subst IsBytes (sym w) h) a (omega arith));
      },
    )

-- A bitmap of bytes, at most 2 ^ 19 pages asked for, and together with them at most 2 ^ 52 bits: a
-- request for several pages gives a run whose bits all read as free and sets those of them that the
-- bitmap has and no others, or gives NULL and leaves the bitmap as it was.
pub request_pages_lem :
    (s : Allocator) (amount : ℕ)
    → IsBytes s.page_bitmap
    → bits s.page_bitmap + amount ≤ 2 ^ 52
    → amount ≤ 2 ^ 19
    → ((x : ℕ) × GrantsRun s amount x (request_pages s amount))
      ⊎ ((request_pages s amount).0 ≡ 0) × ((request_pages s amount).1.page_bitmap ≡ s.page_bitmap)
unfolding request_pages
request_pages_lem s amount h b a =
    let r = rewind_index s in
    let fuel = bits r.page_bitmap - r.page_bitmap_index in
    lock_run_lem s r amount (find_run r.page_bitmap amount r.page_bitmap_index fuel) h b a
      (rewind_index-Rewound s).0
      (λ x e. let f = find_run_lem r.page_bitmap amount r.page_bitmap_index fuel x e in (f.1, f.3))

module _ (s : Allocator) (a : ℕ) (p : a / 4096 ≤ bits s.page_bitmap) where
  lock_page_in :
      taken s (a / 4096) ≡ false
      → lock_page s a ≡ record s {
        page_bitmap = (Bitmap.set s.page_bitmap (a / 4096) true).0;
        free_memory = sub64 s.free_memory 4096;
        used_memory = add64 s.used_memory 4096;
      }
  unfolding lock_page
  lock_page_in e = rw (e, set_in s.page_bitmap (a / 4096) true p) refl

  free_page_in :
      taken s (a / 4096) ≡ true
      → free_page s a ≡ record s {
        page_bitmap = (Bitmap.set s.page_bitmap (a / 4096) false).0;
        free_memory = add64 s.free_memory 4096;
        used_memory = sub64 s.used_memory 4096;
        page_bitmap_index =
            if ltb (a / 4096) s.page_bitmap_index then a / 4096 else s.page_bitmap_index;
      }
  unfolding free_page
  free_page_in e = rw (e, set_in s.page_bitmap (a / 4096) false p) refl

-- A bitmap of bytes, a page that reads as free, and counters of 64 bits: locking the page and
-- freeing it again restores the bitmap and the three counters.
pub free_page-lock_page :
    (s : Allocator) (a : ℕ)
    → IsBytes s.page_bitmap
    → taken s (a / 4096) ≡ false
    → s.free_memory < 2 ^ 64
    → s.used_memory < 2 ^ 64
    → let r = free_page (lock_page s a) a in
      (r.page_bitmap ≡ s.page_bitmap)
      × (r.free_memory ≡ s.free_memory)
      × (r.used_memory ≡ s.used_memory)
      × (r.reserved_memory ≡ s.reserved_memory)
free_page-lock_page s a h e f u = elim (dec_lt (bits s.page_bitmap) (a / 4096)) [
  | yes o ↦ rw (lock_page_out s a o) (rw (free_page_out s a o) (refl, refl, refl, refl))
  | no n ↦
      let p : a / 4096 ≤ bits s.page_bitmap = omega arith in
      let m = lock_page-Marks s a h p in
      let p' : a / 4096 ≤ bits (lock_page s a).page_bitmap =
        subst (λ z. a / 4096 ≤ mul64 z 8) (sym m.size) p in
      let now : taken (lock_page s a) (a / 4096) ≡ true = ground (arith, m.bit (a / 4096)) in
      let q = free_page_in (lock_page s a) a p' now in
      let l = lock_page_in s a p e in
      let free = ap (λ t. t.free_memory) l in
      let used = ap (λ t. t.used_memory) l in
      (
        ap (λ t. t.page_bitmap) q
            ∙ ap (λ t. (Bitmap.set t.page_bitmap (a / 4096) false).0) l
            ∙ set-set_restores s.page_bitmap (a / 4096) h e,
        omega (arith, ap (λ t. t.free_memory) q),
        omega (arith, ap (λ t. t.used_memory) q),
        ap (λ t. t.reserved_memory) q ∙ ap (λ t. t.reserved_memory) l,
      )
]
