-- ===== src/PageFrames/History.antt =====
-- Any history of calls of src/paging/page_frame_allocator.cpp.
use fox_os_kernel.Prelude.{
  ℕ, ◌+◌, ◌*◌, ◌%◌, ◌^◌, ◌≡◌, refl, inl, inr, Option, none, some, List, [], ◌∷◌, arith,
  Option-cases, add64, for_range_inv,
}
use fox_os_kernel.Bitmap.Laws.{IsBytes}
use fox_os_kernel.PageFrames.{
  Allocator, page_address, page_offset, each_page, lock_page, free_page, lock_pages, free_pages,
  reserve_page, unreserve_page, reserve_pages, unreserve_pages, find_free, rewind_index, lock_found,
  lock_run, request_page, request_pages,
}
use fox_os_kernel.PageFrames.Accounting.{
  Balanced, lock_page-Balanced, free_page-Balanced, reserve_page-Balanced, unreserve_page-Balanced,
  Balanced-index, pages_taken,
}

pub data Call : Type 0 where
  locks frees reserves unreserves : ℕ → ℕ → Call
  requests : Call
  requests_run : ℕ → Call

-- The public operations; each is given its address and page count.
unfoldable pub step : Allocator → Call → Allocator
step s (locks a n) = lock_pages s a n
step s (frees a n) = free_pages s a n
step s (reserves a n) = reserve_pages s a n
step s (unreserves a n) = unreserve_pages s a n
step s requests = (request_page s).1
step s (requests_run n) = (request_pages s n).1

pub run : Allocator → List Call → Allocator
run s [] = s
run s (c ∷ cs) = run (step s c) cs

module _ (total cover : ℕ) where
  each_page-Balanced :
      (op : Allocator → ℕ → Allocator)
      → ((s : Allocator) (a : ℕ) → Balanced total cover s → Balanced total cover (op s a))
      → (s : Allocator) (a n : ℕ) → Balanced total cover s
      → Balanced total cover (each_page op s a n)
  unfolding each_page
  each_page-Balanced op keep s a n v =
      for_range_inv (λ k s'. Balanced total cover s') _ n 0 n (omega arith)
        (λ k s' lt w. keep s' (add64 a (page_offset k)) w) s v

  pub lock_pages-Balanced :
      (s : Allocator) (a n : ℕ) → Balanced total cover s → Balanced total cover (lock_pages s a n)
  unfolding lock_pages
  lock_pages-Balanced = each_page-Balanced lock_page (lock_page-Balanced total cover)

  rewind_index-Balanced :
      (s : Allocator) → Balanced total cover s → Balanced total cover (rewind_index s)
  unfolding rewind_index
  rewind_index-Balanced s v = elim (Option-cases (find_free s.page_bitmap 0 s.page_bitmap_index)) [
    | inl e ↦ rw (e, rewind_index) v
    | inr (i, e) ↦ rw (e, rewind_index) (Balanced-index total cover s i v)
  ]

  lock_found-Balanced :
      (s : Allocator) (f : Option ℕ)
      → Balanced total cover s
      → Balanced total cover (lock_found s f).1
  unfolding lock_found
  lock_found-Balanced s none v = v
  lock_found-Balanced s (some x) v = lock_page-Balanced total cover s (page_address x) v

  lock_run-Balanced :
      (s : Allocator) (n : ℕ) (f : Option ℕ)
      → Balanced total cover s
      → Balanced total cover (lock_run s n f).1
  unfolding lock_run
  lock_run-Balanced s n none v = v
  lock_run-Balanced s n (some x) v = lock_pages-Balanced s (page_address x) n v

  -- Every call keeps both sums.
  pub step-Balanced :
      (s : Allocator) (c : Call) → Balanced total cover s → Balanced total cover (step s c)
  unfolding step free_pages reserve_pages unreserve_pages request_page request_pages
  step-Balanced s (locks a n) v = lock_pages-Balanced s a n v
  step-Balanced s (frees a n) v =
      each_page-Balanced free_page (free_page-Balanced total cover) s a n v
  step-Balanced s (reserves a n) v =
      each_page-Balanced reserve_page (reserve_page-Balanced total cover) s a n v
  step-Balanced s (unreserves a n) v =
      each_page-Balanced unreserve_page (unreserve_page-Balanced total cover) s a n v
  step-Balanced s requests v = lock_found-Balanced (rewind_index s) _ (rewind_index-Balanced s v)
  step-Balanced s (requests_run n) v =
      lock_run-Balanced (rewind_index s) n _ (rewind_index-Balanced s v)

  pub run-Balanced :
      (s : Allocator) (cs : List Call) → Balanced total cover s → Balanced total cover (run s cs)
  unfolding run
  run-Balanced s [] v = v
  run-Balanced s (c ∷ cs) v = run-Balanced (step s c) cs (step-Balanced s c v)

-- From a bitmap of bytes, whatever operations of the allocator are called in whatever order: the
-- three counters keep their sum, and the free counter moves against the pages whose bit is set,
-- both modulo 2 ^ 64.
pub run_conserves :
    (s : Allocator) (cs : List Call)
    → IsBytes s.page_bitmap
    → let r = run s cs in
      ((r.free_memory + r.used_memory + r.reserved_memory) % 2 ^ 64
        ≡ (s.free_memory + s.used_memory + s.reserved_memory) % 2 ^ 64)
      × ((r.free_memory + 4096 * pages_taken r) % 2 ^ 64
          ≡ (s.free_memory + 4096 * pages_taken s) % 2 ^ 64)
run_conserves s cs h =
    let v =
      run-Balanced ((s.free_memory + s.used_memory + s.reserved_memory) % 2 ^ 64)
        ((s.free_memory + 4096 * pages_taken s) % 2 ^ 64) s cs
        (record { bytes = h; counters = refl; bitmap = refl }) in
    (v.counters, v.bitmap)
