-- ===== src/Examples/Memory.antt =====
-- The bitmap, the page allocator and the page tables at concrete inputs.
use fox_os_kernel.Prelude.{
  ℕ, ◌+◌, ◌*◌, ◌%◌, ◌^◌, ◌≡◌, refl, ◌≢◌, ◌⊎◌, true, false, some, List, [], ◌∷◌, arith, ◌==◌,
  if◌then◌else◌, add64,
}
use fox_os_kernel.Bitmap.{Bitmap, bits}
use fox_os_kernel.Bitmap.Laws.{IsBytes}
use fox_os_kernel.PageFrames.{Allocator, page_address, lock_pages, request_page, request_pages}
use fox_os_kernel.PageFrames.Ops.{MarksRange, lock_pages-MarksRange}
use fox_os_kernel.PageFrames.Requests.{Grants, Refuses, request_page_lem}
use fox_os_kernel.PageFrames.Runs.{GrantsRun, request_pages_lem}
use fox_os_kernel.PageFrames.Accounting.{pages_taken}
use fox_os_kernel.PageFrames.History.{Call, locks, requests, requests_run, run, run_conserves}
use fox_os_kernel.Heap.{Heap, found, header_size, malloc, round_up}
use fox_os_kernel.Heap.FirstFit.{Holds, first_fit, malloc-first_fit}
use fox_os_kernel.Paging.{Paging, next_table}
use fox_os_kernel.Paging.Entry.{present, get_flag, get_address}
use fox_os_kernel.Paging.Walk.{next_table_lem}

-- Sixteen pages, none of them taken.
abbrev bitmap : Bitmap
bitmap = record { size = 2; buffer = λ _. 0 }

abbrev machine : Allocator
machine = record {
  page_bitmap = bitmap;
  free_memory = 65536;
  reserved_memory = 0;
  used_memory = 0;
  page_bitmap_index = 0;
}

bitmap-IsBytes : IsBytes bitmap
bitmap-IsBytes = λ i. omega arith

bitmap_size : bits bitmap ≡ 16
bitmap_size = refl

request_page_example :
    ((x : ℕ) × Grants machine x (request_page machine)) ⊎ Refuses machine (request_page machine)
request_page_example = request_page_lem machine bitmap-IsBytes (omega (arith, bitmap_size))

request_pages_example :
    ((x : ℕ) × GrantsRun machine 2 x (request_pages machine 2))
    ⊎ ((request_pages machine 2).0 ≡ 0)
      × ((request_pages machine 2).1.page_bitmap ≡ machine.page_bitmap)
request_pages_example =
    request_pages_lem machine 2 bitmap-IsBytes (omega (arith, bitmap_size)) (omega arith)

-- The last four of these pages are behind the bitmap.
lock_pages_example : MarksRange true 13 8 machine (lock_pages machine (page_address 13) 8)
lock_pages_example = lock_pages-MarksRange machine 13 8 bitmap-IsBytes (omega arith) (omega arith)

abbrev calls : List Call
calls = locks 4096 2 ∷ requests ∷ requests_run 3 ∷ []

run_conserves_example :
    (((run machine calls).free_memory
          + (run machine calls).used_memory
          + (run machine calls).reserved_memory)
        % 2 ^ 64
      ≡ (machine.free_memory + machine.used_memory + machine.reserved_memory) % 2 ^ 64)
    × (((run machine calls).free_memory + 4096 * pages_taken (run machine calls)) % 2 ^ 64
        ≡ (machine.free_memory + 4096 * pages_taken machine) % 2 ^ 64)
run_conserves_example = run_conserves machine calls bitmap-IsBytes

abbrev tables : Paging
tables = record { allocator = machine; tables = λ _ _. 0 }

next_table_example :
    (get_flag ((next_table 8192 5 tables).1.tables 8192 5) present ≡ true)
    × (get_address ((next_table 8192 5 tables).1.tables 8192 5) * 2 ^ 12 % 2 ^ 64
        ≡ (next_table 8192 5 tables).0)
next_table_example =
    next_table_lem 8192 5 tables bitmap-IsBytes (omega (arith, bitmap_size)) (λ _ _. omega arith)

-- A segment of 64 bytes that is in use, and one of 128 bytes that is free.
abbrev two_segments : Heap
two_segments = record {
  hdr = λ a.
      if a == 4096
      then record { length = 64; next = 4192; last = 0; free = false }
      else record { length = 128; next = 0; last = 4096; free = true };
  bytes = λ _. 0;
  heap_start = 4096;
  heap_end = 8192;
  last_hdr = 4192;
  pml4 = 0;
  paging = tables;
}

rounded : round_up 0x10 40 ≢ 0
unfolding round_up
rounded = λ e. omega (arith, e)

first : first_fit two_segments.hdr (round_up 0x10 40) (4096 ∷ 4192 ∷ []) ≡ found 4192
unfolding round_up
first = refl

malloc_example :
    (h' : Heap) × (malloc 5 1 40 two_segments ≡ some (add64 4192 header_size, h'))
    × Holds h' 4192 (round_up 0x10 40)
malloc_example =
    malloc-first_fit two_segments 5 0 40 4192 (4096 ∷ 4192 ∷ [])
      (refl, (λ e. omega (arith, e)), (refl, refl)) (omega arith) rounded first
