-- ===== src/Heap.antt =====
-- src/memory/heap.cpp: the kernel heap, a doubly linked list of segments. `hdr a` is the header that
-- stands at address `a`, `NULL` included, so that a store through a null pointer is a store like any
-- other; `bytes` are the payload bytes. A header takes 32 bytes.
pub mod FirstFit
use fox_os_kernel.Prelude.{
  ℕ, zero, suc, ◌/◌, ◌%◌, ◌^◌, ◌<◌, Bool, true, false, ◌&&◌, ◌||◌, Option, none, some, ltb, leb,
  ◌==◌, if◌then◌else◌, set, add64, sub64, mul64, update, for_range,
}
use fox_os_kernel.PageFrames.{request_page}
use fox_os_kernel.Paging.{Paging, map_memory}

pub record HeapSegHdr : Type 0 where
  pub length : ℕ
  pub next : ℕ
  pub last : ℕ
  pub free : Bool

pub record Heap : Type 0 where
  pub hdr : ℕ → HeapSegHdr
  pub bytes : ℕ → ℕ
  pub heap_start : ℕ
  pub heap_end : ℕ
  pub last_hdr : ℕ
  pub pml4 : ℕ
  pub paging : Paging

abbrev pub header_size : ℕ
header_size = 32

-- `*a = v`
abbrev pub put : Heap → ℕ → HeapSegHdr → Heap
put h a v = record h { hdr = update h.hdr a v }

-- `a->free = …` and so on, each a read and a store of the header at `a`.
abbrev pub set_free : Heap → ℕ → Bool → Heap
set_free h a v = put h a (record (h.hdr a) { free = v })

abbrev pub set_next : Heap → ℕ → ℕ → Heap
set_next h a v = put h a (record (h.hdr a) { next = v })

abbrev pub set_last : Heap → ℕ → ℕ → Heap
set_last h a v = put h a (record (h.hdr a) { last = v })

abbrev pub set_length : Heap → ℕ → ℕ → Heap
set_length h a v = put h a (record (h.hdr a) { length = v })

-- The stores of `combine_forward`, once its guards have passed.
pub absorb : Heap → ℕ → Heap
absorb h this =
    let next = (h.hdr this).next in
    let h1 = record h { last_hdr = if next == h.last_hdr then this else h.last_hdr } in
    let after = (h1.hdr next).next in
    let h2 = if after == 0 then h1 else set_last h1 after this in
    let h3 =
      set_length h2 this (add64 (add64 (h2.hdr this).length (h2.hdr next).length) header_size) in
    set_next h3 this (h3.hdr next).next

pub combine_forward : Heap → ℕ → Heap
unfolding absorb
combine_forward h this =
    let next = (h.hdr this).next in
    if next == 0 then h else if (h.hdr next).free then absorb h this else h

pub combine_backward : Heap → ℕ → Heap
unfolding combine_forward
combine_backward h this =
    let last = (h.hdr this).last in
    if last == 0 then h else if (h.hdr last).free then combine_forward h last else h

-- The stores of `split`: the rest of the segment becomes a segment of its own. First its header is
-- written and linked, then the length of the old one.
pub cut_links : Heap → ℕ → ℕ → ℕ → Heap
cut_links h this new rest_length =
    let h1 = set_last h (h.hdr this).next new in
    let h2 = set_next h1 new (h1.hdr this).next in
    let h3 = set_next h2 this new in
    let h4 = set_last h3 new this in
    let h5 = set_length h4 new rest_length in set_free h5 new (h5.hdr this).free

pub cut : Heap → ℕ → ℕ → ℕ → Heap
cut h this split_length rest_length =
    let new = add64 (add64 this split_length) header_size in
    let h7 = set_length (cut_links h this new rest_length) this split_length in
    record h7 { last_hdr = if h7.last_hdr == this then new else h7.last_hdr }

-- `int64_t split_seg_length < 0x10`: negative values have the top bit set.
pub split : Heap → ℕ → ℕ → Heap
split h this split_length =
    let rest_length = sub64 (sub64 (h.hdr this).length split_length) header_size in
    if ltb split_length 0x10 || (leb (2 ^ 63) rest_length || ltb rest_length 0x10)
    then h
    else cut h this split_length rest_length

pub free : Heap → ℕ → Heap
unfolding combine_forward combine_backward
free h address =
    let segment = sub64 address header_size in
    combine_backward (combine_forward (set_free h segment true) segment) segment

-- `g_page_table_manager.map_memory(heap_end, global_allocator.request_page()); heap_end += 0x1000`
pub map_page : Heap → Heap
map_page h =
    let (page, allocator) = request_page h.paging.allocator in
    record h {
      paging = map_memory h.pml4 h.heap_end page (record h.paging { allocator = allocator });
      heap_end = add64 h.heap_end 0x1000;
    }

unfoldable pub round_up : ℕ → ℕ → ℕ
round_up unit size = if ltb 0 (size % unit) then add64 (sub64 size (size % unit)) unit else size

pub expand_heap : Heap → ℕ → Heap
unfolding for_range combine_backward round_up map_page
expand_heap h requested =
    let length = round_up 0x1000 requested in
    let new = h.heap_end in
    let h1 = for_range (length / 0x1000) 0 (λ _ s. map_page s) h in
    let h2 = set_last (set_free h1 new true) new h1.last_hdr in
    let h3 = record (set_next h2 h2.last_hdr new) { last_hdr = new } in
    let h4 = set_length (set_next h3 new 0) new (sub64 length header_size) in
    combine_backward h4 new

-- What the `while` loop of `malloc` comes to: a segment that is large enough, the end of the list, or
-- the end of the fuel.
pub data Search : Type 0 where
  found : ℕ → Search
  exhausted : Search
  no_fuel : Search

pub find_segment : Heap → ℕ → ℕ → ℕ → Search
find_segment h size zero cur = no_fuel
find_segment h size (suc fuel) cur =
    let s = h.hdr cur in
    let rest = find_segment h size fuel s.next in
    if s.free && leb size s.length then found cur else if s.next == 0 then exhausted else rest

-- The two returns inside the loop: a longer segment is split first.
pub take_segment : Heap → ℕ → ℕ → Heap
take_segment h size cur =
    if ltb size (h.hdr cur).length
    then set_free (split h cur size) cur false
    else set_free h cur false

-- How a call of `malloc` ends after its loop; `again` is its call of itself on the expanded heap.
abbrev pub served : Heap → ℕ → Option (ℕ × Heap) → Search → Option (ℕ × Heap)
served h size again (found cur) = some (add64 cur header_size, take_segment h size cur)
served h size again exhausted = again
served h size again no_fuel = none

-- `fuel` bounds the walk along the list, `rounds` the calls of `malloc` on itself; `none` is the end
-- of either.
pub malloc_rounded : ℕ → ℕ → ℕ → Heap → Option (ℕ × Heap)
malloc_rounded fuel zero size h = none
malloc_rounded fuel (suc rounds) size h =
    served h size (malloc_rounded fuel rounds size (expand_heap h size))
      (find_segment h size fuel h.heap_start)

pub malloc : ℕ → ℕ → ℕ → Heap → Option (ℕ × Heap)
malloc fuel rounds requested h =
    let size = round_up 0x10 requested in
    if size == 0 then some (0, h) else malloc_rounded fuel rounds size h

-- `memcpy`
pub copy_bytes : Heap → ℕ → ℕ → ℕ → Heap
unfolding for_range
copy_bytes h dest src n =
    for_range n 0
      (λ i s. record s { bytes = update s.bytes (add64 dest i) (s.bytes (add64 src i)) }) h

pub realloc : ℕ → ℕ → ℕ → ℕ → ℕ → Heap → Option (ℕ × Heap)
unfolding malloc free copy_bytes
realloc fuel rounds ptr old_size size h =
    if size == 0
    then some (0, free h ptr)
    else if ptr == 0
    then malloc fuel rounds size h
    else if leb size old_size
    then some (ptr, h)
    else elim (malloc fuel rounds size h) [
      | none ↦ none
      | some (new, h') ↦
          if new == 0 then some (new, h') else some (new, free (copy_bytes h' new ptr old_size) ptr)
    ]

-- The pages are mapped first, then the first header is written.
pub initialize_heap : Heap → ℕ → ℕ → Heap
unfolding for_range map_page
initialize_heap h heap_address page_count =
    let h1 = for_range page_count 0 (λ _ s. map_page s) (record h { heap_end = heap_address }) in
    let length = mul64 page_count 0x1000 in
    record (put h1 heap_address
      (record { length = sub64 length header_size; next = 0; last = 0; free = true })) {
        heap_start = heap_address;
        heap_end = add64 heap_address length;
        last_hdr = heap_address;
      }
