-- ===== src/PageFrames/Boot.antt =====
-- src/paging/page_frame_allocator.cpp and src/memory/memory.cpp: how the allocator is set up from the boot
-- loader's memory map, which is a parameter.
use fox_os_kernel.Prelude.{
  ℕ, ◌+◌, ◌*◌, ◌/◌, ◌%◌, ◌^◌, ◌<◌, ◌≡◌, refl, sym, ap, subst, inl, inr, Bool, true, false, ◌&&◌,
  List, [], ◌∷◌, arith, ltb, if◌then◌else◌, Bool-cases, add64, update, for_range,
}
use fox_os_kernel.Bitmap.{Bitmap}
use fox_os_kernel.Bitmap.Laws.{IsBytes}
use fox_os_kernel.PageFrames.{Allocator, lock_pages, reserve_pages, unreserve_pages}
use fox_os_kernel.PageFrames.History.{locks, reserves, unreserves, step, step-Balanced}
use fox_os_kernel.PageFrames.Accounting.{Balanced, pages_taken}

-- `stivale2_mmap_entry`; `is_usable` is `type == STIVALE2_MMAP_USABLE`.
pub record MapEntry : Type 0 where
  pub base : ℕ
  pub length : ℕ
  pub is_usable : Bool

unfoldable pub sum_lengths : ℕ → List MapEntry → ℕ
sum_lengths total [] = total
sum_lengths total (e ∷ entries) = sum_lengths (add64 total e.length) entries

-- `get_memory_size`, with its static variable: the size and the variable afterwards.
unfoldable pub get_memory_size : List MapEntry → ℕ → ℕ × ℕ
unfolding sum_lengths
get_memory_size entries known =
    if ltb 0 known then (known, known) else (sum_lengths known entries, sum_lengths known entries)

-- The first of the longest usable entries; 0 is `NULL`.
unfoldable pub largest_segment : ℕ × ℕ → List MapEntry → ℕ × ℕ
largest_segment best [] = best
largest_segment best (e ∷ entries) =
    largest_segment (if e.is_usable && ltb best.1 e.length then (e.base, e.length) else best)
      entries

-- `memset(start, value, num)`
unfoldable pub memset : ℕ → ℕ → ℕ → (ℕ → ℕ) → ℕ → ℕ
memset start value num mem = for_range num 0 (λ i m. update m (add64 start i) (value % 256)) mem

-- The bitmap lies where the memory holds `memory`.
unfoldable pub init_bitmap : ℕ → (ℕ → ℕ) → Bitmap
init_bitmap size memory = record { size = size; buffer = λ i. if ltb i size then 0 else memory i }

unfoldable pub unreserve_usable : Allocator → List MapEntry → Allocator
unreserve_usable s [] = s
unreserve_usable s (e ∷ entries) =
    let next = if e.is_usable then unreserve_pages s e.base (e.length / 0x1000 + 1) else s in
    unreserve_usable next entries

-- The state that the loops over the pages begin with.
unfoldable pub emptied : ℕ → (ℕ → ℕ) → Allocator → Allocator
unfolding init_bitmap
emptied memory_size memory s = record s {
  page_bitmap = init_bitmap (memory_size / 4096 / 8 + 1) memory;
  free_memory = memory_size;
}

-- `buffer` is the address of the bitmap.
unfoldable pub reserve_all : ℕ → ℕ → List MapEntry → Allocator → Allocator
unfolding unreserve_usable
reserve_all memory_size buffer entries s =
    let reserved = reserve_pages s 0 (memory_size / 4096 + 1) in
    let low = reserve_pages (unreserve_usable reserved entries) 0 0x100 in
    lock_pages low buffer ((memory_size / 4096 / 8 + 1) / 4096 + 1)

-- The memory is read at the address that the bitmap gets. `initialized` is set afterwards.
unfoldable pub read_efi_memory_map : Bool → List MapEntry → ℕ → (ℕ → ℕ → ℕ) → Allocator → Allocator
unfolding get_memory_size largest_segment emptied reserve_all
read_efi_memory_map initialized entries known memory s =
    let size = (get_memory_size entries known).0 in
    let buffer = (largest_segment (0, 0) entries).0 in
    if initialized then s else reserve_all size buffer entries (emptied size (memory buffer) s)

module _ (total cover : ℕ) where
  unreserves-Balanced :
      (b : Bool) (s : Allocator) (a n : ℕ)
      → Balanced total cover s
      → Balanced total cover (if b then unreserve_pages s a n else s)
  unfolding step
  unreserves-Balanced true s a n v = step-Balanced total cover s (unreserves a n) v
  unreserves-Balanced false s a n v = v

  unreserve_usable-Balanced :
      (entries : List MapEntry) (s : Allocator)
      → Balanced total cover s
      → Balanced total cover (unreserve_usable s entries)
  unfolding unreserve_usable
  unreserve_usable-Balanced [] s v = v
  unreserve_usable-Balanced (e ∷ entries) s v =
      unreserve_usable-Balanced entries _
        (unreserves-Balanced e.is_usable s e.base (e.length / 0x1000 + 1) v)

  reserve_all-Balanced :
      (size buffer : ℕ) (entries : List MapEntry) (s : Allocator)
      → Balanced total cover s
      → Balanced total cover (reserve_all size buffer entries s)
  unfolding reserve_all step
  reserve_all-Balanced size buffer entries s v =
      let reserved = reserve_pages s 0 (size / 4096 + 1) in
      let low = reserve_pages (unreserve_usable reserved entries) 0 0x100 in
      step-Balanced total cover low (locks buffer ((size / 4096 / 8 + 1) / 4096 + 1)) (
        step-Balanced total cover (unreserve_usable reserved entries) (reserves 0 0x100) (
          unreserve_usable-Balanced entries reserved
            (step-Balanced total cover s (reserves 0 (size / 4096 + 1)) v)))

pub emptied-IsBytes :
    (size : ℕ) (memory : ℕ → ℕ) (s : Allocator)
    → ((i : ℕ) → memory i < 256)
    → IsBytes (emptied size memory s).page_bitmap
unfolding emptied
emptied-IsBytes size memory s bytes i = elim (Bool-cases (ltb i (size / 4096 / 8 + 1))) [
  | inl e ↦ subst (λ b. (if b then 0 else memory i) < 256) (sym e) (omega arith)
  | inr e ↦ subst (λ b. (if b then 0 else memory i) < 256) (sym e) (bytes i)
]

emptied_sum :
    (size : ℕ) (memory : ℕ → ℕ) (s : Allocator)
    → s.used_memory ≡ 0
    → s.reserved_memory ≡ 0
    → ((emptied size memory s).free_memory
          + (emptied size memory s).used_memory
          + (emptied size memory s).reserved_memory)
        % 2 ^ 64
      ≡ size % 2 ^ 64
unfolding emptied
emptied_sum size memory s used reserved = ap (λ n. n % 2 ^ 64) (omega (arith, used, reserved))

emptied_cover :
    (size : ℕ) (memory : ℕ → ℕ) (s : Allocator) (n : ℕ)
    → ((emptied size memory s).free_memory + 4096 * n) % 2 ^ 64 ≡ (size + 4096 * n) % 2 ^ 64
unfolding emptied
emptied_cover size memory s n = refl

-- Memory of bytes, and an allocator whose counters of used and reserved memory are still 0: after
-- `read_EFI_memory_map`, whatever the memory map is, the free, the used and the reserved memory add
-- up to the size of the memory, and the free memory and the pages whose bit is set to as much as at
-- the cleared bitmap, both modulo 2 ^ 64.
pub read_efi_memory_map-sums :
    (entries : List MapEntry) (known : ℕ) (memory : ℕ → ℕ → ℕ) (s : Allocator)
    → ((a i : ℕ) → memory a i < 256)
    → s.used_memory ≡ 0
    → s.reserved_memory ≡ 0
    → let r = read_efi_memory_map false entries known memory s in
      let size = (get_memory_size entries known).0 in
      let cleared = emptied size (memory (largest_segment (0, 0) entries).0) s in
      ((r.free_memory + r.used_memory + r.reserved_memory) % 2 ^ 64 ≡ size % 2 ^ 64)
      × ((r.free_memory + 4096 * pages_taken r) % 2 ^ 64
          ≡ (size + 4096 * pages_taken cleared) % 2 ^ 64)
unfolding read_efi_memory_map
read_efi_memory_map-sums entries known memory s bytes used reserved =
    let size = (get_memory_size entries known).0 in
    let buffer = (largest_segment (0, 0) entries).0 in
    let cleared = emptied size (memory buffer) s in
    let v =
      reserve_all-Balanced (size % 2 ^ 64) ((size + 4096 * pages_taken cleared) % 2 ^ 64) size
        buffer entries cleared
        (record {
          bytes = emptied-IsBytes size (memory buffer) s (bytes buffer);
          counters = emptied_sum size (memory buffer) s used reserved;
          bitmap = emptied_cover size (memory buffer) s (pages_taken cleared);
        }) in
    (v.counters, v.bitmap)
