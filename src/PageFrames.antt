-- ===== src/PageFrames.antt =====
-- src/paging/page_frame_allocator.cpp: the physical page allocator. Its globals and its bitmap are
-- the record `Allocator`; counters are uint64_t, and `NULL` is 0.
pub mod Search
pub mod Ops
pub mod Accounting
pub mod Requests
pub mod History
pub mod Boot
pub mod Booted
pub mod Runs
use fox_os_kernel.Prelude.{
  ℕ, zero, suc, ◌+◌, ◌-◌, ◌*◌, ◌/◌, ◌%◌, ◌^◌, ◌<◌, Bool, true, false, Option, none, some, ltb, ◌==◌,
  if◌then◌else◌, set, add64, sub64, mul64, for_range,
}
use fox_os_kernel.Bitmap.{Bitmap, bits}
use fox_os_kernel.Bitmap

pub record Allocator : Type 0 where
  pub page_bitmap : Bitmap
  pub free_memory : ℕ
  pub reserved_memory : ℕ
  pub used_memory : ℕ
  pub page_bitmap_index : ℕ

-- `t * 4096` for an `int t`: the product wraps at 32 bits and is sign-extended.
abbrev pub page_offset : ℕ → ℕ
page_offset t = let w : ℕ = t * 4096 % 2 ^ 32 in if ltb w (2 ^ 31) then w else w + (2 ^ 64 - 2 ^ 32)

-- `x * 4096` for a `uint64_t x`
abbrev pub page_address : ℕ → ℕ
page_address x = mul64 x 4096

abbrev pub taken : Allocator → ℕ → Bool
taken s x = Bitmap.get s.page_bitmap x

pub lock_page : Allocator → ℕ → Allocator
lock_page s address =
    let index = address / 4096 in
    let (b, done) = Bitmap.set s.page_bitmap index true in
    if taken s index
    then s
    else if done
    then record s {
      page_bitmap = b;
      free_memory = sub64 s.free_memory 4096;
      used_memory = add64 s.used_memory 4096;
    }
    else record s { page_bitmap = b }

pub free_page : Allocator → ℕ → Allocator
free_page s address =
    let index = address / 4096 in
    let (b, done) = Bitmap.set s.page_bitmap index false in
    if taken s index
    then if done
      then record s {
        page_bitmap = b;
        free_memory = add64 s.free_memory 4096;
        used_memory = sub64 s.used_memory 4096;
        page_bitmap_index = if ltb index s.page_bitmap_index then index else s.page_bitmap_index;
      }
      else record s { page_bitmap = b }
    else s

pub reserve_page : Allocator → ℕ → Allocator
reserve_page s address =
    let index = address / 4096 in
    let (b, done) = Bitmap.set s.page_bitmap index true in
    if taken s index
    then s
    else if done
    then record s {
      page_bitmap = b;
      free_memory = sub64 s.free_memory 4096;
      reserved_memory = add64 s.reserved_memory 4096;
    }
    else record s { page_bitmap = b }

pub unreserve_page : Allocator → ℕ → Allocator
unreserve_page s address =
    let index = address / 4096 in
    let (b, done) = Bitmap.set s.page_bitmap index false in
    if taken s index
    then if done
      then record s {
        page_bitmap = b;
        free_memory = add64 s.free_memory 4096;
        reserved_memory = sub64 s.reserved_memory 4096;
        page_bitmap_index = if ltb index s.page_bitmap_index then index else s.page_bitmap_index;
      }
      else record s { page_bitmap = b }
    else s

-- `for (int t = 0; t < page_count; t++) op(address + t * 4096)`
pub each_page : (Allocator → ℕ → Allocator) → Allocator → ℕ → ℕ → Allocator
unfolding for_range
each_page op s address page_count =
    for_range page_count 0 (λ t s'. op s' (add64 address (page_offset t))) s

pub lock_pages : Allocator → ℕ → ℕ → Allocator
unfolding each_page lock_page
lock_pages = each_page lock_page

pub free_pages : Allocator → ℕ → ℕ → Allocator
unfolding each_page free_page
free_pages = each_page free_page

pub reserve_pages : Allocator → ℕ → ℕ → Allocator
unfolding each_page reserve_page
reserve_pages = each_page reserve_page

pub unreserve_pages : Allocator → ℕ → ℕ → Allocator
unfolding each_page unreserve_page
unreserve_pages = each_page unreserve_page

-- The first page of `i, i + 1, …` (`n` of them) whose bit is clear.
pub find_free : Bitmap → ℕ → ℕ → Option ℕ
find_free b i zero = none
find_free b i (suc n) = if Bitmap.get b i then find_free b (i + 1) n else some i

-- The first loop of `request_page` and of `request_pages`.
pub rewind_index : Allocator → Allocator
rewind_index s = elim (find_free s.page_bitmap 0 s.page_bitmap_index) [
  | none ↦ s
  | some i ↦ record s { page_bitmap_index = i }
]

lock_found : Allocator → Option ℕ → ℕ × Allocator
lock_found s none = (0, s)
lock_found s (some x) = (page_address x, lock_page s (page_address x))

pub request_page : Allocator → ℕ × Allocator
unfolding find_free rewind_index lock_found lock_page
request_page s =
    let r = rewind_index s in
    lock_found r
      (find_free r.page_bitmap r.page_bitmap_index (bits r.page_bitmap - r.page_bitmap_index))

-- `for (int i = 0; i < amount; i++) if (page_bitmap[x + i] == true) goto next;`
pub all_free : Bitmap → ℕ → ℕ → Bool
all_free b x zero = true
all_free b x (suc n) = if Bitmap.get b (x % 2 ^ 64) then false else all_free b (x + 1) n

-- The second loop of `request_pages`; `fuel` bounds the rounds.
pub find_run : Bitmap → ℕ → ℕ → ℕ → Option ℕ
unfolding all_free
find_run b amount x zero = none
find_run b amount x (suc fuel) =
    let used = Bitmap.get b x in
    let rest = find_run b amount (if used then x + 1 else x + amount + 1) fuel in
    if ltb x (bits b)
    then if used then rest else if all_free b x amount then some x else rest
    else none

lock_run : Allocator → ℕ → Option ℕ → ℕ × Allocator
lock_run s amount none = (0, s)
lock_run s amount (some x) = (page_address x, lock_pages s (page_address x) amount)

pub request_pages : Allocator → ℕ → ℕ × Allocator
unfolding rewind_index find_run lock_run lock_pages
request_pages s amount =
    let r = rewind_index s in
    lock_run r amount
      (find_run r.page_bitmap amount r.page_bitmap_index (bits r.page_bitmap - r.page_bitmap_index))
