-- ===== src/PageFrames/Booted.antt =====
-- src/paging/page_frame_allocator.cpp: which pages are taken once the memory map has been read.
use fox_os_kernel.Prelude.{
  ℕ, ◌+◌, ◌/◌, ◌%◌, ◌^◌, ◌≤◌, ◌<◌, ◌≡◌, Bool, false, ◌&&◌, ◌||◌, List, [], ◌∷◌, ltb, leb,
  if◌then◌else◌,
}
use fox_os_kernel.Bitmap.{Bitmap, bits}
use fox_os_kernel.Bitmap
use fox_os_kernel.Bitmap.Laws.{IsBytes}
use fox_os_kernel.PageFrames.{Allocator, taken}
use fox_os_kernel.PageFrames.Boot.{MapEntry}

-- Whether page `j` is one of the `n` pages from the page of `address` on.
abbrev pub in_pages : ℕ → ℕ → ℕ → Bool
in_pages address n j = leb (address / 4096) j && ltb j (address / 4096 + n)

-- Whether a usable entry has page `j`, or ends in front of it.
unfoldable pub is_listed : List MapEntry → ℕ → Bool
is_listed [] j = false
is_listed (e ∷ entries) j =
    e.is_usable && in_pages e.base (e.length / 4096 + 1) j || is_listed entries j

-- An address of a page whose next 2 GiB are below 2 ^ 64.
abbrev pub IsPlaced : ℕ → Type 0
IsPlaced address = (address % 4096 ≡ 0) × (address + 2 ^ 31 ≤ 2 ^ 64)

-- Every entry begins at such an address and is smaller than 2 GiB.
unfoldable pub ArePlaced : List MapEntry → Type 0
ArePlaced [] = Unit
ArePlaced (e ∷ entries) = IsPlaced e.base × (e.length < 2 ^ 31) × ArePlaced entries

-- The bits in front of the end of the bitmap change by `change`.
record Bits (change : ℕ → Bool → Bool) (s s' : Allocator) : Type 0 where
  size : s'.page_bitmap.size ≡ s.page_bitmap.size
  bytes : IsBytes s'.page_bitmap
  bit : (j : ℕ) → j < bits s.page_bitmap → taken s' j ≡ change j (taken s j)

abbrev marked : Bool → (ℕ → Bool) → ℕ → Bool → Bool
marked v mark j b = if mark j then v else b

abbrev entry_change : MapEntry → ℕ → Bool → Bool
entry_change e = marked false (λ j. e.is_usable && in_pages e.base (e.length / 4096 + 1) j)
