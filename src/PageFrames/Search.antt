-- ===== src/PageFrames/Search.antt =====
-- The searches of `request_page` and `request_pages` in src/paging/page_frame_allocator.cpp.
use fox_os_kernel.Prelude.{
  ℕ, zero, suc, ◌+◌, ◌%◌, ◌^◌, ◌≤◌, ◌<◌, ◌≡◌, refl, sym, ap, inl, inr, true, false, Option, none,
  some, arith, ℕ_discrete, ltb→lt, le→ltb, Bool-cases,
}
use fox_os_kernel.Bitmap
use fox_os_kernel.Bitmap.{Bitmap, bits}
use fox_os_kernel.PageFrames.{find_free, all_free, find_run}

-- `n` pages from `i` on are searched; the result is the first whose bit is clear.
abbrev pub IsFirstFree : Bitmap → ℕ → ℕ → Option ℕ → Type 0
IsFirstFree b i n none = (j : ℕ) → i ≤ j → j < i + n → Bitmap.get b j ≡ true
IsFirstFree b i n (some x) =
    (i ≤ x)
    × (x < i + n)
    × (Bitmap.get b x ≡ false)
    × ((j : ℕ) → i ≤ j → j < x → Bitmap.get b j ≡ true)

IsFirstFree-after :
    (b : Bitmap) (i n : ℕ) (r : Option ℕ)
    → Bitmap.get b i ≡ true
    → IsFirstFree b (i + 1) n r
    → IsFirstFree b i (suc n) r
IsFirstFree-after b i n none e f =
    λ j l u. elim (ℕ_discrete i j) [ yes p ↦ rw (← p) e | no p ↦ f j (omega arith) (omega arith) ]
IsFirstFree-after b i n (some x) e f = (
  omega arith,
  omega arith,
  f.2,
  λ j l u. elim (ℕ_discrete i j) [ yes p ↦ rw (← p) e | no p ↦ f.3 j (omega arith) u ],
)

pub find_free-IsFirstFree : (b : Bitmap) (i n : ℕ) → IsFirstFree b i n (find_free b i n)
unfolding find_free
find_free-IsFirstFree b i zero = λ j l u. absurd (omega arith)
find_free-IsFirstFree b i (suc n) = elim (Bool-cases (Bitmap.get b i)) [
  | inl e ↦
      rw e (IsFirstFree-after b i n (find_free b (i + 1) n) e (find_free-IsFirstFree b (i + 1) n))
  | inr e ↦ rw e (omega arith, omega arith, e, λ j l u. absurd (omega arith))
]

pub all_free_lem :
    (b : Bitmap) (x n : ℕ)
    → all_free b x n ≡ true
    → x + n ≤ 2 ^ 64
    → (j : ℕ) → x ≤ j
    → j < x + n
    → Bitmap.get b j ≡ false
unfolding all_free
all_free_lem b x zero h w j l u = absurd (omega arith)
all_free_lem b x (suc n) h w j l u = elim (ℕ_discrete x j) [
  | yes p ↦ ground (arith, ap (Bitmap.get b) {x = x % 2 ^ 64} {y = j})
  | no p ↦ all_free_lem b (x + 1) n (ground arith) (omega arith) j (omega arith) (omega arith)
]

-- What `find_run` finds starts inside the bitmap and passes the test of the inner loop.
pub find_run_lem :
    (b : Bitmap) (amount x fuel r : ℕ)
    → find_run b amount x fuel ≡ some r
    → (x ≤ r) × (r < bits b) × (Bitmap.get b r ≡ false) × (all_free b r amount ≡ true)
unfolding find_run
find_run_lem b amount x zero r h = cc
find_run_lem b amount x (suc fuel) r h = ground (
  arith,
  find_run_lem b amount (x + 1) fuel r,
  find_run_lem b amount (x + amount + 1) fuel r,
  ltb→lt x (bits b),
)

find_run_past : (b : Bitmap) (amount x fuel : ℕ) → bits b ≤ x → find_run b amount x fuel ≡ none
unfolding find_run
find_run_past b amount x zero h = refl
find_run_past b amount x (suc fuel) h = rw (le→ltb x (bits b) h)

-- The search for a run ends by its own test when there is a round for each bit from `x` on: any two
-- amounts of fuel that suffice for that give one answer.
pub find_run_fuel :
    (b : Bitmap) (amount x f g : ℕ)
    → bits b ≤ x + f
    → bits b ≤ x + g
    → find_run b amount x f ≡ find_run b amount x g
unfolding find_run
find_run_fuel b amount x zero g h k = sym (find_run_past b amount x g (omega arith))
find_run_fuel b amount x (suc f) zero h k = find_run_past b amount x (suc f) (omega arith)
find_run_fuel b amount x (suc f) (suc g) h k = ground (
  arith,
  find_run_fuel b amount (x + 1) f g (omega arith) (omega arith),
  find_run_fuel b amount (x + amount + 1) f g (omega arith) (omega arith),
)
