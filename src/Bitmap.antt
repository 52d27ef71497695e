-- ===== src/Bitmap.antt =====
-- src/bitmap.cpp: a bitmap over memory. The byte at an offset from `buffer` is `buffer offset`; the
-- offsets from `size` on are whatever lies behind the bitmap.
pub mod Byte
pub mod Laws
use fox_os_kernel.Prelude.{
  ℕ, ◌+◌, ◌-◌, ◌*◌, ◌/◌, ◌%◌, Bool, true, false, ltb, if◌then◌else◌, mul64, update,
}
use Byte.{test_bit, put_bit}

pub record Bitmap : Type 0 where
  pub size : ℕ
  pub buffer : ℕ → ℕ

-- `size * 8`
abbrev pub bits : Bitmap → ℕ
bits b = mul64 b.size 8

unfoldable pub get : Bitmap → ℕ → Bool
get b index = if ltb (bits b) index then false else test_bit (b.buffer (index / 8)) (index % 8)

unfoldable pub set : Bitmap → ℕ → Bool → Bitmap × Bool
set b index value = if ltb (bits b) index then (b, false) else (
  record b {
    buffer = update b.buffer (index / 8) (put_bit (b.buffer (index / 8)) (index % 8) value);
  },
  true,
)
