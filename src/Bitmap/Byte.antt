-- ===== src/Bitmap/Byte.antt =====
-- The byte operations inside src/bitmap.cpp.
use fox_os_kernel.Prelude.{
  ℕ, ◌-◌, ◌/◌, ◌^◌, ◌<◌, ◌≡◌, refl, Bool, true, false, ◌||◌, bit_and, bit_or, ltb, ◌==◌,
  if◌then◌else◌, all_below, all_below_sound, arith, ltb→lt,
}

-- `0b10000000 >> bitIndex`
abbrev pub bit_indexer : ℕ → ℕ
bit_indexer i = 0x80 / 2 ^ i

-- `(byte & bitIndexer) > 0`
unfoldable pub test_bit : ℕ → ℕ → Bool
test_bit byte i = ltb 0 (bit_and byte (bit_indexer i))

-- `byte &= ~bitIndexer; if (value) byte |= bitIndexer;`
pub put_bit : ℕ → ℕ → Bool → ℕ
put_bit byte i value =
    let cleared = bit_and byte (0xff - bit_indexer i) in
    if value then bit_or cleared (bit_indexer i) else cleared

same : Bool → Bool → Bool
same true b = b
same false true = false
same false false = true

same_eq : (a b : Bool) → same a b ≡ true → a ≡ b
unfolding same
same_eq a b h = ground arith

-- Every byte and every bit index, by evaluation.
all_bits : (ℕ → ℕ → Bool) → Bool
unfolding all_below
all_bits p = all_below 256 λ x. all_below 8 (p x)

all_bits_sound : (p : ℕ → ℕ → Bool) (x i : ℕ) → all_bits p ≡ true → x < 256 → i < 8 → p x i ≡ true
unfolding all_bits
all_bits_sound p x i h hx hi =
    all_below_sound 8 (p x) i (all_below_sound 256 (λ y. all_below 8 (p y)) x h hx) hi

reads_back : Bool → ℕ → ℕ → ℕ → Bool
unfolding same test_bit put_bit
reads_back v x i j = same (test_bit (put_bit x i v) j) (if i == j then v else test_bit x j)

reads_all_back : Bool → ℕ → ℕ → Bool
unfolding reads_back all_below
reads_all_back v x i = all_below 8 (reads_back v x i)

reads_back_holds : (v : Bool) → all_bits (reads_all_back v) ≡ true
unfolding all_bits reads_all_back
reads_back_holds true = refl
reads_back_holds false = refl

-- Writing a bit of a byte changes that bit and no other.
pub test_bit-put_bit :
    (x i j : ℕ) (v : Bool)
    → x < 256
    → i < 8
    → j < 8
    → test_bit (put_bit x i v) j ≡ (if i == j then v else test_bit x j)
unfolding reads_all_back
test_bit-put_bit x i j v hx hi hj = same_eq _ _ (
    all_below_sound 8 (reads_back v x i) j
      (all_bits_sound (reads_all_back v) x i (reads_back_holds v) hx hi) hj)

stays_byte : Bool → ℕ → ℕ → Bool
unfolding put_bit
stays_byte v x i = ltb (put_bit x i v) 256

stays_byte_holds : (v : Bool) → all_bits (stays_byte v) ≡ true
unfolding all_bits stays_byte
stays_byte_holds true = refl
stays_byte_holds false = refl

pub put_bit-lt : (x i : ℕ) (v : Bool) → x < 256 → i < 8 → put_bit x i v < 256
unfolding stays_byte
put_bit-lt x i v hx hi = ltb→lt _ _ (all_bits_sound (stays_byte v) x i (stays_byte_holds v) hx hi)

-- Setting a clear bit and clearing it again gives the byte back.
restores : ℕ → ℕ → Bool
unfolding test_bit put_bit
restores x i = test_bit x i || put_bit (put_bit x i true) i false == x

restores_hold : all_bits restores ≡ true
unfolding all_bits restores
restores_hold = refl

pub put_bit_restores :
    (x i : ℕ) → x < 256 → i < 8 → test_bit x i ≡ false → put_bit (put_bit x i true) i false ≡ x
unfolding restores
put_bit_restores x i hx hi h = ground (arith, all_bits_sound restores x i restores_hold hx hi)
