-- ===== src/Bitmap/Laws.antt =====
-- What a client of the bitmap of src/bitmap.cpp may use.
use fox_os_kernel.Prelude.{
  ℕ, ◌*◌, ◌/◌, ◌%◌, ◌^◌, ◌≤◌, ◌<◌, ◌≡◌, refl, sym, ap, ◌∙◌, fun_ext, Bool, true, false, arith,
  dec_lt, ℕ_discrete, ◌==◌, if◌then◌else◌, lt→ltb, le→ltb, ==_refl, ne→==, update, update_self,
  update_ne,
}
use fox_os_kernel.Bitmap.Byte.{test_bit, put_bit, test_bit-put_bit, put_bit-lt, put_bit_restores}
use fox_os_kernel.Bitmap.{Bitmap, bits, get, set}

-- Every cell of the memory holds a byte.
abbrev pub IsBytes : Bitmap → Type 0
IsBytes b = (i : ℕ) → b.buffer i < 256

same_place : (i j : ℕ) → i / 8 ≡ j / 8 → i % 8 ≡ j % 8 → i ≡ j
same_place i j p q = omega arith

read_back :
    (m : ℕ → ℕ) (i j : ℕ) (v : Bool)
    → ((k : ℕ) → m k < 256)
    → test_bit (update m (i / 8) (put_bit (m (i / 8)) (i % 8) v) (j / 8)) (j % 8)
      ≡ (if i == j then v else test_bit (m (j / 8)) (j % 8))
read_back m i j v h = elim (ℕ_discrete (i / 8) (j / 8)) [
  | yes e ↦
      rw
        (
          e,
          ==_refl,
          test_bit-put_bit (m (j / 8)) (i % 8) (j % 8) v (h (j / 8)) (omega arith) (omega arith),
        )
        (ground (arith, same_place i j e))
  | no n ↦ rw (update_ne m (i / 8) (j / 8) _ n) (ground arith)
]

pub get_in : (b : Bitmap) (i : ℕ) → i ≤ bits b → get b i ≡ test_bit (b.buffer (i / 8)) (i % 8)
unfolding get
get_in b i p = rw (le→ltb (bits b) i p)

pub get_out : (b : Bitmap) (i : ℕ) → bits b < i → get b i ≡ false
unfolding get
get_out b i p = rw (lt→ltb (bits b) i p)

abbrev pub written : Bitmap → ℕ → Bool → Bitmap
written b i v = record b { buffer = update b.buffer (i / 8) (put_bit (b.buffer (i / 8)) (i % 8) v) }

pub set_in : (b : Bitmap) (i : ℕ) (v : Bool) → i ≤ bits b → set b i v ≡ (written b i v, true)
unfolding set
set_in b i v p = rw (le→ltb (bits b) i p)

get-written :
    (b : Bitmap) (i j : ℕ) (v : Bool)
    → IsBytes b
    → i ≤ bits b
    → get (written b i v) j ≡ (if i == j then v else get b j)
get-written b i j v h p = elim (dec_lt (bits b) j) [
  | yes out ↦ rw (get_out (written b i v) j out, ne→== i j (omega arith)) (sym (get_out b j out))
  | no inn ↦
      rw (get_in (written b i v) j (omega arith), get_in b j (omega arith))
        (read_back b.buffer i j v h)
]

-- A bitmap of bytes and an index that passes the guard of `set`: after `set`, `get` gives the new
-- value at that index and the old one at every other.
pub get-set :
    (b : Bitmap) (i j : ℕ) (v : Bool)
    → IsBytes b
    → i ≤ bits b
    → get (set b i v).0 j ≡ (if i == j then v else get b j)
get-set b i j v h p = rw (set_in b i v p) (get-written b i j v h p)

pub set_out : (b : Bitmap) (i : ℕ) (v : Bool) → bits b < i → set b i v ≡ (b, false)
unfolding set
set_out b i v p = rw (lt→ltb (bits b) i p)

pub size-set : (b : Bitmap) (i : ℕ) (v : Bool) → (set b i v).0.size ≡ b.size
unfolding set
size-set b i v = ground arith

pub set-IsBytes : (b : Bitmap) (i : ℕ) (v : Bool) → IsBytes b → IsBytes (set b i v).0
unfolding set
set-IsBytes b i v h k =
    ground (arith, h k, put_bit-lt (b.buffer (i / 8)) (i % 8) v (h (i / 8)) (omega arith))

restored :
    (b : Bitmap) (i : ℕ)
    → IsBytes b
    → i ≤ bits b
    → get b i ≡ false
    → written (written b i true) i false ≡ b
restored b i h p free =
    ap (λ m. record b { buffer = m })
      (fun_ext λ k. ground (
        arith,
        put_bit_restores (b.buffer (i / 8)) (i % 8) (h (i / 8)) (omega arith)
            (sym (get_in b i p) ∙ free),
      ))

-- A bitmap of bytes and an index whose bit reads as clear: setting the bit and clearing it again
-- restores the memory.
pub set-set_restores :
    (b : Bitmap) (i : ℕ) → IsBytes b → get b i ≡ false → (set (set b i true).0 i false).0 ≡ b
set-set_restores b i h free = elim (dec_lt (bits b) i) [
  | yes out ↦ rw (set_out b i true out) (rw (set_out b i false out) refl)
  | no inn ↦
      rw (set_in b i true (omega arith))
        (rw (set_in (written b i true) i false (omega arith)) (restored b i h (omega arith) free))
]

-- A bitmap of fewer than 2 ^ 61 bytes: `set` at the index `size * 8`, one behind the last bit,
-- reports success, and it writes the byte behind the bitmap.
pub set_past_end :
    (b : Bitmap) (v : Bool)
    → b.size < 2 ^ 61
    → ((set b (8 * b.size) v).1 ≡ true)
      × ((set b (8 * b.size) v).0.buffer b.size ≡ put_bit (b.buffer b.size) 0 v)
unfolding set
set_past_end b v h =
    let e : 8 * b.size / 8 ≡ b.size = omega arith in
    let z : 8 * b.size % 8 ≡ 0 = omega arith in
    rw (le→ltb (bits b) (8 * b.size) (omega arith), e, z) (refl, update_self b.buffer b.size _)
