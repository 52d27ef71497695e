-- ===== src/Prelude/Bits.antt =====
-- `&` and `|` of words that are split in a high and a low field, at every width.
use Prim.Native.Nat.{
  ℕ, zero, suc, ◌+◌, ◌-◌, ◌*◌, ◌/◌, ◌%◌, ◌^◌, ◌≤◌, ◌<◌, min, max, digits, bit_and, bit_or,
  bit_and-bitwise, bit_or-bitwise,
}
use mathlib.Core.Path.{◌≡◌, refl, ap, ◌∙◌}
use native.Mathlib.Nat.{pow-suc, one-le-pow}
use native.Mathlib.Omega.{arith}

-- How many rounds are allowed does not matter, once there are enough.
enough_rounds :
    (rest : ℕ → ℕ) (join : ℕ → ℕ → ℕ) (f g a b : ℕ)
    → a ≤ min f g
    → digits rest join f a b ≡ digits rest join g a b
enough_rounds rest join zero zero a b h = refl
enough_rounds rest join (suc f) zero zero b h = refl
enough_rounds rest join zero (suc g) zero b h = refl
enough_rounds rest join (suc f) (suc g) zero b h = refl
enough_rounds rest join (suc f) zero (suc a) b h = absurd (omega arith)
enough_rounds rest join zero (suc g) (suc a) b h = absurd (omega arith)
enough_rounds rest join (suc f) (suc g) (suc a) b h =
    ap (λ d. d * 2 + join (suc a % 2) (b % 2))
      (enough_rounds rest join f g (suc a / 2) (b / 2) (omega arith))

pub and_step : (a b : ℕ) → bit_and a b ≡ bit_and (a / 2) (b / 2) * 2 + min (a % 2) (b % 2)
and_step zero b = omega (arith, bit_and-bitwise 0 (b / 2), bit_and-bitwise 0 b)
and_step (suc a) b = omega (
  arith,
  enough_rounds (λ y. 0) min a (suc a / 2) (suc a / 2) (b / 2) (omega arith),
  bit_and-bitwise (suc a / 2) (b / 2),
  bit_and-bitwise (suc a) b,
)

pub or_step : (a b : ℕ) → bit_or a b ≡ bit_or (a / 2) (b / 2) * 2 + max (a % 2) (b % 2)
or_step zero b = omega (arith, bit_or-bitwise 0 b, bit_or-bitwise 0 (b / 2))
or_step (suc a) b = omega (
  arith,
  bit_or-bitwise (suc a) b,
  bit_or-bitwise (suc a / 2) (b / 2),
  enough_rounds (λ y. y) max a (suc a / 2) (suc a / 2) (b / 2) (omega arith),
)

two-pow : (q k : ℕ) → q * 2 ^ suc k ≡ 2 * (q * 2 ^ k)
two-pow q k = omega (arith, ap (λ (t : ℕ). q * t) (pow-suc 2 k))

-- The low fields and the high fields are combined each by itself.
pub and_split :
    (k q r p s : ℕ)
    → r < 2 ^ k
    → s < 2 ^ k
    → bit_and (q * 2 ^ k + r) (p * 2 ^ k + s) ≡ bit_and q p * 2 ^ k + bit_and r s
and_split zero q r p s hr hs = ground (arith, and_step 0 0)
and_split (suc k) q r p s hr hs = ground (
  arith,
  and_step (q * 2 ^ suc k + r) (p * 2 ^ suc k + s),
  and_step r s,
  two-pow q k,
  two-pow p k,
  two-pow (bit_and q p) k,
  pow-suc 2 k,
  and_split k q (r / 2) p (s / 2) (omega (arith, pow-suc 2 k)) (omega (arith, pow-suc 2 k)),
)

pub or_split :
    (k q r p s : ℕ)
    → r < 2 ^ k
    → s < 2 ^ k
    → bit_or (q * 2 ^ k + r) (p * 2 ^ k + s) ≡ bit_or q p * 2 ^ k + bit_or r s
or_split zero q r p s hr hs = ground (arith, or_step 0 0)
or_split (suc k) q r p s hr hs = ground (
  arith,
  or_step (q * 2 ^ suc k + r) (p * 2 ^ suc k + s),
  or_step r s,
  two-pow q k,
  two-pow p k,
  two-pow (bit_or q p) k,
  pow-suc 2 k,
  or_split k q (r / 2) p (s / 2) (omega (arith, pow-suc 2 k)) (omega (arith, pow-suc 2 k)),
)

pub and_zero : (b : ℕ) → bit_and 0 b ≡ 0
and_zero b = bit_and-bitwise 0 b

pub or_zero : (b : ℕ) → bit_or 0 b ≡ b
or_zero b = bit_or-bitwise 0 b

pub and_comm : (f a b : ℕ) → a + b ≤ f → bit_and a b ≡ bit_and b a
and_comm zero a b h = ground arith
and_comm (suc f) zero zero h = refl
and_comm (suc f) zero (suc b) h =
    omega (arith, and_step 0 (suc b), and_step (suc b) 0, and_comm f 0 (suc b / 2) (omega arith))
and_comm (suc f) (suc a) b h =
    omega
      (arith, and_step (suc a) b, and_step b (suc a), and_comm f (suc a / 2) (b / 2) (omega arith))

pub or_comm : (f a b : ℕ) → a + b ≤ f → bit_or a b ≡ bit_or b a
or_comm zero a b h = ground arith
or_comm (suc f) zero zero h = refl
or_comm (suc f) zero (suc b) h =
    omega (arith, or_step 0 (suc b), or_step (suc b) 0, or_comm f 0 (suc b / 2) (omega arith))
or_comm (suc f) (suc a) b h =
    omega (arith, or_step (suc a) b, or_step b (suc a), or_comm f (suc a / 2) (b / 2) (omega arith))

pub zero_and : (a : ℕ) → bit_and a 0 ≡ 0
zero_and a = and_comm (a + 0) a 0 (omega arith) ∙ and_zero a

pub zero_or : (a : ℕ) → bit_or a 0 ≡ a
zero_or a = or_comm (a + 0) a 0 (omega arith) ∙ or_zero a

-- A mask of ones keeps a word that fits it.
pub and_ones : (k a : ℕ) → a < 2 ^ k → bit_and a (2 ^ k - 1) ≡ a
and_ones zero a h = ground (arith, zero_and a)
and_ones (suc k) a h = ground (
  arith,
  and_step a (2 ^ suc k - 1),
  pow-suc 2 k,
  one-le-pow k 2,
  and_ones k (a / 2) (omega (arith, pow-suc 2 k)),
)

-- `a & (2 ^ k - 1)`
pub and_mask : (k a : ℕ) → bit_and a (2 ^ k - 1) ≡ a % 2 ^ k
and_mask k a = ground (
  arith,
  one-le-pow k 2,
  and_split k (a / 2 ^ k) (a % 2 ^ k) 0 (2 ^ k - 1),
  and_ones k (a % 2 ^ k),
  zero_and (a / 2 ^ k),
)
