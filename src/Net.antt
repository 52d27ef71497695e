-- ===== src/Net.antt =====
-- The byte order of the network stack's words: `__builtin_bswap16`, `__builtin_bswap32`, and the casts
-- between bytes and words on a little-endian machine.
pub mod Bytes
use fox_os_kernel.Prelude.{
  ℕ, zero, suc, ◌+◌, ◌-◌, ◌*◌, ◌/◌, ◌%◌, ◌^◌, Option, none, some, List, [], ◌∷◌, ◌++◌, update,
}

unfoldable pub bswap16 : ℕ → ℕ
bswap16 x = x % 256 * 256 + x / 256 % 256

unfoldable pub bswap32 : ℕ → ℕ
unfolding bswap16
bswap32 x = bswap16 (x % 65536) * 65536 + bswap16 (x / 65536)

-- The word that a cast of a pointer to `uint16_t*` or `uint32_t*` reads.
abbrev pub word16 : (ℕ → ℕ) → ℕ → ℕ
word16 p i = p i + 256 * p (i + 1)

abbrev pub word32 : (ℕ → ℕ) → ℕ → ℕ
word32 p i = word16 p i + 65536 * word16 p (i + 2)

-- The bytes of a word in memory.
abbrev pub bytes16 : ℕ → List ℕ
bytes16 x = x % 256 ∷ x / 256 % 256 ∷ []

abbrev pub bytes32 : ℕ → List ℕ
bytes32 x = bytes16 (x % 65536) ++ bytes16 (x / 65536)

abbrev pub word48 : (ℕ → ℕ) → ℕ → ℕ
word48 p i = word32 p i + 4294967296 * word16 p (i + 4)

abbrev pub bytes48 : ℕ → List ℕ
bytes48 x = bytes32 (x % 4294967296) ++ bytes16 (x / 4294967296)

-- Bytes that are stored from an address on, and the `n` bytes that stand there.
unfoldable pub store_bytes : List ℕ → ℕ → (ℕ → ℕ) → ℕ → ℕ
store_bytes [] a p = p
store_bytes (b ∷ l) a p = store_bytes l (a + 1) (update p a b)

unfoldable pub read_bytes : (ℕ → ℕ) → ℕ → ℕ → List ℕ
read_bytes p a zero = []
read_bytes p a (suc n) = p a ∷ read_bytes p (a + 1) n

-- `a + b` and `a - b` in 16 and 32 bits
abbrev pub add16 : ℕ → ℕ → ℕ
add16 a b = (a + b) % 2 ^ 16

abbrev pub add32 : ℕ → ℕ → ℕ
add32 a b = (a + b) % 2 ^ 32

abbrev pub sub32 : ℕ → ℕ → ℕ
sub32 a b = (a + 2 ^ 32 - b) % 2 ^ 32

-- The rest of a computation that can fail.
abbrev pub and_then {ℓ κ} : {A : Type ℓ} {B : Type κ} → Option A → (A → Option B) → Option B
and_then none f = none
and_then (some a) f = f a

-- The bytes of a word of any width, its least byte first.
abbrev pub bytes_of : ℕ → ℕ → List ℕ
bytes_of zero n = []
bytes_of (suc k) n = n % 256 ∷ bytes_of k (n / 256)
