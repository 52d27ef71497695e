-- ===== src/Ipv4.antt =====
-- src/net/ipv4.cpp: the checksum of `Ipv4Provider`; its other operations are in Ipv4/Provider.
pub mod Checksum
pub mod Provider
use fox_os_kernel.Prelude.{
  ℕ, zero, suc, ◌+◌, ◌-◌, ◌*◌, ◌/◌, ◌%◌, ◌^◌, List, [], ◌∷◌, ltb, ◌==◌, if◌then◌else◌,
}
use fox_os_kernel.Net.{bswap16}

-- The words of the data in network order, and for an odd size the last byte, which is read through a
-- `char*` and so has its sign in the 16 bits that are shifted.
unfoldable pub last_byte : ℕ → ℕ
last_byte b = if ltb b 128 then b * 256 else (65280 + b) * 256

unfoldable pub sum_words : List ℕ → ℕ → ℕ
unfolding bswap16 last_byte
sum_words [] temp = temp
sum_words (b ∷ []) temp = (temp + last_byte b) % 2 ^ 32
sum_words (a ∷ b ∷ words) temp = sum_words words ((temp + bswap16 (a + 256 * b)) % 2 ^ 32)

-- `while(temp & 0xFFFF0000) temp = (temp & 0xFFFF) + (temp >> 16);`
unfoldable pub fold : ℕ → ℕ → ℕ
fold zero temp = temp
fold (suc n) temp =
    let rest = fold n (temp % 65536 + temp / 65536) in if temp / 65536 == 0 then temp else rest

-- `~temp` with its two low bytes swapped
unfoldable pub checksum : List ℕ → ℕ
unfolding sum_words fold bswap16
checksum message = bswap16 (65535 - fold 3 (sum_words message 0) % 65536)
