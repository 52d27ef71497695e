-- ===== src/Decimal.antt =====
-- src/cstr.cpp: numbers as strings, written into the buffer at `out`. The loops have fuel, where `none`
-- is fuel that runs out.
pub mod Written
pub mod Hex
use fox_os_kernel.Prelude.{
  ℕ, zero, suc, ◌+◌, ◌-◌, ◌/◌, ◌%◌, ◌^◌, not, Option, none, some, ltb, ◌==◌, if◌then◌else◌, update,
  count,
}

-- `while (sizeTest / 10 > 0) { sizeTest /= 10; size++; }`, with `size` a byte
unfoldable pub count_size : ℕ → ℕ → ℕ → Option ℕ
count_size zero size_test size = none
count_size (suc fuel) size_test size =
    let rest = count_size fuel (size_test / 10) ((size + 1) % 256) in
    if ltb 0 (size_test / 10) then rest else some size

-- `while (value / 10 > 0)`, and the last digit and the 0 behind it. `out` is the address of digit 0.
unfoldable pub write_digits : ℕ → ℕ → ℕ → ℕ → ℕ → (ℕ → ℕ) → Option (ℕ → ℕ)
write_digits zero out size index value mem = none
write_digits (suc fuel) out size index value mem =
    let m = update mem (out + size - index) (value % 10 + b'0') in
    let rest = write_digits fuel out size ((index + 1) % 256) (value / 10) m in
    if ltb 0 (value / 10) then rest else some (update m (out + size + 1) 0)

-- What follows the count of the digits.
abbrev pub then_write : ℕ → ℕ → ℕ → (ℕ → ℕ) → Option ℕ → Option (ℕ → ℕ)
then_write fuel out value mem none = none
then_write fuel out value mem (some size) = write_digits fuel out size 0 value mem

-- `to_string(uint64_t value)`, where `size` is not initialised: it is what the stack holds.
unfoldable pub to_string : ℕ → ℕ → ℕ → ℕ → (ℕ → ℕ) → Option (ℕ → ℕ)
unfolding count_size write_digits
to_string fuel size out value mem = then_write fuel out value mem (count_size fuel value size)

-- `to_string(int64_t value)`, with `none` also where `value *= -1` overflows.
unfoldable pub to_string_signed : ℕ → ℕ → ℕ → ℕ → (ℕ → ℕ) → Option (ℕ → ℕ)
unfolding to_string
to_string_signed fuel size out value mem =
    if ltb value (2 ^ 63)
    then to_string fuel size out value mem
    else if value == 2 ^ 63
    then none
    else to_string fuel size (out + 1) (2 ^ 64 - value) (update mem out b'-')
