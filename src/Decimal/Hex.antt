-- ===== src/Decimal/Hex.antt =====
-- src/cstr.cpp: `to_hstring` for the four widths, into the buffer at `out`.
use fox_os_kernel.Prelude.{
  ℕ, ◌+◌, ◌-◌, ◌*◌, ◌/◌, ◌%◌, ◌^◌, ◌≤◌, ◌<◌, ◌≡◌, sym, ap, ap₂, ◌∙◌, arith, ℕ_discrete, ltb, ◌==◌,
  if◌then◌else◌, ==_iff, ne→==, update, update_self, update_ne, for_range, for_range_inv,
}

-- `tmp + (tmp > 9 ? 55 : '0')`
abbrev pub hex_digit : ℕ → ℕ
hex_digit tmp = tmp + (if ltb 9 tmp then 55 else b'0')

-- The byte `i` from `&value` on: behind the value the stack holds `behind`.
abbrev pub byte_at : ℕ → ℕ → (ℕ → ℕ) → ℕ → ℕ
byte_at width value behind i = if ltb i width then value / 2 ^ (8 * i) % 256 else behind i % 256

-- One round: both digits of byte `i`.
unfoldable pub put_byte : ℕ → ℕ → (ℕ → ℕ) → ℕ → (ℕ → ℕ) → ℕ → ℕ
put_byte out size bytes i mem =
    update (update mem (out + size - (i * 2 + 1)) (hex_digit (bytes i / 16))) (out + size - i * 2)
      (hex_digit (bytes i % 16))

-- The loop runs to `size`, which is the number of digits less one, not the number of bytes.
unfoldable pub hex_string : ℕ → ℕ → ℕ → (ℕ → ℕ) → (ℕ → ℕ) → ℕ → ℕ
unfolding put_byte
hex_string width out value behind mem =
    let size = width * 2 - 1 in
    update (for_range size 0 (put_byte out size (byte_at width value behind)) mem) (out + size + 1)
      0

unfoldable pub to_hstring_64 : ℕ → ℕ → (ℕ → ℕ) → (ℕ → ℕ) → ℕ → ℕ
unfolding hex_string
to_hstring_64 = hex_string 8

unfoldable pub to_hstring_32 : ℕ → ℕ → (ℕ → ℕ) → (ℕ → ℕ) → ℕ → ℕ
unfolding hex_string
to_hstring_32 = hex_string 4

unfoldable pub to_hstring_16 : ℕ → ℕ → (ℕ → ℕ) → (ℕ → ℕ) → ℕ → ℕ
unfolding hex_string
to_hstring_16 = hex_string 2

unfoldable pub to_hstring_8 : ℕ → ℕ → (ℕ → ℕ) → (ℕ → ℕ) → ℕ → ℕ
unfolding hex_string
to_hstring_8 = hex_string 1

-- The digit with the weight 16 ^ j of the bytes.
abbrev pub nibble : (ℕ → ℕ) → ℕ → ℕ
nibble bytes j = if j % 2 == 0 then bytes (j / 2) % 16 else bytes (j / 2) / 16

abbrev Digits : ℕ → ℕ → (ℕ → ℕ) → ℕ → (ℕ → ℕ) → Type 0
Digits out size bytes k m = (j : ℕ) → j < 2 * k → m (out + size - j) ≡ hex_digit (nibble bytes j)

nibble_low : (bytes : ℕ → ℕ) (k : ℕ) → nibble bytes (k * 2) ≡ bytes k % 16
nibble_low bytes k =
    ap₂ (λ b i. if b then bytes i % 16 else bytes i / 16) ((==_iff (k * 2 % 2) 0).1 (omega arith))
      (omega arith)

nibble_high : (bytes : ℕ → ℕ) (k : ℕ) → nibble bytes (k * 2 + 1) ≡ bytes k / 16
nibble_high bytes k =
    ap₂ (λ b i. if b then bytes i % 16 else bytes i / 16)
      (ne→== ((k * 2 + 1) % 2) 0 (λ e. omega arith)) (omega arith)

put_byte-Digits :
    (out size : ℕ) (bytes : ℕ → ℕ)
    → 2 * size ≤ out
    → (k : ℕ) (m : ℕ → ℕ) → k < size
    → Digits out size bytes k m
    → Digits out size bytes (k + 1) (put_byte out size bytes k m)
unfolding put_byte
put_byte-Digits out size bytes room k m lt digits j below =
    let high = out + size - (k * 2 + 1) in
    let low = out + size - k * 2 in
    let m1 = update m high (hex_digit (bytes k / 16)) in
    let apart = update_ne m1 low (out + size - j) (hex_digit (bytes k % 16)) in
    elim (ℕ_discrete j (k * 2)) [
      | yes e ↦
          ap (λ i. put_byte out size bytes k m (out + size - i)) e
          ∙ update_self m1 low (hex_digit (bytes k % 16))
          ∙ ap hex_digit (sym (nibble_low bytes k) ∙ ap (nibble bytes) (sym e))
      | no ne ↦ elim (ℕ_discrete j (k * 2 + 1)) [
        | yes e ↦
            apart (λ q. ne (omega arith))
            ∙ ap (λ i. m1 (out + size - i)) e
            ∙ update_self m high (hex_digit (bytes k / 16))
            ∙ ap hex_digit (sym (nibble_high bytes k) ∙ ap (nibble bytes) (sym e))
        | no ne2 ↦
            apart (λ q. ne (omega arith))
            ∙ update_ne m high (out + size - j) (hex_digit (bytes k / 16)) (λ q. ne2 (omega arith))
            ∙ digits j (omega arith)
      ]
    ]

-- A buffer with room below it, and a value of some bytes: the buffer gets the hexadecimal digits of the
-- value, most significant first, and a 0 behind them. The digits of the bytes that the stack holds
-- behind the value, one byte less than the value has, are written below the buffer.
pub hex_string_lem :
    (width out value : ℕ) (behind mem : ℕ → ℕ)
    → 0 < width
    → 4 * width ≤ out
    → let m = hex_string width out value behind mem in
      ((j : ℕ)
        → j < 4 * width - 2
        → m (out + (width * 2 - 1) - j) ≡ hex_digit (nibble (byte_at width value behind) j))
      × (m (out + width * 2) ≡ 0)
unfolding hex_string
hex_string_lem width out value behind mem pos room =
    let size = width * 2 - 1 in
    let bytes = byte_at width value behind in
    let written = for_range size 0 (put_byte out size bytes) mem in
    let all =
      for_range_inv (Digits out size bytes) (λ k m. put_byte out size bytes k m) size 0 size
        (omega arith) (λ k m lt. put_byte-Digits out size bytes (omega arith) k m lt) mem
        (λ j lt. absurd (omega arith)) in
    (
      λ j lt.
          update_ne written (out + size + 1) (out + size - j) 0 (λ q. omega arith)
          ∙ all j (omega arith),
      ap (update written (out + size + 1) 0) (omega arith) ∙ update_self written (out + size + 1) 0,
    )
