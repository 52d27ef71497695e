-- ===== src/Paging/Entry.antt =====
-- `PageDirectoryEntry` of src/paging/paging.cpp, on its 64-bit value.
use fox_os_kernel.Prelude.{
  ℕ, ◌+◌, ◌-◌, ◌*◌, ◌/◌, ◌%◌, ◌^◌, ◌<◌, bit_and, bit_or, ◌≡◌, refl, ap, ◌∙◌, Bool, true, arith, ltb,
  ◌==◌, if◌then◌else◌, all_below, all_below_sound, and_split, or_split, or_zero, zero_and, zero_or,
  and_ones, and_mask,
}

-- `PT_Flag`
abbrev pub present : ℕ
present = 0

abbrev pub read_write : ℕ
read_write = 1

-- `(uint64_t) 1 << flag`
abbrev bit_selector : ℕ → ℕ
bit_selector flag = 2 ^ flag % 2 ^ 64

unfoldable pub set_flag : ℕ → ℕ → Bool → ℕ
set_flag value flag enabled =
    let cleared = bit_and value (2 ^ 64 - 1 - bit_selector flag) in
    if enabled then bit_or cleared (bit_selector flag) else cleared

-- `value & bit_selector > 0`: `>` binds tighter than `&`.
unfoldable pub get_flag : ℕ → ℕ → Bool
get_flag value flag = ltb 0 (bit_and value (if ltb 0 (bit_selector flag) then 1 else 0))

unfoldable pub get_address : ℕ → ℕ
get_address value = bit_and value 0x000f_ffff_ffff_f000 / 2 ^ 12

unfoldable pub set_address : ℕ → ℕ → ℕ
set_address value address =
    bit_or (bit_and value 0xfff0_0000_0000_0fff)
      (bit_and address 0x0000_00ff_ffff_ffff * 2 ^ 12 % 2 ^ 64)

-- An entry's fields: the upper 12 bits, the 40-bit frame number, and the lower 12 bits.
abbrev pub fields : ℕ → ℕ → ℕ → ℕ
fields hi frame lo = (hi * 2 ^ 40 + frame) * 2 ^ 12 + lo

module _ (hi frame lo : ℕ) (f : frame < 2 ^ 40) (l : lo < 2 ^ 12) where
  -- The address is the 40-bit field.
  pub get_address-fields : get_address (fields hi frame lo) ≡ frame
  unfolding get_address
  get_address-fields = omega (
    arith,
    and_split 12 (hi * 2 ^ 40 + frame) lo (0 * 2 ^ 40 + (2 ^ 40 - 1)) 0 l (omega arith),
    and_split 40 hi frame 0 (2 ^ 40 - 1) f (omega arith),
    and_ones 40 frame f,
    zero_and hi,
    zero_and lo,
  )

  kept :
      hi < 2 ^ 12
      → bit_and (fields hi frame lo) 0xfff0_0000_0000_0fff ≡ (hi * 2 ^ 40 + 0) * 2 ^ 12 + lo
  kept h = omega (
    arith,
    and_split 12 (hi * 2 ^ 40 + frame) lo ((2 ^ 12 - 1) * 2 ^ 40 + 0) (2 ^ 12 - 1) l (omega arith),
    and_split 40 hi frame (2 ^ 12 - 1) 0 f (omega arith),
    and_ones 12 hi h,
    and_ones 12 lo l,
    zero_and frame,
  )

  -- An entry given by 12 upper bits, a frame number of 40 bits and 12 lower bits: `set_address`
  -- puts the lower 40 bits of the address into the frame number and leaves the other two fields.
  pub set_address-fields :
      (address : ℕ)
      → hi < 2 ^ 12
      → set_address (fields hi frame lo) address ≡ fields hi (address % 2 ^ 40) lo
  unfolding set_address
  set_address-fields address h =
      let a : ℕ = address % 2 ^ 40 in
      let joined = or_split 12 (hi * 2 ^ 40 + 0) lo (0 * 2 ^ 40 + a) 0 l (omega arith) in
      let inner = or_split 40 hi 0 0 a (omega arith) (omega arith) in
      rw (kept h, and_mask 40 address)
        (ap (λ z. bit_or ((hi * 2 ^ 40 + 0) * 2 ^ 12 + lo) z) (omega arith)
          ∙ joined
          ∙ omega (arith, inner, or_zero a, zero_or hi, zero_or lo))

selectors : ℕ → Bool
selectors k = ltb 0 (bit_selector k)

selectors_hold : all_below 64 selectors ≡ true
unfolding all_below selectors
selectors_hold = refl

-- For every flag below 64, `get_flag` tells whether bit 0 of the entry is set, whatever the flag,
-- because `>` binds tighter than `&`.
pub get_flag_lem : (value flag : ℕ) → flag < 64 → get_flag value flag ≡ (value % 2 == 1)
unfolding get_flag selectors
get_flag_lem value flag h =
    rw (all_below_sound 64 selectors flag selectors_hold h) (ground (arith, and_mask 1 value))
