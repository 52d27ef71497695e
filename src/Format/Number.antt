-- ===== src/Format/Number.antt =====
-- src/string.cpp: `number_printf`.
use fox_os_kernel.Prelude.{
  ℕ, zero, suc, ◌+◌, ◌-◌, ◌/◌, ◌%◌, ◌^◌, bit_and, bit_or, Bool, true, false, ◌||◌, Option, none,
  some, List, [], ◌∷◌, ◌++◌, ltb, leb, ◌==◌, if◌then◌else◌, length, replicate,
}
use fox_os_kernel.Format.{has_flag, zeropad, sign_flag, plus, space, left, small, special}

-- `digits[d] | locase`
abbrev pub digit : ℕ → ℕ → ℕ
digit locase d = bit_or (if ltb d 10 then b'0' + d else 55 + d) locase

-- `while (num != 0) tmp[i++] = ...`; the digits are printed last to first, so the list begins with the
-- last. A number of 64 bits ends the loop within 64 rounds.
unfoldable pub push_digits : ℕ → ℕ → ℕ → ℕ → List ℕ → List ℕ
push_digits zero base locase num tmp = tmp
push_digits (suc fuel) base locase num tmp =
    let rest = push_digits fuel base locase (num / base) (digit locase (num % base) ∷ tmp) in
    if num == 0 then tmp else rest

unfoldable pub number_digits : ℕ → ℕ → ℕ → List ℕ
unfolding push_digits
number_digits base locase num = if num == 0 then b'0' ∷ [] else push_digits 64 base locase num []

-- The character of the sign and the number without it.
abbrev pub sign_of : ℕ → ℕ → List ℕ × ℕ
sign_of type num =
    if has_flag type sign_flag
    then if leb (2 ^ 63) num
      then (b'-' ∷ [], 2 ^ 64 - num)
      else if has_flag type plus
      then (b'+' ∷ [], num)
      else if has_flag type space
      then (32 ∷ [], num)
      else ([], num)
    else ([], num)

abbrev pub prefix_of : ℕ → ℕ → ℕ → List ℕ
prefix_of type base locase =
    if has_flag type special
    then if base == 8 then b'0' ∷ [] else if base == 16 then b'0' ∷ bit_or b'X' locase ∷ [] else []
    else []

-- `type &= ~ZEROPAD`
abbrev pub clear_zeropad : ℕ → ℕ
clear_zeropad type = type - bit_and type zeropad

-- The parts in their order, with what is left of the width in front of all, behind the prefix or at
-- the end: without `ZEROPAD` and `LEFT`, with `ZEROPAD` alone, and with `LEFT`.
abbrev pub arranged : Bool → Bool → ℕ → List ℕ → List ℕ → List ℕ → List ℕ
arranged false false pad front zeros digits = replicate pad 32 ++ (front ++ (zeros ++ digits))
arranged true false pad front zeros digits = front ++ (replicate pad b'0' ++ (zeros ++ digits))
arranged is_padded true pad front zeros digits = front ++ (zeros ++ (digits ++ replicate pad 32))

abbrev pub layout : ℕ → ℕ → ℕ → List ℕ → List ℕ → List ℕ → List ℕ
layout type size precision sign prefix digits =
    let zeros = precision - length digits in
    let pad = size - length sign - length prefix - (length digits + zeros) in
    arranged (has_flag type zeropad) (has_flag type left) pad (sign ++ prefix)
      (replicate zeros b'0') digits

abbrev pub shown : ℕ → ℕ
shown type = if has_flag type left then clear_zeropad type else type

-- `none` for `NULL`.
unfoldable pub number_printf : ℕ → ℕ → ℕ → ℕ → ℕ → Option (List ℕ)
unfolding number_digits
number_printf num base size precision type0 =
    let locase = bit_and type0 small in
    let type = shown type0 in
    let s = sign_of type num in
    if ltb base 2 || ltb 16 base
    then none
    else some (
        layout type size precision s.0 (prefix_of type base locase) (number_digits base locase s.1))
