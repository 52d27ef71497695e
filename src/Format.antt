-- ===== src/Format.antt =====
-- src/string.cpp: numbers and text formatted by `vsprintf`. The bytes that are written are lists. A width,
-- a precision and what is left of a width are used only to count how often a loop runs, so one that is
-- negative is 0, and subtraction that stops at 0 counts the same rounds.
pub mod Number
pub mod Digits
pub mod Directive
pub mod Printf
pub mod Escape
use fox_os_kernel.Prelude.{
  ℕ, ◌+◌, ◌-◌, ◌*◌, ◌%◌, ◌^◌, bit_and, Bool, not, ◌&&◌, List, [], ◌∷◌, leb, ◌==◌, if◌then◌else◌,
  count,
}

-- `type & flag`
abbrev pub has_flag : ℕ → ℕ → Bool
has_flag type flag = not (bit_and type flag == 0)

-- `ZEROPAD`, `SIGN`, `PLUS`, `SPACE`, `LEFT`, `SMALL` and `SPECIAL`
abbrev pub zeropad : ℕ
zeropad = 1

abbrev pub sign_flag : ℕ
sign_flag = 2

abbrev pub plus : ℕ
plus = 4

abbrev pub space : ℕ
space = 8

abbrev pub left : ℕ
left = 16

abbrev pub small : ℕ
small = 32

abbrev pub special : ℕ
special = 64

abbrev pub is_digit : ℕ → Bool
is_digit c = leb b'0' c && leb c b'9'

-- The number, as an `int`, and what of the text is left.
unfoldable pub skip_atoi_from : ℕ → List ℕ → ℕ × List ℕ
skip_atoi_from i [] = (i, [])
skip_atoi_from i (c ∷ s) =
    let rest = skip_atoi_from ((i * 10 + c - b'0') % 2 ^ 32) s in
    if is_digit c then rest else (i, c ∷ s)

unfoldable pub skip_atoi : List ℕ → ℕ × List ℕ
unfolding skip_atoi_from
skip_atoi s = skip_atoi_from 0 s
