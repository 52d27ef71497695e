-- ===== src/Format/Printf.antt =====
-- src/string.cpp: `vsprintf`. A `%s` reads the string at its argument, which `text` gives.
use fox_os_kernel.Prelude.{
  ℕ, zero, suc, ◌+◌, ◌-◌, ◌%◌, ◌^◌, bit_or, Bool, ◌||◌, Option, none, some, List, [], ◌∷◌, ◌++◌,
  leb, ◌==◌, if◌then◌else◌, length, replicate,
}
use fox_os_kernel.Format.{has_flag, zeropad, sign_flag, left, small}
use fox_os_kernel.Format.Number.{number_printf}
use fox_os_kernel.Format.Directive.{Directive, parse_directive}

-- What has been written to `buf`, what `%n` has stored at which address, and what is left to do.
pub record Printer : Type 0 where
  pub written : List ℕ
  pub stores : List (ℕ × ℕ)
  pub args : List ℕ
  pub fmt : List ℕ

abbrev pub width_or_zero : Option ℕ → ℕ
width_or_zero none = 0
width_or_zero (some n) = n

-- `while (--field_width > 0)` in front of or behind the character
abbrev pub print_char : Directive → ℕ → List ℕ
print_char d a =
    let pad = replicate (width_or_zero d.field_width - 1) 32 in
    if has_flag d.flags left then a % 256 ∷ pad else pad ++ (a % 256 ∷ [])

-- `strnlen(s, precision)` characters
abbrev pub cut : Option ℕ → List ℕ → List ℕ
cut none s = s
cut (some zero) s = []
cut (some (suc n)) [] = []
cut (some (suc n)) (c ∷ s) = c ∷ cut (some n) s

abbrev pub print_string : Directive → List ℕ → List ℕ
print_string d s =
    let shown = cut d.precision s in
    let pad = replicate (width_or_zero d.field_width - length shown) 32 in
    if has_flag d.flags left then shown ++ pad else pad ++ shown

-- `(short) num` and an `int`, in 64 bits
abbrev pub extend : ℕ → ℕ → ℕ
extend bits a =
    if leb (2 ^ (bits - 1)) (a % 2 ^ bits) then a % 2 ^ bits + 2 ^ 64 - 2 ^ bits else a % 2 ^ bits

abbrev pub number_arg : ℕ → ℕ → ℕ → ℕ
number_arg qualifier flags a =
    if qualifier == b'l'
    then a % 2 ^ 64
    else if qualifier == b'h'
    then (if has_flag flags sign_flag then extend 16 a else a % 2 ^ 16)
    else if has_flag flags sign_flag
    then extend 32 a
    else a % 2 ^ 32

abbrev pub print_number : Directive → ℕ → ℕ → ℕ → Option (List ℕ)
print_number d flags base num =
    number_printf num base (width_or_zero d.field_width) (width_or_zero d.precision) flags

-- What is printed for the argument, `none` where the conversion takes no argument.
abbrev pub converted : (ℕ → List ℕ) → Directive → ℕ → ℕ → Option (List ℕ)
converted text d c a =
    if c == b'c'
    then some (print_char d a)
    else if c == b's'
    then some (print_string d (text a))
    else if c == b'p'
    then elim d.field_width [
      | none ↦
          print_number (record d { field_width = some 16 }) (bit_or d.flags zeropad) 16 (a % 2 ^ 64)
      | some n ↦ print_number d d.flags 16 (a % 2 ^ 64)
    ]
    else if c == b'o'
    then print_number d d.flags 8 (number_arg d.qualifier d.flags a)
    else if c == b'x'
    then print_number d (bit_or d.flags small) 16 (number_arg d.qualifier (bit_or d.flags small) a)
    else if c == b'X'
    then print_number d d.flags 16 (number_arg d.qualifier d.flags a)
    else if c == b'd' || c == b'i'
    then print_number d (bit_or d.flags sign_flag) 10
        (number_arg d.qualifier (bit_or d.flags sign_flag) a)
    else if c == b'u'
    then print_number d d.flags 10 (number_arg d.qualifier d.flags a)
    else none

abbrev pub print : Printer → List ℕ → List ℕ → List ℕ → Printer
print p shown args fmt = record p { written = p.written ++ shown; args = args; fmt = fmt }

abbrev pub convert : (ℕ → List ℕ) → Printer → Directive → ℕ → List ℕ → List ℕ → Option Printer
convert text p d c fmt [] = none
convert text p d c fmt (a ∷ args) =
    if c == b'n'
    then some
        (record p { stores = p.stores ++ ((a, length p.written) ∷ []); args = args; fmt = fmt })
    else elim (converted text d c a) [ none ↦ none | some shown ↦ some (print p shown args fmt) ]

abbrev pub takes_argument : ℕ → Bool
takes_argument c =
    c == b'c'
    || c == b's'
    || c == b'p'
    || c == b'n'
    || c == b'o'
    || c == b'x'
    || c == b'X'
    || c == b'd'
    || c == b'i'
    || c == b'u'

-- The `switch` on the conversion; one that is not known is printed with its `%`.
abbrev pub finish : (ℕ → List ℕ) → Printer → Directive → List ℕ → Option Printer
finish text p d [] = some (print p (b'%' ∷ []) d.args [])
finish text p d (c ∷ fmt) =
    if c == b'%'
    then some (print p (b'%' ∷ []) d.args fmt)
    else if takes_argument c
    then convert text p d c fmt d.args
    else some (print p (b'%' ∷ c ∷ []) d.args fmt)

abbrev pub directive : (ℕ → List ℕ) → Printer → Option Directive → Option Printer
directive text p none = none
directive text p (some d) = finish text p d d.fmt

-- One round of the loop over the format.
unfoldable pub step : (ℕ → List ℕ) → Printer → ℕ → List ℕ → Option Printer
unfolding parse_directive number_printf
step text p c fmt =
    if c == b'%'
    then directive text p (parse_directive fmt p.args)
    else some (print p (c ∷ []) p.args fmt)

unfoldable pub print_all : ℕ → (ℕ → List ℕ) → Printer → List ℕ → Option Printer
print_all fuel text p [] = some p
print_all zero text p (c ∷ fmt) = none
print_all (suc fuel) text p (c ∷ fmt) = elim (step text p c fmt) [
  | none ↦ none
  | some q ↦ print_all fuel text q q.fmt
]

-- The bytes in front of the 0, whose number is returned, and the stores; each round takes a character of
-- the format at least.
unfoldable pub vsprintf : (ℕ → List ℕ) → List ℕ → List ℕ → Option (List ℕ × List (ℕ × ℕ))
unfolding print_all step
vsprintf text fmt args =
    elim (print_all (length fmt) text (record { written = []; stores = []; args = args; fmt = fmt })
      fmt) [ none ↦ none | some p ↦ some (p.written, p.stores) ]
