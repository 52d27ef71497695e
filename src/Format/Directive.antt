-- ===== src/Format/Directive.antt =====
-- src/string.cpp: the flags, the width, the precision and the length that a directive of `vsprintf` begins
-- with. The arguments are 64-bit numbers; `none` is an argument that is not there.
use fox_os_kernel.Prelude.{
  ℕ, ◌-◌, ◌%◌, ◌^◌, bit_or, Bool, ◌||◌, Option, none, some, List, [], ◌∷◌, leb, ◌==◌, if◌then◌else◌,
}
use fox_os_kernel.Format.{zeropad, plus, space, left, special, is_digit, skip_atoi}

-- A width or a precision that is -1 is `none`, and `qualifier` is 0 for -1.
pub record Directive : Type 0 where
  pub flags : ℕ
  pub field_width : Option ℕ
  pub precision : Option ℕ
  pub qualifier : ℕ
  pub args : List ℕ
  pub fmt : List ℕ

-- `case '-': flags |= LEFT; goto repeat;` and the others
abbrev pub flag_of : ℕ → ℕ
flag_of c =
    if c == b'-'
    then left
    else if c == b'+'
    then plus
    else if c == 32
    then space
    else if c == b'#'
    then special
    else if c == b'0'
    then zeropad
    else 0

unfoldable pub parse_flags : ℕ → List ℕ → ℕ × List ℕ
parse_flags flags [] = (flags, [])
parse_flags flags (c ∷ fmt) =
    let rest = parse_flags (bit_or flags (flag_of c)) fmt in
    if flag_of c == 0 then (flags, c ∷ fmt) else rest

-- An `int` argument that is below 0.
abbrev pub is_negative : ℕ → Bool
is_negative a = leb (2 ^ 31) (a % 2 ^ 32)

abbrev pub width_arg : Directive → List ℕ → List ℕ → Option Directive
width_arg d fmt [] = none
width_arg d fmt (a ∷ args) =
    if is_negative a
    then some (record d {
      flags = bit_or d.flags left;
      field_width = some (2 ^ 32 - a % 2 ^ 32);
      args = args;
      fmt = fmt;
    })
    else some (record d { field_width = some (a % 2 ^ 32); args = args; fmt = fmt })

unfoldable pub parse_width : Directive → List ℕ → Option Directive
unfolding skip_atoi
parse_width d [] = some d
parse_width d (c ∷ fmt) =
    if is_digit c
    then (let r = skip_atoi (c ∷ fmt) in some (record d { field_width = some r.0; fmt = r.1 }))
    else if c == b'*'
    then width_arg d fmt d.args
    else some d

abbrev pub precision_arg : Directive → List ℕ → List ℕ → Option Directive
precision_arg d fmt [] = none
precision_arg d fmt (a ∷ args) = some (record d {
  precision = some (if is_negative a then 0 else a % 2 ^ 32);
  args = args;
  fmt = fmt;
})

-- Behind the `.`; a precision that is not given is 0.
unfoldable pub parse_precision_at : Directive → List ℕ → Option Directive
unfolding skip_atoi
parse_precision_at d [] = some (record d { precision = some 0; fmt = [] })
parse_precision_at d (c ∷ fmt) =
    if is_digit c
    then (let r = skip_atoi (c ∷ fmt) in some (record d { precision = some r.0; fmt = r.1 }))
    else if c == b'*'
    then precision_arg d fmt d.args
    else some (record d { precision = some 0; fmt = c ∷ fmt })

unfoldable pub parse_precision : Directive → List ℕ → Option Directive
unfolding parse_precision_at
parse_precision d [] = some d
parse_precision d (c ∷ fmt) = if c == b'.' then parse_precision_at d fmt else some d

unfoldable pub parse_qualifier : Directive → List ℕ → Directive
parse_qualifier d [] = d
parse_qualifier d (c ∷ fmt) =
    if c == b'h' || c == b'l' || c == b'L' then record d { qualifier = c; fmt = fmt } else d

abbrev pub and_precision : Option Directive → Option Directive
and_precision none = none
and_precision (some d) = parse_precision d d.fmt

abbrev pub and_qualifier : Option Directive → Option Directive
and_qualifier none = none
and_qualifier (some d) = some (parse_qualifier d d.fmt)

-- All that stands between the `%` and the conversion.
unfoldable pub parse_directive : List ℕ → List ℕ → Option Directive
unfolding parse_flags parse_width parse_precision parse_qualifier
parse_directive fmt args =
    let f = parse_flags 0 fmt in
    and_qualifier (
      and_precision (
        parse_width
          (record {
            flags = f.0;
            field_width = none;
            precision = none;
            qualifier = 0;
            args = args;
            fmt = f.1;
          })
          f.1))
