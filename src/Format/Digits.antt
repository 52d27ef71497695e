-- ===== src/Format/Digits.antt =====
-- src/string.cpp: the digits of `number_printf` spell the number, and its width.
use native.Mathlib.Nat.{pow-suc, div-add-mod', mod-lt, mul-le-mul_left}
use fox_os_kernel.Prelude.{
  ℕ, zero, suc, ◌+◌, ◌-◌, ◌*◌, ◌/◌, ◌%◌, ◌^◌, ◌≤◌, ◌<◌, max, bit_and, ◌≡◌, refl, sym, ap, ap₂, ◌∙◌,
  ◌⊎◌, inl, inr, Bool, true, false, ◌||◌, none, some, List, [], ◌∷◌, ◌++◌, arith, ℕ_discrete, ltb,
  ◌==◌, if◌then◌else◌, le→ltb, ==_iff, ne→==, length, replicate, length-append, all_below,
  all_below_sound, and_split, zero_and, and_mask,
}
use fox_os_kernel.Format.{has_flag, zeropad, left, small}
use fox_os_kernel.Format.Number.{
  digit, push_digits, number_digits, shown, arranged, layout, sign_of, prefix_of, number_printf,
}

-- What a digit is worth, small or capital.
abbrev pub worth : ℕ → ℕ
worth c = if ltb c 58 then c - b'0' else c % 32 + 9

abbrev pub spelled : ℕ → List ℕ → ℕ → ℕ
spelled base [] acc = acc
spelled base (c ∷ s) acc = spelled base s (acc * base + worth c)

capital_digits : all_below 16 (λ d. worth (digit 0 d) == d) ≡ true
unfolding all_below
capital_digits = refl

small_digits : all_below 16 (λ d. worth (digit 32 d) == d) ≡ true
unfolding all_below
small_digits = refl

worth-digit : (locase d : ℕ) → (locase ≡ 0) ⊎ (locase ≡ 32) → d < 16 → worth (digit locase d) ≡ d
worth-digit locase d (inl e) lt =
    ap (λ l. worth (digit l d)) e
    ∙ (==_iff (worth (digit 0 d)) d).0
        (all_below_sound 16 (λ i. worth (digit 0 i) == i) d capital_digits lt)
worth-digit locase d (inr e) lt =
    ap (λ l. worth (digit l d)) e
    ∙ (==_iff (worth (digit 32 d)) d).0
        (all_below_sound 16 (λ i. worth (digit 32 i) == i) d small_digits lt)

push_digits_lem :
    (fuel base locase num : ℕ) (tmp : List ℕ)
    → 2 ≤ base
    → base ≤ 16
    → (locase ≡ 0) ⊎ (locase ≡ 32)
    → num < 2 ^ fuel
    → spelled base (push_digits fuel base locase num tmp) 0 ≡ spelled base tmp num
unfolding push_digits
push_digits_lem zero base locase num tmp low high cases fits = ap (spelled base tmp) (omega arith)
push_digits_lem (suc fuel) base locase num tmp low high cases fits =
    let rest = push_digits fuel base locase (num / base) (digit locase (num % base) ∷ tmp) in
    elim (ℕ_discrete num 0) [
      | yes e ↦
          ap (λ b. spelled base (if b then tmp else rest) 0) ((==_iff num 0).1 e)
          ∙ ap (spelled base tmp) (sym e)
      | no ne ↦
          ap (λ b. spelled base (if b then tmp else rest) 0) (ne→== num 0 ne)
          ∙ push_digits_lem fuel base locase (num / base) (digit locase (num % base) ∷ tmp) low high
              cases
              (omega
                (arith, div-add-mod' num base, mul-le-mul_left (num / base) low, pow-suc 2 fuel))
          ∙ ap (spelled base tmp) (
              ap (λ w. num / base * base + w)
                (worth-digit locase (num % base) cases
                  (omega (arith, mod-lt num {m = base} (omega arith))))
              ∙ div-add-mod' num base)
    ]

length-replicate : (n a : ℕ) → length (replicate n a) ≡ n
length-replicate zero a = refl
length-replicate (suc n) a = ap suc (length-replicate n a)

number_digits_lem :
    (base locase num : ℕ)
    → 2 ≤ base
    → base ≤ 16
    → (locase ≡ 0) ⊎ (locase ≡ 32)
    → num < 2 ^ 64
    → spelled base (number_digits base locase num) 0 ≡ num
unfolding number_digits
number_digits_lem base locase num low high cases fits = elim (ℕ_discrete num 0) [
  | yes e ↦
      ap (λ b. spelled base (if b then b'0' ∷ [] else push_digits 64 base locase num []) 0)
        ((==_iff num 0).1 e)
      ∙ omega (arith, e)
  | no ne ↦
      ap (λ b. spelled base (if b then b'0' ∷ [] else push_digits 64 base locase num []) 0)
        (ne→== num 0 ne)
      ∙ push_digits_lem 64 base locase num [] low high cases fits
]

-- `type & SMALL`
small_cases : (type : ℕ) → (bit_and type 32 ≡ 0) ⊎ (bit_and type 32 ≡ 32)
small_cases type =
    let high = and_split 5 (type / 32) (type % 32) 1 0 (omega arith) (omega arith) in
    let low = zero_and (type % 32) in
    let whole : bit_and type 32 ≡ bit_and (type / 32 * 2 ^ 5 + type % 32) (1 * 2 ^ 5 + 0) =
      ap (λ t. bit_and t 32) (omega arith) in
    let odd = and_mask 1 (type / 32) in
    elim (ℕ_discrete (type / 32 % 2) 0) [
      | yes e ↦ inl (omega (arith, high, low, whole, odd, e))
      | no ne ↦ inr (omega (arith, high, low, whole, odd, ne))
    ]

length-arranged :
    (is_padded is_left : Bool) (pad : ℕ) (front zeros digits : List ℕ)
    → length (arranged is_padded is_left pad front zeros digits)
      ≡ pad + length front + length zeros + length digits
length-arranged false false pad front zeros digits =
    let all : length (arranged false false pad front zeros digits)
        ≡ pad + length (front ++ (zeros ++ digits)) =
      length-append (replicate pad 32) (front ++ (zeros ++ digits))
      ∙ ap (λ n. n + length (front ++ (zeros ++ digits))) (length-replicate pad 32) in
    omega (arith, all, length-append front (zeros ++ digits), length-append zeros digits)
length-arranged true false pad front zeros digits =
    let all : length (arranged true false pad front zeros digits)
        ≡ length front + length (replicate pad b'0' ++ (zeros ++ digits)) =
      length-append front (replicate pad b'0' ++ (zeros ++ digits)) in
    omega (
      arith,
      all,
      length-append (replicate pad b'0') (zeros ++ digits),
      length-append zeros digits,
      length-replicate pad b'0',
    )
length-arranged false true pad front zeros digits =
    let all : length (arranged false true pad front zeros digits)
        ≡ length front + length (zeros ++ (digits ++ replicate pad 32)) =
      length-append front (zeros ++ (digits ++ replicate pad 32)) in
    omega (
      arith,
      all,
      length-append zeros (digits ++ replicate pad 32),
      length-append digits (replicate pad 32),
      length-replicate pad 32,
    )
length-arranged true true pad front zeros digits =
    let all : length (arranged true true pad front zeros digits)
        ≡ length front + length (zeros ++ (digits ++ replicate pad 32)) =
      length-append front (zeros ++ (digits ++ replicate pad 32)) in
    omega (
      arith,
      all,
      length-append zeros (digits ++ replicate pad 32),
      length-append digits (replicate pad 32),
      length-replicate pad 32,
    )

-- The width is that of the parts, or the field's where that is larger.
length-layout :
    (type size precision : ℕ) (sign prefix digits : List ℕ)
    → length (layout type size precision sign prefix digits)
      ≡ max size (length sign + length prefix + max precision (length digits))
length-layout type size precision sign prefix digits =
    let zeros = precision - length digits in
    let pad = size - length sign - length prefix - (length digits + zeros) in
    omega (
      arith,
      length-arranged (has_flag type zeropad) (has_flag type left) pad (sign ++ prefix)
          (replicate zeros b'0') digits,
      length-append sign prefix,
      length-replicate zeros b'0',
    )

sign_of_bound : (type num : ℕ) → num < 2 ^ 64 → (sign_of type num).1 < 2 ^ 64
sign_of_bound type num fits = ground arith

-- A base from 2 to 16 and a 64-bit number: `number_printf` prints the sign and the prefix that its flags
-- ask for and digits that spell the number without its sign, laid out by the flags, and what it prints
-- is as long as the width asks for, or as its parts with the precision are where that is longer.
pub number_printf_lem :
    (num base size precision type : ℕ)
    → num < 2 ^ 64
    → 2 ≤ base
    → base ≤ 16
    → let s = sign_of (shown type) num in
      let prefix = prefix_of (shown type) base (bit_and type small) in
      (digits : List ℕ) × (number_printf num base size precision type
        ≡ some (layout (shown type) size precision s.0 prefix digits))
      × (spelled base digits 0 ≡ s.1)
      × (length (layout (shown type) size precision s.0 prefix digits)
          ≡ max size (length s.0 + length prefix + max precision (length digits)))
unfolding number_printf
number_printf_lem num base size precision type fits low high =
    let locase = bit_and type small in
    let s = sign_of (shown type) num in
    let digits = number_digits base locase s.1 in
    (
      digits,
      ap₂
          (λ b c.
            if b || c
            then none
            else some (
                layout (shown type) size precision s.0 (prefix_of (shown type) base locase) digits))
          (le→ltb base 2 low) (le→ltb 16 base high),
      number_digits_lem base locase s.1 low high (small_cases type)
          (sign_of_bound (shown type) num fits),
      length-layout (shown type) size precision s.0 (prefix_of (shown type) base locase) digits,
    )
