-- ===== src/Strings.antt =====
-- src/string.cpp: the C string routines on a byte memory. A routine that only reads takes the bytes
-- from its pointer on. The loops end at a 0 that the memory holds somewhere, so they have fuel.
pub mod Copy
pub mod Compare
pub mod Search
use fox_os_kernel.Prelude.{
  ℕ, zero, suc, ◌+◌, ◌-◌, ◌%◌, ◌^◌, not, ◌&&◌, ◌||◌, Option, none, some, ltb, ◌==◌, if◌then◌else◌,
  update, for_range, count,
}

-- `do { *dest++ = *src++; } while (*src != 0);`
unfoldable pub strcpy : ℕ → ℕ → ℕ → (ℕ → ℕ) → Option (ℕ → ℕ)
strcpy zero dest src mem = none
strcpy (suc fuel) dest src mem =
    let m = update mem dest (mem src) in
    let rest = strcpy fuel (dest + 1) (src + 1) m in if m (src + 1) == 0 then some m else rest

unfoldable pub strlen_from : ℕ → ℕ → (ℕ → ℕ) → Option ℕ
strlen_from zero i s = none
strlen_from (suc fuel) i s =
    let rest = strlen_from fuel (i + 1) s in if s i == 0 then some i else rest

unfoldable pub strlen : ℕ → (ℕ → ℕ) → Option ℕ
unfolding strlen_from
strlen fuel s = strlen_from fuel 0 s

unfoldable pub strnlen_from : (ℕ → ℕ) → ℕ → ℕ → ℕ
strnlen_from s i zero = i
strnlen_from s i (suc n) = let rest = strnlen_from s (i + 1) n in if s i == 0 then i else rest

unfoldable pub strnlen : (ℕ → ℕ) → ℕ → ℕ
unfolding strnlen_from
strnlen s maxlen = strnlen_from s 0 maxlen

-- `for (j = 0; src[j] != 0; j++) dest[i + j] = src[j]; dest[i + j] = 0;`
unfoldable pub append_from : ℕ → ℕ → ℕ → (ℕ → ℕ) → Option (ℕ → ℕ)
append_from zero dest src mem = none
append_from (suc fuel) dest src mem =
    let rest = append_from fuel (dest + 1) (src + 1) (update mem dest (mem src)) in
    if mem src == 0 then some (update mem dest 0) else rest

unfoldable pub strcat : ℕ → ℕ → ℕ → (ℕ → ℕ) → Option (ℕ → ℕ)
unfolding strlen append_from
strcat fuel dest src mem = elim (strlen fuel (λ i. mem (dest + i))) [
  | none ↦ none
  | some i ↦ append_from fuel (dest + i) src mem
]

unfoldable pub strcmp_from : ℕ → ℕ → (ℕ → ℕ) → (ℕ → ℕ) → Option ℕ
strcmp_from zero i s t = none
strcmp_from (suc fuel) i s t =
    let rest = strcmp_from fuel (i + 1) s t in
    let ended = if s i == 0 && not (t i == 0) || not (s i == 0) && t i == 0 then 1 else 0 in
    if not (s i == 0) && not (t i == 0) then (if s i == t i then rest else some 1) else some ended

unfoldable pub strcmp : ℕ → (ℕ → ℕ) → (ℕ → ℕ) → Option ℕ
unfolding strcmp_from
strcmp fuel s t = strcmp_from fuel 0 s t

-- The offset of the character, `none` for `NULL`.
unfoldable pub strchr_from : ℕ → ℕ → (ℕ → ℕ) → ℕ → Option (Option ℕ)
strchr_from zero i s c = none
strchr_from (suc fuel) i s c =
    let rest = strchr_from fuel (i + 1) s c in
    if s i == 0 then some none else if s i == c then some (some i) else rest

unfoldable pub strchr : ℕ → (ℕ → ℕ) → ℕ → Option (Option ℕ)
unfolding strchr_from
strchr fuel s c = strchr_from fuel 0 s (c % 256)

unfoldable pub memcpy : ℕ → ℕ → ℕ → (ℕ → ℕ) → ℕ → ℕ
memcpy dest src zero mem = mem
memcpy dest src (suc n) mem = memcpy (dest + 1) (src + 1) n (update mem dest (mem src))

-- The difference of the two bytes, as an `int` of two's complement.
unfoldable pub memcmp_from : (ℕ → ℕ) → (ℕ → ℕ) → ℕ → ℕ → ℕ
memcmp_from s t i zero = 0
memcmp_from s t i (suc n) =
    let rest = memcmp_from s t (i + 1) n in
    if s i == t i then rest else (s i + 2 ^ 32 - t i) % 2 ^ 32

unfoldable pub memcmp : (ℕ → ℕ) → (ℕ → ℕ) → ℕ → ℕ
unfolding memcmp_from
memcmp s t n = memcmp_from s t 0 n

unfoldable pub strncmp_from : (ℕ → ℕ) → (ℕ → ℕ) → ℕ → ℕ → ℕ
strncmp_from s t i zero = 0
strncmp_from s t i (suc n) =
    let rest = strncmp_from s t (i + 1) n in
    if not (s i == 0) && s i == t i then rest else (s i + 2 ^ 32 - t i) % 2 ^ 32

unfoldable pub strncmp : (ℕ → ℕ) → (ℕ → ℕ) → ℕ → ℕ
unfolding strncmp_from
strncmp s t n = strncmp_from s t 0 n

-- `strncpy(dst, src, count)`
unfoldable pub strncpy : ℕ → ℕ → ℕ → ℕ → (ℕ → ℕ) → Option (ℕ → ℕ)
unfolding strlen memcpy
strncpy fuel dst src limit mem = elim (strlen fuel (λ i. mem (src + i))) [
  | none ↦ none
  | some n ↦
      let len = if ltb limit n then limit else n in
      some (for_range (limit - len) len (λ i m. update m (dst + i) 0) (memcpy dst src len mem))
]
