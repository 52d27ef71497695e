-- ===== src/Dhcp/Options.antt =====
-- src/net/dhcp.cpp: the search of an option finds what an encoder of options has put there.
use fox_os_kernel.Prelude.{
  ℕ, zero, suc, ◌<◌, ◌≡◌, refl, sym, ap, ◌∙◌, ◌≢◌, inl, inr, Bool, Option, none, some, List, [],
  ◌∷◌, ◌++◌, arith, ◌==◌, if◌then◌else◌, ne→==, Bool-cases, length, length-append,
}
use fox_os_kernel.Dhcp.{drop, find_option, get_dhcp_options}

abbrev pub encode : List (ℕ × List ℕ) → List ℕ → List ℕ
encode [] behind = 0xff ∷ behind
encode ((type, bytes) ∷ options) behind = type ∷ length bytes ∷ bytes ++ encode options behind

-- The bytes from the data of the first option of this type on.
abbrev pub first_of : ℕ → List (ℕ × List ℕ) → List ℕ → Option (List ℕ)
first_of type [] behind = none
first_of type ((t, bytes) ∷ options) behind =
    let rest = first_of type options behind in
    if t == type then some (bytes ++ encode options behind) else rest

abbrev pub NoEnd : List (ℕ × List ℕ) → Type 0
NoEnd [] = Unit
NoEnd (o ∷ options) = (o.0 ≢ 0xff) × NoEnd options

drop-append : (s t : List ℕ) → drop (length s) (s ++ t) ≡ t
drop-append [] t = refl
drop-append (c ∷ s) t = drop-append s t

find_option-encode :
    (fuel type : ℕ) (options : List (ℕ × List ℕ)) (last : ℕ) (behind : List ℕ)
    → NoEnd options
    → length options < fuel
    → find_option fuel type (encode options (last ∷ behind))
      ≡ some (first_of type options (last ∷ behind))
unfolding find_option
find_option-encode zero type options last behind h f = absurd (omega arith)
find_option-encode (suc fuel) type [] last behind h f = refl
find_option-encode (suc fuel) type ((t, bytes) ∷ options) last behind h f =
    let all = encode options (last ∷ behind) in
    let next = find_option fuel type (drop (length bytes) (bytes ++ all)) in
    let here = λ (b : Bool). if b then some (some (bytes ++ all)) else next in
    let there =
      λ (b : Bool). if b then some (bytes ++ all) else first_of type options (last ∷ behind) in
    ap (λ b. if b then some none else here (t == type)) (ne→== t 0xff h.0)
    ∙ elim (Bool-cases (t == type)) [
      | inl e ↦ ap here e ∙ ap (λ b. some (there b)) (sym e)
      | inr e ↦
          ap here e
          ∙ ap (find_option fuel type) (drop-append bytes all)
          ∙ find_option-encode fuel type options last behind h.1 (omega arith)
          ∙ ap (λ b. some (there b)) (sym e)
    ]

length-encode :
    (options : List (ℕ × List ℕ)) (behind : List ℕ)
    → length options < length (encode options behind)
length-encode [] behind = omega arith
length-encode ((t, bytes) ∷ options) behind =
    omega (arith, length-append bytes (encode options behind), length-encode options behind)

-- The four bytes of the cookie, any options whose types are not 255, the end and at least one byte behind
-- it: `get_dhcp_options` ends, and gives the first option of the type that is asked for, at its data,
-- or `nullptr` where there is none.
pub get_dhcp_options_lem :
    (a b c d type last : ℕ) (options : List (ℕ × List ℕ)) (behind : List ℕ)
    → NoEnd options
    → get_dhcp_options (a ∷ b ∷ c ∷ d ∷ encode options (last ∷ behind)) type
      ≡ some (first_of type options (last ∷ behind))
unfolding get_dhcp_options
get_dhcp_options_lem a b c d type last options behind h =
    find_option-encode (suc (suc (suc (suc (suc (length (encode options (last ∷ behind)))))))) type
      options last behind h (omega (arith, length-encode options (last ∷ behind)))
