-- ===== src/Strings/Search.antt =====
-- src/string.cpp: `strstr` and `strrchr`.
use fox_os_kernel.Prelude.{
  ℕ, zero, suc, ◌+◌, ◌%◌, ◌≡◌, sym, ap, subst, ◌≢◌, ◌⊎◌, inl, inr, Option, none, some, List, [],
  ◌∷◌, ℕ_discrete, ◌==◌, if◌then◌else◌, ==_iff, ne→==,
}
use fox_os_kernel.Strings.{strchr}

abbrev pub one_more : Option ℕ → Option ℕ
one_more none = none
one_more (some o) = some (o + 1)

-- The offset from `X` on of what `strstr` returns, for strings as lists of their bytes. A round of the
-- loop that goes on is the search in the rest of `X`; one that finds the first character of `Y` searches
-- the rest of `Y` behind it and returns one less than the pointer that this gives.
unfoldable pub strstr : List ℕ → List ℕ → Option ℕ
strstr x [] = some 0
strstr [] (c ∷ y) = none
strstr (d ∷ x) (c ∷ y) =
    let behind = strstr x y in
    let later = one_more (strstr x (c ∷ y)) in if d == c then behind else later

-- `while ((p = strchr(s, c)) != NULL) { found = p; s = p + 1; }`, with offsets from `s` on
unfoldable pub strrchr_from : ℕ → ℕ → (ℕ → ℕ) → ℕ → Option ℕ → ℕ → Option (Option ℕ)
strrchr_from inner zero s c found from_here = none
strrchr_from inner (suc fuel) s c found from_here = elim (strchr inner (λ i. s (from_here + i)) c) [
  | none ↦ none
  | some none ↦ some found
  | some (some p) ↦ strrchr_from inner fuel s c (some (from_here + p)) (from_here + p + 1)
]

unfoldable pub strrchr : ℕ → ℕ → (ℕ → ℕ) → ℕ → Option (Option ℕ)
unfolding strrchr_from
strrchr inner fuel s c =
    if c % 256 == 0 then strchr inner s 0 else strrchr_from inner fuel s (c % 256) none 0

-- The characters of `y` stand in `x` in their order, with any others between them.
abbrev pub IsWithin : List ℕ → List ℕ → Type 0
IsWithin [] x = Unit
IsWithin (c ∷ y) [] = ⊥
IsWithin (c ∷ y) (d ∷ x) = ((d ≡ c) × IsWithin y x) ⊎ IsWithin (c ∷ y) x

rest-IsWithin : (c : ℕ) (y x : List ℕ) → IsWithin (c ∷ y) x → IsWithin y x
rest-IsWithin c y [] w = absurd w
rest-IsWithin c [] (d ∷ x) w = tt
rest-IsWithin c (e ∷ y) (d ∷ x) (inl (same, w)) = inr w
rest-IsWithin c (e ∷ y) (d ∷ x) (inr w) = inr (rest-IsWithin c (e ∷ y) x w)

abbrev pub Decides : List ℕ → List ℕ → Option ℕ → Type 0
Decides x y none = ¬ IsWithin y x
Decides x y (some o) = IsWithin y x

later-Decides :
    (d c : ℕ) (x y : List ℕ) (o : Option ℕ)
    → d ≢ c
    → Decides x (c ∷ y) o
    → Decides (d ∷ x) (c ∷ y) (one_more o)
later-Decides d c x y none ne not_in = λ w. elim w [ inl p ↦ ne p.0 | inr q ↦ not_in q ]
later-Decides d c x y (some o) ne w = inr w

behind-Decides :
    (d c : ℕ) (x y : List ℕ) (o : Option ℕ) → d ≡ c → Decides x y o → Decides (d ∷ x) (c ∷ y) o
behind-Decides d c x y none same not_in =
    λ w. elim w [ inl p ↦ not_in p.1 | inr q ↦ not_in (rest-IsWithin c y x q) ]
behind-Decides d c x y (some o) same w = inl (same, w)

-- Two strings: `strstr` returns a pointer exactly where the characters of the second stand in the first
-- in their order, and `NULL` otherwise; they need not stand next to each other.
pub strstr-Decides : (x y : List ℕ) → Decides x y (strstr x y)
unfolding strstr
strstr-Decides x [] = tt
strstr-Decides [] (c ∷ y) = λ w. w
strstr-Decides (d ∷ x) (c ∷ y) =
    let behind = strstr x y in
    let later = one_more (strstr x (c ∷ y)) in
    elim (ℕ_discrete d c) [
      | yes e ↦
          subst (Decides (d ∷ x) (c ∷ y))
            (sym (ap (λ b. if b then behind else later) ((==_iff d c).1 e)))
            (behind-Decides d c x y behind e (strstr-Decides x y))
      | no ne ↦
          subst (Decides (d ∷ x) (c ∷ y))
            (sym (ap (λ b. if b then behind else later) (ne→== d c ne)))
            (later-Decides d c x y (strstr x (c ∷ y)) ne (strstr-Decides x (c ∷ y)))
    ]
