-- ===== src/Strings/Compare.antt =====
-- src/string.cpp: the routines that read.
use fox_os_kernel.Prelude.{
  ℕ, zero, suc, ◌+◌, ◌≤◌, ◌<◌, ◌≡◌, refl, sym, ◌∙◌, subst, ◌≢◌, ◌↔◌, some, arith, ℕ_discrete,
  ==_refl, ne→==,
}
use fox_os_kernel.Strings.{strlen, strlen_from, strcmp, strcmp_from}

-- The string that starts here has `n` characters.
abbrev pub IsString : (ℕ → ℕ) → ℕ → Type 0
IsString s n = ((j : ℕ) → j < n → s j ≢ 0) × (s n ≡ 0)

strlen_from_lem :
    (fuel i n : ℕ) (s : ℕ → ℕ) → IsString s n → i ≤ n → n < i + fuel → strlen_from fuel i s ≡ some n
unfolding strlen_from
strlen_from_lem zero i n s h l f = absurd (omega arith)
strlen_from_lem (suc fuel) i n s h l f = elim (ℕ_discrete i n) [
  | yes p ↦ rw (p, h.1) refl
  | no p ↦
      rw (ne→== (s i) 0 (h.0 i (omega arith)))
        (strlen_from_lem fuel (i + 1) n s h (omega arith) (omega arith))
]

-- `strlen` gives the number of characters, and needs one more round.
pub strlen_lem : (fuel n : ℕ) (s : ℕ → ℕ) → IsString s n → n < fuel → strlen fuel s ≡ some n
unfolding strlen
strlen_lem fuel n s h f = strlen_from_lem fuel 0 n s h (omega arith) (omega arith)

-- The strings have the same characters.
abbrev pub SameString : (ℕ → ℕ) → ℕ → (ℕ → ℕ) → ℕ → Type 0
SameString s n t m = (n ≡ m) × ((j : ℕ) → j < n → s j ≡ t j)

strcmp_from_lem :
    (fuel i n m : ℕ) (s t : ℕ → ℕ)
    → IsString s n
    → IsString t m
    → i ≤ n
    → i ≤ m
    → n < i + fuel
    → ((j : ℕ) → j < i → s j ≡ t j)
    → (r : ℕ) × (strcmp_from fuel i s t ≡ some r) × ((r ≡ 0) ↔ SameString s n t m)
unfolding strcmp_from
strcmp_from_lem zero i n m s t h k l l' f e = absurd (omega arith)
strcmp_from_lem (suc fuel) i n m s t h k l l' f e = elim (ℕ_discrete i n) [
  | yes p ↦ elim (ℕ_discrete i m) [
    | yes q ↦
        rw (p, h.1, subst (λ j. t j ≡ 0) (sym q ∙ p) k.1)
          (0, refl, ((λ _. (sym p ∙ q, λ j lt. e j (omega arith))), λ _. refl))
    | no q ↦
        rw (p, h.1, ne→== (t n) 0 (k.0 n (omega arith)))
          (1, refl, ((λ z. absurd (omega arith)), λ z. absurd (q (p ∙ z.0))))
  ]
  | no p ↦ elim (ℕ_discrete i m) [
    | yes q ↦
        rw (q, k.1, ne→== (s m) 0 (h.0 m (omega arith)))
          (1, refl, ((λ z. absurd (omega arith)), λ z. absurd (p (q ∙ sym z.0))))
    | no q ↦ elim (ℕ_discrete (s i) (t i)) [
      | yes r ↦
          rw
            (
              ne→== (s i) 0 (h.0 i (omega arith)),
              ne→== (t i) 0 (k.0 i (omega arith)),
              r,
              ==_refl (t i),
            )
            (strcmp_from_lem fuel (i + 1) n m s t h k (omega arith) (omega arith) (omega arith)
              (λ j lt. elim (ℕ_discrete j i) [
                | yes y ↦ subst (λ x. s x ≡ t x) (sym y) r
                | no y ↦ e j (omega arith)
              ]))
      | no r ↦
          rw
            (
              ne→== (s i) 0 (h.0 i (omega arith)),
              ne→== (t i) 0 (k.0 i (omega arith)),
              ne→== (s i) (t i) r,
            )
            (1, refl, ((λ z. absurd (omega arith)), λ z. absurd (r (z.1 i (omega arith)))))
    ]
  ]
]

-- Two strings, with a round more than the first has characters: `strcmp` returns, and it gives 0
-- exactly where the two have the same characters.
pub strcmp_lem :
    (fuel n m : ℕ) (s t : ℕ → ℕ)
    → IsString s n
    → IsString t m
    → n < fuel
    → (r : ℕ) × (strcmp fuel s t ≡ some r) × ((r ≡ 0) ↔ SameString s n t m)
unfolding strcmp
strcmp_lem fuel n m s t h k f =
    strcmp_from_lem fuel 0 n m s t h k (omega arith) (omega arith) (omega arith)
      (λ j lt. absurd (omega arith))
