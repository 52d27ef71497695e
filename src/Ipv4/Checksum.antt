-- ===== src/Ipv4/Checksum.antt =====
-- src/net/ipv4.cpp: the loop that folds the checksum.
use fox_os_kernel.Prelude.{
  ℕ, zero, suc, ◌+◌, ◌/◌, ◌%◌, ◌^◌, ◌<◌, ◌≡◌, refl, ◌∙◌, ◌↔◌, ◌⊎◌, inl, inr, arith, dec_lt, ◌==◌,
  if◌then◌else◌, ne→==,
}
use fox_os_kernel.Ipv4.{fold}

fold_done : (n temp : ℕ) → temp < 65536 → fold n temp ≡ temp
unfolding fold
fold_done zero temp lt = refl
fold_done (suc n) temp lt = ground arith

fold_step :
    (n temp : ℕ)
    → fold (suc n) temp ≡ (if temp / 65536 == 0 then temp else fold n (temp % 65536 + temp / 65536))
unfolding fold
fold_step n temp = refl

fold_cases :
    (n temp : ℕ)
    → ((temp < 65536) × (fold (suc n) temp ≡ temp))
      ⊎ (fold (suc n) temp ≡ fold n (temp % 65536 + temp / 65536))
fold_cases n temp = elim (dec_lt temp 65536) [
  | yes p ↦ inl (p, fold_done (suc n) temp p)
  | no p ↦ inr (fold_step n temp ∙ rw (ne→== (temp / 65536) 0 (λ q. p (omega arith))) refl)
]

-- The loop that folds a 32-bit sum ends after at most two rounds, with a number of 16 bits that is
-- the sum modulo 65535, and that is 0 only where the sum is.
pub fold_lem :
    (n temp : ℕ)
    → temp < 2 ^ 32
    → (fold (suc (suc n)) temp < 65536)
      × (fold (suc (suc n)) temp % 65535 ≡ temp % 65535)
      × ((temp ≡ 0) ↔ (fold (suc (suc n)) temp ≡ 0))
fold_lem n temp lt = elim (fold_cases (suc n) temp) [
  | inl (p, e) ↦ rw e (p, refl, ((λ q. q), (λ q. q)))
  | inr e ↦ elim (fold_cases n (temp % 65536 + temp / 65536)) [
    | inl (p, e') ↦ rw (e ∙ e') (p, omega arith, ((λ q. omega arith), (λ q. omega arith)))
    | inr e' ↦
        rw (e ∙ e' ∙ fold_done n _ (omega arith))
          (omega arith, omega arith, ((λ q. omega arith), (λ q. omega arith)))
  ]
]
