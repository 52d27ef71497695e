-- ===== src/Prelude/Loops.antt =====
-- Counted loops, and counting.
use Prim.Native.Nat.{ℕ, zero, suc, ◌+◌, ◌<◌}
use mathlib.Core.Path.{◌≡◌, refl, ap, sym, subst}
use mathlib.Core.Bool.{Bool, true, false}
use native.Mathlib.Omega.{arith}
use native.Mathlib.Decide.{ℕ_discrete}
use fox_os_kernel.Prelude.Tests.{◌==◌, if◌then◌else◌}

-- `for (k = first; k < first + rounds; k++) state = step(k, state);`
unfoldable pub for_range {ℓ} : {S : Type ℓ} → ℕ → ℕ → (ℕ → S → S) → S → S
for_range zero first step state = state
for_range (suc rounds) first step state = for_range rounds (first + 1) step (step first state)

-- An invariant that each round keeps, where the rounds are those below `last`.
pub for_range_inv {ℓ κ} :
    {S : Type ℓ} (Holds : ℕ → S → Type κ) (step : ℕ → S → S) (rounds first last : ℕ)
    → first + rounds ≡ last
    → ((k : ℕ) (state : S) → k < last → Holds k state → Holds (k + 1) (step k state))
    → (state : S) → Holds first state
    → Holds last (for_range rounds first step state)
unfolding for_range
for_range_inv Holds step zero first last ends keeps state now =
    subst (λ k. Holds k state) (omega (arith, ends)) now
for_range_inv Holds step (suc rounds) first last ends keeps state now =
    for_range_inv Holds step rounds (first + 1) last (omega arith) keeps (step first state)
      (keeps first state (omega arith) now)

-- How many numbers below `n` pass the test.
unfoldable pub count : (ℕ → Bool) → ℕ → ℕ
count p zero = 0
count p (suc n) = let rest = count p n in if p n then suc rest else rest

pub count_same : (p q : ℕ → Bool) (n : ℕ) → ((k : ℕ) → k < n → q k ≡ p k) → count q n ≡ count p n
unfolding count
count_same p q zero h = refl
count_same p q (suc n) h = rw (h n (omega arith), count_same p q n (λ k lt. h k (omega arith))) refl

-- One more test passes.
pub count_flip :
    (p q : ℕ → Bool) (i n : ℕ)
    → ((k : ℕ) → q k ≡ (if i == k then true else p k))
    → p i ≡ false
    → i < n
    → count q n ≡ count p n + 1
unfolding count
count_flip p q i zero h e lt = absurd (omega arith)
count_flip p q i (suc n) h e lt = elim (ℕ_discrete i n) [
  | yes eq ↦ rw (h n) (ground (arith, ap p eq, count_same p q n (λ k b. sym (pass k b eq))))
  | no ne ↦ rw (h n) (ground (arith, count_flip p q i n h e (omega arith)))
]
  where
    pass : (k : ℕ) → k < n → i ≡ n → p k ≡ q k
    pass k b eq = ground (arith, h k)
