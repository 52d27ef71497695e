-- ===== src/Symbols/Frames.antt =====
-- src/config.cpp: what `unwind` reports of a stack.
use fox_os_kernel.Prelude.{
  ℕ, zero, suc, ◌+◌, max, ◌≡◌, refl, sym, ap, ap₂, ◌∙◌, ◌≢◌, List, [], ◌∷◌, if◌then◌else◌, ==_iff,
  ne→==,
}
use fox_os_kernel.Symbols.{unwind, unwind_from}

-- The frames from `stack` on, up to one whose `rbp` is 0.
abbrev pub IsStack : (ℕ → ℕ) → ℕ → List ℕ → Type 0
IsStack rbp stack [] = rbp stack ≡ 0
IsStack rbp stack (a ∷ frames) = (a ≡ stack) × (rbp stack ≢ 0) × IsStack rbp (rbp stack) frames

abbrev pub numbered : (ℕ → ℕ) → ℕ → ℕ → List ℕ → List (ℕ × ℕ)
numbered rip i max [] = []
numbered rip i zero (a ∷ frames) = []
numbered rip i (suc max) (a ∷ frames) = (i, rip a) ∷ numbered rip (i + 1) max frames

unwind_from_lem :
    (rbp rip : ℕ → ℕ) (i max stack : ℕ) (frames : List ℕ)
    → IsStack rbp stack frames
    → unwind_from rbp rip i max stack ≡ numbered rip i max frames
unfolding unwind_from
unwind_from_lem rbp rip i zero stack [] s = refl
unwind_from_lem rbp rip i zero stack (a ∷ frames) s = refl
unwind_from_lem rbp rip i (suc max) stack [] s =
    ap (λ b. if b then [] else (i, rip stack) ∷ unwind_from rbp rip (i + 1) max (rbp stack))
      ((==_iff (rbp stack) 0).1 s)
unwind_from_lem rbp rip i (suc max) stack (a ∷ frames) (same, more, rest) =
    ap (λ b. if b then [] else (i, rip stack) ∷ unwind_from rbp rip (i + 1) max (rbp stack))
      (ne→== (rbp stack) 0 more)
    ∙ ap₂ (λ x l. (i, rip x) ∷ l) (sym same)
        (unwind_from_lem rbp rip (i + 1) max (rbp stack) frames rest)

-- Frames that are linked by `rbp` up to one whose `rbp` is 0: `unwind` calls back for the first `max` of them
-- in their order, each with its number and its return address.
pub unwind_lem :
    (rbp rip : ℕ → ℕ) (max stack : ℕ) (frames : List ℕ)
    → IsStack rbp stack frames
    → unwind rbp rip max stack ≡ numbered rip 0 max frames
unfolding unwind
unwind_lem rbp rip max stack frames s = unwind_from_lem rbp rip 0 max stack frames s
