-- ===== src/Keyboard/Switch.antt =====
-- src/driver/keyboard.cpp: the `switch` on a scan code, as the list of its cases.
use fox_os_kernel.Prelude.{ℕ, List, [], ◌∷◌, ◌==◌, if◌then◌else◌}

unfoldable pub switch {ℓ} : {A : Type ℓ} → A → List (ℕ × A) → ℕ → A
switch other [] key = other
switch other (c ∷ cases) key = let rest = switch other cases key in if key == c.0 then c.1 else rest
