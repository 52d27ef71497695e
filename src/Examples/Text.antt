-- ===== src/Examples/Text.antt =====
-- The string routines at concrete inputs.
use fox_os_kernel.Prelude.{
  ℕ, zero, suc, ◌+◌, ◌<◌, ◌≡◌, refl, ◌≢◌, ◌↔◌, inr, some, arith, ◌==◌, if◌then◌else◌,
}
use fox_os_kernel.Strings.{strcpy, strcmp}
use fox_os_kernel.Strings.Copy.{Copied, strcpy-Copied}
use fox_os_kernel.Strings.Compare.{IsString, SameString, strcmp_lem}

-- The string `AB` at 100, and 7 everywhere else.
abbrev memory : ℕ → ℕ
memory a = if a == 100 then 65 else if a == 101 then 66 else if a == 102 then 0 else 7

memory-IsString : IsString (λ i. memory (100 + i)) 2
memory-IsString = (characters, refl)
  where
    characters : (j : ℕ) → j < 2 → memory (100 + j) ≢ 0
    characters zero lt e = omega arith
    characters (suc zero) lt e = omega arith
    characters (suc (suc j)) lt e = omega arith

strcpy_example : (m : ℕ → ℕ) × (strcpy 5 200 100 memory ≡ some m) × Copied 200 100 2 memory m
strcpy_example =
    strcpy-Copied 5 200 100 1 memory (omega arith) (inr (omega arith)) memory-IsString.0 refl

strcmp_example :
    (r : ℕ) × (strcmp 5 (λ i. memory (100 + i)) (λ i. memory (100 + i)) ≡ some r)
    × ((r ≡ 0) ↔ SameString (λ i. memory (100 + i)) 2 (λ i. memory (100 + i)) 2)
strcmp_example =
    strcmp_lem 5 2 2 (λ i. memory (100 + i)) (λ i. memory (100 + i)) memory-IsString memory-IsString
      (omega arith)
