-- ===== src/Net/Bytes.antt =====
-- Bytes that are written one behind the other leave the others as they are.
use fox_os_kernel.Prelude.{
  ℕ, ◌+◌, ◌≤◌, ◌<◌, ◌≡◌, refl, ◌∙◌, List, [], ◌∷◌, arith, length, update, update_ne,
}
use fox_os_kernel.Net.{store_bytes}

pub store_below : (l : List ℕ) (a x : ℕ) (mem : ℕ → ℕ) → x < a → store_bytes l a mem x ≡ mem x
unfolding store_bytes
store_below [] a x mem h = refl
store_below (c ∷ l) a x mem h =
    store_below l (a + 1) x (update mem a c) (omega arith) ∙ update_ne mem a x c (λ e. omega arith)

pub store_above :
    (l : List ℕ) (a x : ℕ) (mem : ℕ → ℕ) → a + length l ≤ x → store_bytes l a mem x ≡ mem x
unfolding store_bytes
store_above [] a x mem h = refl
store_above (c ∷ l) a x mem h =
    store_above l (a + 1) x (update mem a c) (omega arith) ∙ update_ne mem a x c (λ e. omega arith)
