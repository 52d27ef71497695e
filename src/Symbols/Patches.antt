-- ===== src/Symbols/Patches.antt =====
-- src/config.cpp: what `patch` writes, and that `unpatch` takes it back.
use fox_os_kernel.Prelude.{
  ℕ, zero, suc, ◌+◌, ◌≤◌, ◌<◌, ◌≡◌, refl, sym, ap, ◌∙◌, ◌≢◌, ◌⊎◌, inl, inr, none, some, List, [],
  ◌∷◌, arith, dec_lt, ℕ_discrete, if◌then◌else◌, ne→==, length, update, update_self, update_ne,
}
use fox_os_kernel.Net.{store_bytes, read_bytes}
use fox_os_kernel.Net.Bytes.{store_below, store_above}
use fox_os_kernel.Symbols.{Symbols, Patch, resolve_symbol, jump_code, patch_at, patch, unpatch}

-- The bytes from `dest` on are those of the list.
abbrev pub Holds : ℕ → List ℕ → (ℕ → ℕ) → Type 0
Holds dest [] m = Unit
Holds dest (b ∷ bytes) m = (m dest ≡ b) × Holds (dest + 1) bytes m

stored_outside :
    (bytes : List ℕ) (dest : ℕ) (mem : ℕ → ℕ) (a : ℕ)
    → (a < dest) ⊎ (dest + length bytes ≤ a)
    → store_bytes bytes dest mem a ≡ mem a
stored_outside bytes dest mem a (inl l) = store_below bytes dest a mem l
stored_outside bytes dest mem a (inr r) = store_above bytes dest a mem r

stored-Holds :
    (bytes : List ℕ) (dest : ℕ) (mem : ℕ → ℕ) → Holds dest bytes (store_bytes bytes dest mem)
unfolding store_bytes
stored-Holds [] dest mem = tt
stored-Holds (b ∷ bytes) dest mem = (
  stored_outside bytes (dest + 1) (update mem dest b) dest (inl (omega arith))
      ∙ update_self mem dest b,
  stored-Holds bytes (dest + 1) (update mem dest b),
)

store-load :
    (n src : ℕ) (mem m : ℕ → ℕ)
    → ((a : ℕ) → (a < src) ⊎ (src + n ≤ a) → m a ≡ mem a)
    → (a : ℕ) → store_bytes (read_bytes mem src n) src m a ≡ mem a
unfolding store_bytes read_bytes
store-load zero src mem m same a =
    same a (elim (dec_lt a src) [ yes l ↦ inl l | no g ↦ inr (omega (arith, g)) ])
store-load (suc n) src mem m same a =
    store-load n (src + 1) mem (update m src (mem src))
      (λ b out. elim (ℕ_discrete b src) [
        | yes e ↦ ap (update m src (mem src)) e ∙ update_self m src (mem src) ∙ ap mem (sym e)
        | no ne ↦
            update_ne m src b (mem src) (λ q. ne (sym q))
            ∙ same b (elim out [ inl l ↦ inl (omega (arith, ne)) | inr r ↦ inr (omega arith) ])
      ])
      a

jump_code_length : (new_func : ℕ) → length (jump_code new_func) ≡ 13
unfolding jump_code
jump_code_length new_func = refl

-- A name that resolves to a function: `patch` writes the jump to the new function over its first 13 bytes
-- and no other byte, and `unpatch` with the patch that it returned gives all of memory back as it was.
pub unpatch-patch :
    (held : Patch) (s : Symbols) (name : List ℕ) (new_func old_func : ℕ) (mem : ℕ → ℕ)
    → resolve_symbol s name ≡ some old_func
    → old_func ≢ 0
    → (p : Patch) × (m : ℕ → ℕ) × (patch held s name new_func mem ≡ some (p, m))
      × Holds old_func (jump_code new_func) m
      × ((a : ℕ) → (a < old_func) ⊎ (old_func + 13 ≤ a) → m a ≡ mem a)
      × ((a : ℕ) → unpatch p m a ≡ mem a)
unfolding patch unpatch
unpatch-patch held s name new_func old_func mem found pos =
    let outside : (a : ℕ)
        → (a < old_func) ⊎ (old_func + 13 ≤ a)
        → store_bytes (jump_code new_func) old_func mem a ≡ mem a =
      λ a out.
        stored_outside (jump_code new_func) old_func mem a (elim out [
          | inl l ↦ inl l
          | inr r ↦ inr (omega (arith, jump_code_length new_func, r))
        ]) in
    (
      record { old_addr = old_func; old_code = read_bytes mem old_func 13 },
      store_bytes (jump_code new_func) old_func mem,
      ap (λ o. elim o [ none ↦ none | some f ↦ some (patch_at held new_func f mem) ]) found
          ∙ ap
              (λ b. some (
                if b then (held, mem) else (
                  record { old_addr = old_func; old_code = read_bytes mem old_func 13 },
                  store_bytes (jump_code new_func) old_func mem,
                )))
              (ne→== old_func 0 pos),
      stored-Holds (jump_code new_func) old_func mem,
      outside,
      store-load 13 old_func mem (store_bytes (jump_code new_func) old_func mem) outside,
    )
