-- ===== src/Examples/Symbols.antt =====
-- The symbols, the patches and the search in strings at concrete inputs.
use fox_os_kernel.Prelude.{ℕ, ◌+◌, ◌%◌, ◌≤◌, ◌<◌, ◌≡◌, refl, ◌⊎◌, some, [], ◌∷◌, arith}
use fox_os_kernel.Strings.Search.{Decides, strstr, strstr-Decides}
use fox_os_kernel.Symbols.{Symbols, Patch, resolve_symbol, resolve, jump_code, patch, unpatch}
use fox_os_kernel.Symbols.Search.{Finds, all_symbols, resolve_symbol-Finds}
use fox_os_kernel.Symbols.Patches.{Holds, unpatch-patch}

abbrev symbols : Symbols
symbols = record {
  elf_symbol_resolver = some (record { name = b'f' ∷ []; st_value = 4096; st_size = 32 } ∷ []);
  resolvers = (record { name = b'g' ∷ []; st_value = 8192; st_size = 16 } ∷ []) ∷ [];
}

resolve_symbol_example :
    (value : ℕ) × (resolve_symbol symbols (b'g' ∷ []) ≡ some value)
    × Finds
        (b'g' ∷ [])
        (all_symbols
          ((record { name = b'f' ∷ []; st_value = 4096; st_size = 32 } ∷ []) ∷ symbols.resolvers))
        value
resolve_symbol_example =
    resolve_symbol-Finds (b'g' ∷ []) symbols
      (record { name = b'f' ∷ []; st_value = 4096; st_size = 32 } ∷ []) refl

resolved : resolve_symbol symbols (b'g' ∷ []) ≡ some 8192
unfolding resolve_symbol resolve
resolved = refl

abbrev code : ℕ → ℕ
code a = a % 256

patch_example :
    (p : Patch) × (m : ℕ → ℕ) × (patch
        (record { old_addr = 0; old_code = [] })
        symbols
        (b'g' ∷ [])
        65536
        code
      ≡ some (p, m))
    × Holds 8192 (jump_code 65536) m
    × ((a : ℕ) → (a < 8192) ⊎ (8192 + 13 ≤ a) → m a ≡ code a)
    × ((a : ℕ) → unpatch p m a ≡ code a)
patch_example =
    unpatch-patch (record { old_addr = 0; old_code = [] }) symbols (b'g' ∷ []) 65536 8192 code
      resolved (λ e. absurd (omega (arith, e)))

-- `abc` and `ac`
strstr_example :
    Decides
      (b'a' ∷ b'b' ∷ b'c' ∷ [])
      (b'a' ∷ b'c' ∷ [])
      (strstr (b'a' ∷ b'b' ∷ b'c' ∷ []) (b'a' ∷ b'c' ∷ []))
strstr_example = strstr-Decides (b'a' ∷ b'b' ∷ b'c' ∷ []) (b'a' ∷ b'c' ∷ [])
