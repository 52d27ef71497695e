-- ===== src/Symbols.antt =====
-- src/scheduling/scheduler/elf.cpp and src/config.cpp: the symbols of the kernel and its modules, the walk up
-- the stack, and the patches of functions. A C string is the list of its bytes.
pub mod Search
pub mod Patches
pub mod Elf
pub mod Frames
use fox_os_kernel.Prelude.{
  ℕ, zero, suc, ◌+◌, ◌<◌, max, ◌&&◌, Option, none, some, List, [], ◌∷◌, ◌++◌, ltb, leb, ◌==◌,
  if◌then◌else◌, length, add64,
}
use fox_os_kernel.Net.{store_bytes, read_bytes, bytes_of}
use fox_os_kernel.Vfs.{eq_text}

-- A symbol, with the string that `st_name` is the offset of.
pub record Sym : Type 0 where
  pub name : List ℕ
  pub st_value : ℕ
  pub st_size : ℕ

-- `ElfSymbolResolver::resolve(char*)`: 0 is `nullptr`.
unfoldable pub resolve : List Sym → List ℕ → ℕ
resolve [] name = 0
resolve (s ∷ syms) name =
    let rest = resolve syms name in
    if s.st_value == 0 then rest else if eq_text s.name name then s.st_value else rest

-- `"<unknown function>"`
abbrev pub unknown_function : List ℕ
unknown_function =
    b'<' ∷ b'u' ∷ b'n' ∷ b'k' ∷ b'n' ∷ b'o' ∷ b'w' ∷ b'n' ∷ b' ' ∷ b'f' ∷ b'u' ∷ b'n' ∷ b'c' ∷ b't'
    ∷ b'i' ∷ b'o' ∷ b'n' ∷ b'>' ∷ []

-- `ElfSymbolResolver::resolve(void*)`
unfoldable pub resolve_address : List Sym → ℕ → List ℕ
resolve_address [] address = unknown_function
resolve_address (s ∷ syms) address =
    let rest = resolve_address syms address in
    if s.st_value == 0
    then rest
    else if leb s.st_value address && ltb address (add64 s.st_value s.st_size)
    then s.name
    else rest

-- A resolver is its table of symbols, and `none` is `nullptr`.
pub record Symbols : Type 0 where
  pub elf_symbol_resolver : Option (List Sym)
  pub resolvers : List (List Sym)

-- `none` where the 512 places are taken and the code writes behind its array.
unfoldable pub register_symbol_resolver : List Sym → Symbols → Option Symbols
register_symbol_resolver r s =
    if ltb (length s.resolvers) 512
    then some (record s { resolvers = s.resolvers ++ (r ∷ []) })
    else none

-- `for (i = 0; i < resolver_count; i++)` of the search for a name
unfoldable pub resolve_among : List (List Sym) → List ℕ → ℕ
unfolding resolve
resolve_among [] name = 0
resolve_among (r ∷ rs) name =
    let rest = resolve_among rs name in if resolve r name == 0 then rest else resolve r name

-- `uint64_t resolve_symbol(char* name)`
unfoldable pub resolve_symbol : Symbols → List ℕ → Option ℕ
unfolding resolve resolve_among
resolve_symbol s name = elim s.elf_symbol_resolver [
  | none ↦ none
  | some k ↦ some (if resolve k name == 0 then resolve_among s.resolvers name else resolve k name)
]

-- The loop of the search for an address, with the name that is left.
unfoldable pub name_among : List (List Sym) → ℕ → List ℕ → List ℕ
unfolding resolve_address
name_among [] address sym_name = sym_name
name_among (r ∷ rs) address sym_name =
    let rest = name_among rs address (resolve_address r address) in
    if eq_text (resolve_address r address) unknown_function then rest else resolve_address r address

-- `char* resolve_symbol(uint64_t address)`
unfoldable pub name_of : Symbols → ℕ → Option (List ℕ)
unfolding resolve_address name_among
name_of s address = elim s.elf_symbol_resolver [
  | none ↦ none
  | some k ↦
      let sym_name = resolve_address k address in
      some (
        if eq_text sym_name unknown_function
        then name_among s.resolvers address sym_name
        else sym_name)
]

-- `for (i = first; stack->rbp != 0 && i < max; i++)` over the frames at their addresses: the calls of the
-- callback.
unfoldable pub unwind_from : (ℕ → ℕ) → (ℕ → ℕ) → ℕ → ℕ → ℕ → List (ℕ × ℕ)
unwind_from rbp rip i zero stack = []
unwind_from rbp rip i (suc rounds) stack =
    let rest = unwind_from rbp rip (i + 1) rounds (rbp stack) in
    if rbp stack == 0 then [] else (i, rip stack) ∷ rest

unfoldable pub unwind : (ℕ → ℕ) → (ℕ → ℕ) → ℕ → ℕ → List (ℕ × ℕ)
unfolding unwind_from
unwind rbp rip max stack = unwind_from rbp rip 0 max stack

pub record Patch : Type 0 where
  pub old_addr : ℕ
  pub old_code : List ℕ

-- `mov r15, new_func; jmp r15`
unfoldable pub jump_code : ℕ → List ℕ
jump_code new_func = (0x49 ∷ 0xbf ∷ bytes_of 8 new_func) ++ (0x41 ∷ 0xff ∷ 0xe7 ∷ [])

abbrev pub patch_at : Patch → ℕ → ℕ → (ℕ → ℕ) → Patch × (ℕ → ℕ)
patch_at held new_func old_func mem = if old_func == 0 then (held, mem) else (
  record { old_addr = old_func; old_code = read_bytes mem old_func 13 },
  store_bytes (jump_code new_func) old_func mem,
)

-- `malloc` gives a `patch_t` that holds `held`, which is what is returned where there is no such name.
unfoldable pub patch : Patch → Symbols → List ℕ → ℕ → (ℕ → ℕ) → Option (Patch × (ℕ → ℕ))
unfolding resolve_symbol store_bytes read_bytes jump_code
patch held s name new_func mem = elim (resolve_symbol s name) [
  | none ↦ none
  | some old_func ↦ some (patch_at held new_func old_func mem)
]

unfoldable pub unpatch : Patch → (ℕ → ℕ) → ℕ → ℕ
unfolding store_bytes
unpatch p mem = store_bytes p.old_code p.old_addr mem
