-- ===== src/Symbols/Elf.antt =====
-- src/scheduling/scheduler/elf.cpp: the constructor of `ElfSymbolResolver`, which looks the tables up among
-- the sections of a file.
use fox_os_kernel.Prelude.{ℕ, ◌+◌, ◌/◌, not, List, [], ◌∷◌, ◌==◌, if◌then◌else◌, add64}
use fox_os_kernel.Net.{bswap32, word32}

pub record Shdr : Type 0 where
  pub sh_type : ℕ
  pub sh_offset : ℕ
  pub sh_size : ℕ

-- `symbol_table_information`, without the sections themselves.
pub record SymInfo : Type 0 where
  pub sym_entries : ℕ
  pub sym_count : ℕ
  pub sym_str_table : ℕ
  pub sym_str_table_size : ℕ
  pub sect_str_table : ℕ
  pub sect_str_table_size : ℕ

-- The body of the loop for section `i`; an `Elf64_Sym` has 24 bytes.
unfoldable pub with_section : ℕ → ℕ → ℕ → Shdr → SymInfo → SymInfo
with_section raw section_string_index i h info =
    if h.sh_type == 0x2
    then record info { sym_entries = add64 raw h.sh_offset; sym_count = h.sh_size / 24 }
    else if h.sh_type == 0x3
    then (if section_string_index == i
        then record info { sect_str_table = add64 raw h.sh_offset; sect_str_table_size = h.sh_size }
        else record info { sym_str_table = add64 raw h.sh_offset; sym_str_table_size = h.sh_size })
    else info

unfoldable pub with_sections : ℕ → ℕ → ℕ → List Shdr → SymInfo → SymInfo
unfolding with_section
with_sections raw section_string_index i [] info = info
with_sections raw section_string_index i (h ∷ shdrs) info =
    with_sections raw section_string_index (i + 1) shdrs
      (with_section raw section_string_index i h info)

-- `ident` are the bytes of `e_ident`; a file that is no ELF file or not of 64 bits leaves what memory held.
unfoldable pub new_resolver : (ℕ → ℕ) → ℕ → ℕ → List Shdr → SymInfo → SymInfo
unfolding with_sections
new_resolver ident raw section_string_index shdrs info =
    if not (bswap32 (word32 ident 0) == 0x7F454C46)
    then info
    else if not (ident 4 == 2)
    then info
    else with_sections raw section_string_index 0 shdrs info
