-- ===== src/Examples/Startup.antt =====
-- The memory map, the boot loader's files and file descriptors at concrete inputs.
use fox_os_kernel.Prelude.{ℕ, ◌≡◌, refl, true, false, none, some, List, [], ◌∷◌}
use fox_os_kernel.PageFrames.{Allocator}
use fox_os_kernel.PageFrames.Boot.{MapEntry}
use fox_os_kernel.Vfs.{VfsMount, World, Vfs}
use fox_os_kernel.Vfs.Moves.{copy_all}
use fox_os_kernel.BootFiles.{File, Ram, BootModule, initialise_stivale_modules}
use fox_os_kernel.BootFiles.Reads.{copy_all_endless}

-- One MiB that is not usable, and one behind it that is.
abbrev map_entries : List MapEntry
map_entries =
    record { base = 0; length = 1048576; is_usable = false }
    ∷ record { base = 1048576; length = 1048576; is_usable = true }
    ∷ []

abbrev no_memory : Allocator
no_memory = record {
  page_bitmap = record { size = 0; buffer = λ i. 0 };
  free_memory = 0;
  reserved_memory = 0;
  used_memory = 0;
  page_bitmap_index = 0;
}

abbrev no_file : File
no_file = record { is_readable = 0; is_writable = 0; is_error = 0; size = 0; data_at = 0; pos = 0 }

abbrev ram : World Ram
ram = record { errno = some 0; device = record { files = λ s. no_file; bytes = λ a. a } }

abbrev modules : ℕ → BootModule
modules i = record { first = 1000; last = 1010; string = b'm' ∷ [] }

abbrev nothing : VfsMount Ram
nothing = record {
  read = none;
  write = none;
  open_file = none;
  close = none;
  opendir = none;
  closedir = none;
  readdir = none;
  rewinddir = none;
  seek = none;
  tell = none;
  mkdir = none;
  unlink = none;
  rename = none;
  mount = none;
  unmount = none;
}

abbrev drivers : ℕ → VfsMount Ram
drivers m = initialise_stivale_modules (λ w. 64) modules 1 nothing

-- Stream 64 on mount 5.
abbrev files_open : Vfs Ram
files_open = record {
  vfs_nodes = none;
  text = λ p. [];
  node = λ m. none;
  streams = λ s. some 5;
  dirs = λ s. none;
  world = ram;
}

copy_all_example : copy_all drivers 4096 20 8192 64 65 files_open ≡ none
unfolding initialise_stivale_modules
copy_all_example = copy_all_endless drivers 4096 8192 64 65 5 20 files_open refl refl
