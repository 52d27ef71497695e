-- ===== src/BootFiles.antt =====
-- src/fs/stivale/vfs.cpp: the modules that the boot loader has loaded, as a driver of the virtual file
-- system. A `FILE` is what memory holds at its address, so a field that `open` does not set keeps
-- what was there.
pub mod Laws
pub mod Reads
use fox_os_kernel.Prelude.{
  ℕ, zero, suc, ◌+◌, ◌<◌, Bool, not, ◌&&◌, ◌||◌, Option, none, some, List, [], ◌∷◌, ◌==◌,
  if◌then◌else◌, set, add64, sub64, update, for_range, count,
}
use fox_os_kernel.Vfs.{
  VfsMount, World, eq_text, code, set_errno, vfs_not_implemented, vfs_file_not_found, minus_one,
}

pub record File : Type 0 where
  pub is_readable : ℕ
  pub is_writable : ℕ
  pub is_error : ℕ
  pub size : ℕ
  pub data_at : ℕ
  pub pos : ℕ

-- The `FILE`s by address, and the bytes of memory.
pub record Ram : Type 0 where
  pub files : ℕ → File
  pub bytes : ℕ → ℕ

-- `stivale2_module`: the addresses of its first byte and behind its last, and its name.
pub record BootModule : Type 0 where
  pub first : ℕ
  pub last : ℕ
  pub string : List ℕ

abbrev pub put_file : ℕ → File → World Ram → World Ram
put_file s f w = record w { device = record w.device { files = update w.device.files s f } }

abbrev pub refused : ℕ → ℕ → World Ram → Option ℕ × World Ram
refused s e w = (
  some s,
  record (put_file s (record (w.device.files s) { is_error = 1 }) w) {
    errno = set_errno e w.errno;
  },
)

-- `"w"`, `"a"`, `"r+"`, `"w+"` and `"a+"`
abbrev pub is_unsupported : List ℕ → Bool
is_unsupported mode =
    eq_text mode (b'w' ∷ [])
    || eq_text mode (b'a' ∷ [])
    || eq_text mode (b'r' ∷ b'+' ∷ [])
    || eq_text mode (b'w' ∷ b'+' ∷ [])
    || eq_text mode (b'a' ∷ b'+' ∷ [])

-- `for (i = first; i < count; i++)`: the first module with this name.
unfoldable pub find_module : List ℕ → (ℕ → BootModule) → ℕ → ℕ → Option ℕ
find_module name mods i zero = none
find_module name mods i (suc n) =
    let rest = find_module name mods (i + 1) n in
    if eq_text (mods i).string name then some i else rest

abbrev pub search_result : (ℕ → BootModule) → ℕ → Option ℕ → World Ram → Option ℕ × World Ram
search_result mods s none w = refused s (code vfs_file_not_found) w
search_result mods s (some i) w = (
  some s,
  put_file s
      (record (w.device.files s) {
        size = sub64 (mods i).last (mods i).first;
        data_at = (mods i).first;
      })
      w,
)

abbrev pub set_flags : List ℕ → ℕ → World Ram → World Ram
set_flags mode s w =
    if eq_text mode (b'r' ∷ [])
    then put_file s (record (w.device.files s) { is_readable = 1; is_writable = 0 }) w
    else w

-- `new` gives the address.
unfoldable pub stivale_modules_open :
    (World Ram → ℕ) → (ℕ → BootModule) → ℕ → List ℕ → List ℕ → World Ram → Option ℕ × World Ram
unfolding find_module
stivale_modules_open allocate mods count file mode w =
    let s = allocate w in
    if not (eq_text mode (b'r' ∷ [])) && is_unsupported mode
    then refused s (code vfs_not_implemented) w
    else search_result mods s (find_module file mods 0 count) (set_flags mode s w)

unfoldable pub stivale_modules_close : ℕ → World Ram → ℕ × World Ram
stivale_modules_close s w =
    (0, put_file s (record (w.device.files s) { data_at = 0; size = 0; is_readable = 0 }) w)

abbrev pub moved_to : ℕ → ℕ → World Ram → ℕ × World Ram
moved_to s pos w = (0, put_file s (record (w.device.files s) { pos = pos }) w)

-- `SEEK_SET`, `SEEK_CUR` and `SEEK_END` are 1, 2 and 3.
unfoldable pub stivale_modules_seek : ℕ → ℕ → ℕ → World Ram → ℕ × World Ram
stivale_modules_seek s offset whence w =
    let f = w.device.files s in
    if whence == 1
    then moved_to s offset w
    else if whence == 2
    then moved_to s (add64 f.pos offset) w
    else if whence == 3
    then moved_to s (add64 f.size offset) w
    else (minus_one, w)

unfoldable pub stivale_modules_tell : ℕ → World Ram → ℕ × World Ram
stivale_modules_tell s w = ((w.device.files s).pos, w)

abbrev pub set_bytes : (ℕ → ℕ) → World Ram → World Ram
set_bytes bytes w = record w { device = record w.device { bytes = bytes } }

unfoldable pub copy_byte : ℕ → ℕ → ℕ → World Ram → World Ram
copy_byte buffer s i w =
    let f = w.device.files s in
    set_bytes
      (update w.device.bytes (add64 buffer i) (w.device.bytes (add64 (add64 f.data_at i) f.pos))) w

-- `pos` does not move, and the end of the module is not looked at.
unfoldable pub stivale_modules_read : ℕ → ℕ → ℕ → ℕ → World Ram → ℕ × World Ram
unfolding copy_byte
stivale_modules_read buffer size nmemb s w = (size, for_range size 0 (copy_byte buffer s) w)

-- `stivale_modules_mount` only prints.
abbrev pub stivale_modules_mount : World Ram → World Ram
stivale_modules_mount w = w

-- `memset(mount, 0, sizeof(mount))` clears the size of a pointer, so the functions that are not set are
-- those that memory held, `rest`.
unfoldable pub initialise_stivale_modules :
    (World Ram → ℕ) → (ℕ → BootModule) → ℕ → VfsMount Ram → VfsMount Ram
unfolding stivale_modules_open stivale_modules_read stivale_modules_close stivale_modules_seek
    stivale_modules_tell
initialise_stivale_modules allocate mods count rest = record rest {
  open_file = some (stivale_modules_open allocate mods count);
  read = some stivale_modules_read;
  close = some stivale_modules_close;
  seek = some stivale_modules_seek;
  tell = some stivale_modules_tell;
  mount = some stivale_modules_mount;
}
