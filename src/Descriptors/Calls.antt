-- ===== src/Descriptors/Calls.antt =====
-- src/fs/fd.cpp: the calls of a `FileDescriptor` to the virtual file system. A failed `assert` sets the
-- task's error number and returns.
use fox_os_kernel.Prelude.{ℕ, Option, none, some, List}
use fox_os_kernel.Vfs.{VfsMount, Vfs, vfs_error, set_task_errno}
use fox_os_kernel.Vfs.Files.{fopen, fclose, fread, fwrite}

pub record FileDescriptor : Type 0 where
  pub fd : ℕ
  pub file : Option ℕ

unfoldable pub new_descriptor : ℕ → FileDescriptor
new_descriptor fd = record { fd = fd; file = none }

module _ {D : Type 0} (drivers : ℕ → VfsMount D) where
  abbrev pub failed : FileDescriptor → Vfs D → Option (FileDescriptor × Vfs D)
  failed d v = some (d, set_task_errno vfs_error v)

  -- What a call on the stream gives is not looked at.
  abbrev pub ignoring : FileDescriptor → Option (ℕ × Vfs D) → Option (FileDescriptor × Vfs D)
  ignoring d none = none
  ignoring d (some r) = some (d, r.1)

  -- `file` keeps the stream that has been freed.
  unfoldable pub close : FileDescriptor → Vfs D → Option (FileDescriptor × Vfs D)
  close d v = elim d.file [ none ↦ failed d v | some s ↦ ignoring d (fclose drivers s v) ]

  abbrev pub opened : FileDescriptor → Option (Option ℕ × Vfs D) → Option (FileDescriptor × Vfs D)
  opened d none = none
  opened d (some r) = some (record d { file = r.0 }, r.1)

  unfoldable pub open_path :
      FileDescriptor → List ℕ → List ℕ → Vfs D → Option (FileDescriptor × Vfs D)
  open_path d path mode v = elim d.file [
    | none ↦ opened d (fopen drivers path mode v)
    | some s ↦ failed d v
  ]

  unfoldable pub read : FileDescriptor → ℕ → ℕ → ℕ → Vfs D → Option (FileDescriptor × Vfs D)
  read d buffer size nmemb v = elim d.file [
    | none ↦ failed d v
    | some s ↦ ignoring d (fread drivers buffer size nmemb s v)
  ]

  unfoldable pub write : FileDescriptor → ℕ → ℕ → ℕ → Vfs D → Option (FileDescriptor × Vfs D)
  write d buffer size nmemb v = elim d.file [
    | none ↦ failed d v
    | some s ↦ ignoring d (fwrite drivers buffer size nmemb s v)
  ]
