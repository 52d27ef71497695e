-- ===== src/Vfs/Folders.antt =====
-- src/fs/vfs/vfs.cpp: the operations on directories. A `DIR*` is a number.
use fox_os_kernel.Prelude.{ℕ, Option, none, some, List, update}
use fox_os_kernel.Vfs.{VfsMount, World, Vfs, on_disk, if_present, on_stream, answer, minus_one}
use fox_os_kernel.Vfs.Paths.{resolve}

module _ {D : Type 0} (drivers : ℕ → VfsMount D) where
  abbrev pub attach : ℕ → Vfs D → Option ℕ × World D → Option (Option ℕ × Vfs D)
  attach m v (none, w) = none
  attach m v (some s, w) = some (some s, record v { dirs = update v.dirs s (some m); world = w })

  -- The test is of `open`, the call of `opendir`.
  unfoldable pub opendir : List ℕ → Vfs D → Option (Option ℕ × Vfs D)
  unfolding resolve
  opendir name v = on_disk (resolve name v) none v λ m path.
      if_present (drivers m).open_file none v
        λ _. elim (drivers m).opendir [ none ↦ none | some f ↦ attach m v (f path v.world) ]

  -- The test is of `close`, the call of `closedir`.
  unfoldable pub closedir : ℕ → Vfs D → Option (ℕ × Vfs D)
  closedir s v = on_stream (v.dirs s) λ m. if_present (drivers m).close 1 v λ _.
      elim (drivers m).closedir [
        | none ↦ none
        | some f ↦ some (0, record v { dirs = update v.dirs s none; world = (f s v.world).1 })
      ]

  unfoldable pub readdir : ℕ → Vfs D → Option (ℕ × Vfs D)
  readdir s v =
      on_stream (v.dirs s) λ m. if_present (drivers m).readdir 0 v λ f. answer v (f s v.world)

  -- The test of a missing function sets the error number and does not return: the call follows.
  unfoldable pub rewinddir : ℕ → Vfs D → Option (Vfs D)
  rewinddir s v = on_stream (v.dirs s) λ m. elim (drivers m).rewinddir [
    | none ↦ none
    | some f ↦ some (record v { world = f s v.world })
  ]

  -- The driver gets the whole name.
  unfoldable pub mkdir : List ℕ → ℕ → Vfs D → Option (ℕ × Vfs D)
  unfolding resolve
  mkdir name mode v =
      on_disk (resolve name v) minus_one v
        λ m path. if_present (drivers m).mkdir minus_one v λ f. answer v (f name mode v.world)

  unfoldable pub unlink : List ℕ → Vfs D → Option (ℕ × Vfs D)
  unfolding resolve
  unlink name v =
      on_disk (resolve name v) minus_one v
        λ m path. if_present (drivers m).unlink minus_one v λ f. answer v (f name v.world)
