-- ===== src/Vfs/Files.antt =====
-- src/fs/vfs/vfs.cpp: the operations on file streams. A `FILE*` is a number.
use fox_os_kernel.Prelude.{ℕ, ◌-◌, ◌^◌, Option, none, some, List, update}
use fox_os_kernel.Vfs.{VfsMount, World, Vfs, on_disk, if_present, on_stream, answer, minus_one}
use fox_os_kernel.Vfs.Paths.{resolve}

module _ {D : Type 0} (drivers : ℕ → VfsMount D) where
  -- `out->mount = mount; return out;`
  abbrev pub attach : ℕ → Vfs D → Option ℕ × World D → Option (Option ℕ × Vfs D)
  attach m v (none, w) = none
  attach m v (some s, w) =
      some (some s, record v { streams = update v.streams s (some m); world = w })

  unfoldable pub fopen : List ℕ → List ℕ → Vfs D → Option (Option ℕ × Vfs D)
  unfolding resolve
  fopen filename mode v =
      on_disk (resolve filename v) none v
        λ m path. if_present (drivers m).open_file none v λ f. attach m v (f path mode v.world)

  unfoldable pub fclose : ℕ → Vfs D → Option (ℕ × Vfs D)
  fclose s v = on_stream (v.streams s) λ m.
      if_present (drivers m).close 1 v λ close.
        some (0, record v { streams = update v.streams s none; world = (close s v.world).1 })

  unfoldable pub fwrite : ℕ → ℕ → ℕ → ℕ → Vfs D → Option (ℕ × Vfs D)
  fwrite ptr size nmemb s v =
      on_stream (v.streams s)
        λ m. if_present (drivers m).write 0 v λ write. answer v (write ptr size nmemb s v.world)

  unfoldable pub fread : ℕ → ℕ → ℕ → ℕ → Vfs D → Option (ℕ × Vfs D)
  fread ptr size nmemb s v =
      on_stream (v.streams s)
        λ m. if_present (drivers m).read 0 v λ read. answer v (read ptr size nmemb s v.world)

  unfoldable pub fseek : ℕ → ℕ → ℕ → Vfs D → Option (ℕ × Vfs D)
  fseek s offset whence v =
      on_stream (v.streams s)
        λ m. if_present (drivers m).seek minus_one v λ seek. answer v (seek s offset whence v.world)

  -- `-1` is a `long int` here.
  unfoldable pub ftell : ℕ → Vfs D → Option (ℕ × Vfs D)
  ftell s v =
      on_stream (v.streams s)
        λ m. if_present (drivers m).tell (2 ^ 64 - 1) v λ tell. answer v (tell s v.world)
