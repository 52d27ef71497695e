-- ===== src/Vfs/Moves.antt =====
-- src/fs/vfs/vfs.cpp: `copy` and `rename`. Their loops run on fuel; `none` also stands for fuel that runs
-- out.
use fox_os_kernel.Prelude.{
  ℕ, zero, suc, Bool, true, false, Option, none, some, List, [], ◌∷◌, ◌==◌, if◌then◌else◌, add64,
  sub64,
}
use fox_os_kernel.Vfs.{
  VfsMount, Vfs, on_disk, if_present, answer, minus_one, eq_text, set_task_errno, vfs_error,
}
use fox_os_kernel.Vfs.Paths.{resolve, split_disk}
use fox_os_kernel.Vfs.Files.{fopen, fclose, fread, fwrite}

-- What the loop leaves in `_filename`.
unfoldable pub cut_name : List ℕ → List ℕ
unfolding split_disk
cut_name name = elim (split_disk name) [ none ↦ name | some p ↦ p.0 ]

module _ {D : Type 0} (drivers : ℕ → VfsMount D) where
  -- `do { ... } while (nread > 0);`, where `nwritten >= 0` is always so
  unfoldable pub write_out : ℕ → ℕ → ℕ → ℕ → Vfs D → Option (Vfs D)
  write_out zero out_ptr nread dest v = none
  write_out (suc fuel) out_ptr nread dest v = elim (fwrite drivers out_ptr nread 1 dest v) [
    | none ↦ none
    | some r ↦
        let rest = write_out fuel (add64 out_ptr r.0) (sub64 nread r.0) dest r.1 in
        if sub64 nread r.0 == 0 then some r.1 else rest
  ]

  -- `while ((nread = fread(buf, 4096, 1, src_f)) > 0) { ... }`
  unfoldable pub copy_all : ℕ → ℕ → ℕ → ℕ → ℕ → Vfs D → Option (Vfs D)
  copy_all inner zero buf src dest v = none
  copy_all inner (suc fuel) buf src dest v = elim (fread drivers buf 4096 1 src v) [
    | none ↦ none
    | some r ↦ if r.0 == 0 then some r.1 else elim (write_out inner buf r.0 dest r.1) [
      | none ↦ none
      | some w ↦ copy_all inner fuel buf src dest w
    ]
  ]

  -- `nread == 0` always holds behind the loop.
  abbrev pub close_both : ℕ → ℕ → Vfs D → Option (ℕ × Vfs D)
  close_both src dest v = elim (fclose drivers src v) [
    | none ↦ none
    | some r ↦ elim (fclose drivers dest r.1) [ none ↦ none | some q ↦ some (0, q.1) ]
  ]

  -- A stream that is `NULL` is dereferenced in the loop or in `fclose`.
  abbrev pub with_streams :
      Option (Option ℕ × Vfs D) → (ℕ → Vfs D → Option (ℕ × Vfs D)) → Option (ℕ × Vfs D)
  with_streams none next = none
  with_streams (some (none, v)) next = none
  with_streams (some (some s, v)) next = next s v

  -- `buf` is the page that the page frame allocator gives.
  unfoldable pub copy : ℕ → ℕ → ℕ → List ℕ → List ℕ → Vfs D → Option (ℕ × Vfs D)
  copy inner fuel buf src_name dest_name v =
      if eq_text src_name dest_name
      then some (0, v)
      else with_streams (fopen drivers src_name (b'r' ∷ []) v) λ src v1.
        with_streams (fopen drivers dest_name (b'w' ∷ []) v1) λ dest v2.
          elim (copy_all inner fuel buf src dest v2) [
            | none ↦ none
            | some w ↦ close_both src dest w
          ]

  -- Behind the copy: the function is not tested.
  abbrev pub unlink_old : ℕ → List ℕ → ℕ × Vfs D → Option (ℕ × Vfs D)
  unlink_old m path r =
      if r.0 == 0
      then elim (drivers m).unlink [
        | none ↦ none
        | some f ↦ some (0, record r.1 { world = (f path r.1.world).1 })
      ]
      else some (minus_one, set_task_errno vfs_error r.1)

  -- The function is tested where the disks are the same.
  abbrev pub rename_on :
      ℕ → ℕ → ℕ → List ℕ → List ℕ → Vfs D → ℕ → List ℕ → List ℕ → Bool → Option (ℕ × Vfs D)
  rename_on inner fuel buf old_name new_name v m old_path new_path true =
      if_present (drivers m).rename minus_one v λ f. answer v (f old_path new_path v.world)
  rename_on inner fuel buf old_name new_name v m old_path new_path false =
      elim (copy inner fuel buf old_name new_name v) [
        | none ↦ none
        | some r ↦ unlink_old m old_path r
      ]

  unfoldable pub rename : ℕ → ℕ → ℕ → List ℕ → List ℕ → Vfs D → Option (ℕ × Vfs D)
  unfolding resolve cut_name
  rename inner fuel buf old_name new_name v =
      if eq_text old_name new_name
      then some (0, v)
      else on_disk (resolve old_name v) minus_one v λ m old_path.
        on_disk (resolve new_name v) minus_one v λ n new_path.
          rename_on inner fuel buf old_name new_name v m old_path new_path
            (eq_text (cut_name old_name) (cut_name new_name))
