-- ===== src/Vfs/Paths.antt =====
-- src/fs/vfs/vfs.cpp: the loop that `fopen`, `opendir`, `mkdir`, `unlink` and `rename` begin with, which
-- finds the mount that a path names.
use fox_os_kernel.Prelude.{
  ℕ, Bool, ◌&&◌, Option, none, some, List, [], ◌∷◌, ltb, ◌==◌, if◌then◌else◌, length,
}
use fox_os_kernel.Vfs.{Vfs, lookup_in}

abbrev pub before : ℕ → Option (List ℕ × List ℕ) → Option (List ℕ × List ℕ)
before c none = none
before c (some (disk, path)) = some (c ∷ disk, path)

-- The disk and the path in front of and behind the first `:`.
unfoldable pub split_disk : List ℕ → Option (List ℕ × List ℕ)
split_disk [] = none
split_disk (c ∷ s) = let rest = split_disk s in if c == 58 then some ([], s) else before c rest

-- The copy in `_filename` is the name, where it has a character and fits with its 0.
abbrev pub is_copied : List ℕ → Bool
is_copied name = ltb 0 (length name) && ltb (length name) 1024

abbrev pub found_on : Option ℕ → List ℕ → Option (ℕ × List ℕ)
found_on none path = none
found_on (some m) path = some (m, path)

module _ {D : Type 0} where
  abbrev pub on_list : Vfs D → Option (List ℕ × List ℕ) → Option (Option (ℕ × List ℕ))
  on_list v none = some none
  on_list v (some (disk, path)) = elim v.vfs_nodes [
    | none ↦ none
    | some l ↦ some (found_on (lookup_in v.text disk l) path)
  ]

  -- The loop that `fopen`, `opendir`, `mkdir`, `unlink` and `rename` begin with: the mount and the path
  -- on it, `some none` where the node is `NULL`.
  unfoldable pub resolve : List ℕ → Vfs D → Option (Option (ℕ × List ℕ))
  unfolding split_disk lookup_in
  resolve name v = if is_copied name then on_list v (split_disk name) else none
