-- ===== src/Vfs/Errors.antt =====
-- src/fs/vfs/vfs.cpp: where a path leads, and what the operations answer where it leads nowhere or where
-- the driver lacks a function.
use fox_os_kernel.Prelude.{
  ℕ, ◌<◌, ◌≡◌, refl, sym, ap, ap₂, ◌∙◌, ◌≢◌, true, ◌&&◌, Option, none, some, List, [], ◌∷◌, ◌++◌,
  arith, if◌then◌else◌, lt→ltb, ne→==, length, length-append, update, update_self,
}
use fox_os_kernel.NodeList.{NodeList}
use fox_os_kernel.Vfs.{
  VfsMount, World, Vfs, set_errno, on_disk, if_present, on_stream, answer, minus_one, lookup_in,
}
use fox_os_kernel.Vfs.Paths.{before, split_disk, is_copied, found_on, on_list, resolve}
use fox_os_kernel.Vfs.Table.{lookup, lookup_on}
use fox_os_kernel.Vfs.Files.{attach, fopen, fclose, fread}
use fox_os_kernel.Vfs.Folders.{opendir, mkdir, unlink}

-- The name of a disk holds no `:`.
abbrev pub HasNoColon : List ℕ → Type 0
HasNoColon [] = Unit
HasNoColon (c ∷ s) = (c ≢ 58) × HasNoColon s

split_disk-append :
    (disk path : List ℕ) → HasNoColon disk → split_disk (disk ++ (58 ∷ path)) ≡ some (disk, path)
unfolding split_disk
split_disk-append [] path h = refl
split_disk-append (c ∷ disk) path h =
    ap
      (λ b.
        if b then some ([], disk ++ (58 ∷ path)) else before c (split_disk (disk ++ (58 ∷ path))))
      (ne→== c 58 h.0)
    ∙ ap (before c) (split_disk-append disk path h.1)

abbrev pub Fits : List ℕ → Type 0
Fits name = length name < 1024

copied : (disk path : List ℕ) → Fits (disk ++ (58 ∷ path)) → is_copied (disk ++ (58 ∷ path)) ≡ true
copied disk path h =
    ap₂ (λ b c. b && c)
      (lt→ltb 0 (length (disk ++ (58 ∷ path))) (omega (arith, length-append disk (58 ∷ path))))
      (lt→ltb (length (disk ++ (58 ∷ path))) 1024 h)

module _ {D : Type 0} where
  on_list_lem :
      (v : Vfs D) (l : NodeList) (disk path : List ℕ)
      → v.vfs_nodes ≡ some l
      → on_list v (some (disk, path)) ≡ some (found_on (lookup v disk) path)
  on_list_lem v l disk path has =
      ap (λ o. elim o [ none ↦ none | some k ↦ some (found_on (lookup_in v.text disk k) path) ]) has
      ∙ sym (ap (λ o. some (found_on (lookup_on v.text disk o) path)) has)

  -- A path `disk:path` leads to the mount that the table has for the disk.
  pub resolve-lookup :
      (v : Vfs D) (l : NodeList) (disk path : List ℕ)
      → v.vfs_nodes ≡ some l
      → HasNoColon disk
      → Fits (disk ++ (58 ∷ path))
      → resolve (disk ++ (58 ∷ path)) v ≡ some (found_on (lookup v disk) path)
  unfolding resolve
  resolve-lookup v l disk path has plain fits =
      ap (λ b. if b then on_list v (split_disk (disk ++ (58 ∷ path))) else none)
        (copied disk path fits)
      ∙ ap (on_list v) (split_disk-append disk path plain)
      ∙ on_list_lem v l disk path has

  on_disk_at {ℓ} :
      {R : Type ℓ} {o p : Option (Option (ℕ × List ℕ))}
      → o ≡ p
      → (value : R) (v : Vfs D) (next : ℕ → List ℕ → Option (R × Vfs D))
      → on_disk o value v next ≡ on_disk p value v next
  on_disk_at e value v next = ap (λ o. on_disk o value v next) e

module _ {D : Type 0} (drivers : ℕ → VfsMount D) where
  -- A path `disk:path` of fewer than 1024 bytes, where no mount has the name of the disk: `fopen` and
  -- `opendir` give `NULL` and `mkdir` and `unlink` give -1, each sets the error number to
  -- `VFS_NO_NDOE` where the task has one, and nothing else changes; in particular no driver is called.
  pub unknown_disk :
      (v : Vfs D) (l : NodeList) (disk path mode : List ℕ) (flags : ℕ)
      → v.vfs_nodes ≡ some l
      → HasNoColon disk
      → Fits (disk ++ (58 ∷ path))
      → lookup v disk ≡ none
      → let name = disk ++ (58 ∷ path) in
        let told : Vfs D = record v {
          world = record v.world { errno = set_errno 4 v.world.errno };
        } in
        (fopen drivers name mode v ≡ some (none, told))
        × (opendir drivers name v ≡ some (none, told))
        × (mkdir drivers name flags v ≡ some (minus_one, told))
        × (unlink drivers name v ≡ some (minus_one, told))
  unfolding fopen opendir mkdir unlink
  unknown_disk v l disk path mode flags has plain fits absent =
      let nowhere =
        resolve-lookup v l disk path has plain fits ∙ ap (λ o. some (found_on o path)) absent in
      (
        on_disk_at nowhere none v _,
        on_disk_at nowhere none v _,
        on_disk_at nowhere minus_one v _,
        on_disk_at nowhere minus_one v _,
      )

  -- A path `disk:path` of fewer than 1024 bytes on a mount whose driver opens it as the stream `s`:
  -- `fopen` gives `s`; `fread` on it is then the read of that driver; `fclose` calls its close and
  -- gives 0.
  pub fopen-fread-fclose :
      (v : Vfs D) (l : NodeList) (disk path mode : List ℕ) (m s : ℕ) (w : World D)
      (f : List ℕ → List ℕ → World D → Option ℕ × World D)
      (r : ℕ → ℕ → ℕ → ℕ → World D → ℕ × World D) (c : ℕ → World D → ℕ × World D)
      → v.vfs_nodes ≡ some l
      → HasNoColon disk
      → Fits (disk ++ (58 ∷ path))
      → lookup v disk ≡ some m
      → (drivers m).open_file ≡ some f
      → (drivers m).read ≡ some r
      → (drivers m).close ≡ some c
      → f path mode v.world ≡ (some s, w)
      → (o : Vfs D) × (fopen drivers (disk ++ (58 ∷ path)) mode v ≡ some (some s, o))
        × ((ptr size nmemb : ℕ)
            → fread drivers ptr size nmemb s o
              ≡ some ((r ptr size nmemb s w).0, record o { world = (r ptr size nmemb s w).1 }))
        × ((e : Vfs D) × (fclose drivers s o ≡ some (0, e)) × (e.world ≡ (c s w).1))
  unfolding fopen fread fclose
  fopen-fread-fclose v l disk path mode m s w f r c has plain fits known opens reads closes run =
      let here =
        resolve-lookup v l disk path has plain fits ∙ ap (λ o. some (found_on o path)) known in
      let o : Vfs D = record v { streams = update v.streams s (some m); world = w } in
      let e : Vfs D = record o { streams = update o.streams s none; world = (c s w).1 } in
      (
        o,
        on_disk_at here none v _
            ∙ ap (λ t. if_present t none v λ g. attach drivers m v (g path mode v.world)) opens
            ∙ ap (attach drivers m v) run,
        λ ptr size nmemb.
            ap
              (λ t.
                on_stream t
                  λ n. if_present (drivers n).read 0 o λ g. answer o (g ptr size nmemb s w))
              (update_self v.streams s (some m))
            ∙ ap (λ t. if_present t 0 o λ g. answer o (g ptr size nmemb s w)) reads,
        (
          e,
          ap
                (λ t. on_stream t λ n.
                  if_present (drivers n).close 1 o λ g.
                    some (0, record o { streams = update o.streams s none; world = (g s w).1 }))
                (update_self v.streams s (some m))
              ∙ ap
                  (λ t. if_present t 1 o λ g.
                    some (0, record o { streams = update o.streams s none; world = (g s w).1 }))
                  closes,
          refl,
        ),
      )
