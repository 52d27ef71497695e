-- ===== src/Vfs.antt =====
-- src/fs/vfs/vfs.cpp: the table of mounted file systems, and the search for the one a path names. A
-- driver's functions are a parameter, since they are the file systems' own code; a pointer that is
-- `NULL` is `none`. A C string is the list of its bytes. An operation gives `none` where the code
-- dereferences `NULL`, uses a stream that it has freed, calls a missing function or writes behind its
-- buffer of 1024 bytes.
pub mod Paths
pub mod Files
pub mod Folders
pub mod Moves
pub mod Mounts
pub mod Cuts
pub mod Table
pub mod Errors
pub mod Streams
pub mod Copying
use fox_os_kernel.Prelude.{
  ℕ, zero, suc, ◌+◌, ◌-◌, ◌^◌, Bool, true, false, not, Option, none, some, List, [], ◌∷◌, ◌++◌,
  ◌==◌, if◌then◌else◌, update,
}
use fox_os_kernel.NodeList.{ListNode, NodeList, create, find_node, remove_node, add_node}

-- What a driver may change: the cell that the `errno` pointer of the current task points to, `none` where
-- that pointer is `NULL`, and all that belongs to the driver.
pub record World (D : Type 0) : Type 0 where
  pub errno : Option ℕ
  pub device : D

pub record VfsMount (D : Type 0) : Type 0 where
  pub read : Option (ℕ → ℕ → ℕ → ℕ → World D → ℕ × World D)
  pub write : Option (ℕ → ℕ → ℕ → ℕ → World D → ℕ × World D)
  pub open_file : Option (List ℕ → List ℕ → World D → Option ℕ × World D)
  pub close : Option (ℕ → World D → ℕ × World D)
  pub opendir : Option (List ℕ → World D → Option ℕ × World D)
  pub closedir : Option (ℕ → World D → ℕ × World D)
  pub readdir : Option (ℕ → World D → ℕ × World D)
  pub rewinddir : Option (ℕ → World D → World D)
  pub seek : Option (ℕ → ℕ → ℕ → World D → ℕ × World D)
  pub tell : Option (ℕ → World D → ℕ × World D)
  pub mkdir : Option (List ℕ → ℕ → World D → ℕ × World D)
  pub unlink : Option (List ℕ → World D → ℕ × World D)
  pub rename : Option (List ℕ → List ℕ → World D → ℕ × World D)
  pub mount : Option (World D → World D)
  pub unmount : Option (World D → World D)

-- `text` is the string that a pointer points to, `streams` and `dirs` the field `mount` of each `FILE`
-- and `DIR` that has not been freed, and `node` the field `node` of a mount.
pub record Vfs (D : Type 0) : Type 0 where
  pub vfs_nodes : Option NodeList
  pub text : ℕ → List ℕ
  pub node : ℕ → Option ℕ
  pub streams : ℕ → Option ℕ
  pub dirs : ℕ → Option ℕ
  pub world : World D

pub data VfsResult : Type 0 where
  vfs_ok vfs_error vfs_not_implemented vfs_mount_error vfs_no_node vfs_missing_function : VfsResult
  vfs_file_not_found : VfsResult

abbrev pub code : VfsResult → ℕ
code vfs_ok = 0
code vfs_error = 1
code vfs_not_implemented = 2
code vfs_mount_error = 3
code vfs_no_node = 4
code vfs_missing_function = 5
code vfs_file_not_found = 6

-- `set_task_errno`: without a pointer nothing is stored.
abbrev pub set_errno : ℕ → Option ℕ → Option ℕ
set_errno e none = none
set_errno e (some old) = some e

-- `MAX_VFS_NODES`
abbrev pub max_vfs_nodes : ℕ
max_vfs_nodes = 255

-- `strcmp(s, t) == 0`
abbrev pub eq_text : List ℕ → List ℕ → Bool
eq_text [] [] = true
eq_text [] (c ∷ t) = false
eq_text (c ∷ s) [] = false
eq_text (c ∷ s) (d ∷ t) = let rest = eq_text s t in if c == d then rest else false

unfoldable pub search_for_disk_name : (ℕ → List ℕ) → List ℕ → ListNode → Bool
search_for_disk_name text name n = eq_text (text n.data2) name

-- `-1` as an `int`
abbrev pub minus_one : ℕ
minus_one = 2 ^ 32 - 1

abbrev pub mount_of : NodeList → Option ℕ → Option ℕ
mount_of l none = none
mount_of l (some n) = some (l.nodes n).data1

-- The mount of the first node with this name, `none` for `NULL`.
unfoldable pub lookup_in : (ℕ → List ℕ) → List ℕ → NodeList → Option ℕ
unfolding search_for_disk_name
lookup_in text name l = mount_of l (find_node (search_for_disk_name text name) l)

-- `for (fs_num = first; fs_num <= MAX_VFS_NODES; fs_num++)`: the name that is left, given the one of
-- the round before. `to_string` is a parameter, with the number in decimal.
unfoldable pub free_name : (ℕ → List ℕ) → (ℕ → List ℕ) → NodeList → ℕ → ℕ → List ℕ → List ℕ
unfolding lookup_in
free_name to_string text l zero fs_num name = name
free_name to_string text l (suc rounds) fs_num name =
    let rest = free_name to_string text l rounds (fs_num + 1) (to_string fs_num) in
    elim (lookup_in text (to_string fs_num) l) [ none ↦ to_string fs_num | some m ↦ rest ]

-- `stream->mount`
abbrev pub on_stream {ℓ} : {R : Type ℓ} → Option ℕ → (ℕ → Option R) → Option R
on_stream none next = none
on_stream (some m) next = next m

abbrev pub list_or_new : (ℕ → ListNode) → Option NodeList → NodeList
list_or_new memory none = create max_vfs_nodes memory
list_or_new memory (some l) = l

module _ {D : Type 0} where
  -- A task without an error number keeps none.
  abbrev pub set_task_errno : VfsResult → Vfs D → Vfs D
  set_task_errno e v = record v {
    world = record v.world { errno = set_errno (code e) v.world.errno };
  }

  abbrev pub nodes_or_new : (ℕ → ListNode) → Vfs D → NodeList
  nodes_or_new memory v = list_or_new memory v.vfs_nodes

  -- What `mount` does behind its test.
  abbrev pub mounted :
      ℕ → ℕ → List ℕ → List ℕ → (World D → World D) → Vfs D → Option ℕ × NodeList → Vfs D
  mounted m copy name rest f v r = record {
    vfs_nodes = some r.1;
    text = update v.text copy (name ++ rest);
    node = update v.node m r.0;
    streams = v.streams;
    dirs = v.dirs;
    world = f v.world;
  }

  -- The test of `mount->mount`, and what follows, with the list `l` that is there.
  abbrev pub mount_on :
      ℕ → List ℕ → ℕ → List ℕ → Vfs D → NodeList → Option (World D → World D) → VfsResult × Vfs D
  mount_on m name copy rest v l none =
      (vfs_mount_error, record v { vfs_nodes = some l; text = update v.text copy (name ++ rest) })
  mount_on m name copy rest v l (some f) =
      (vfs_ok, mounted m copy name rest f v (add_node m copy 0 0 l))

  -- `malloc` gives `copy` and `strlen(name)` bytes, and `strcpy` copies no 0: `rest` is what the memory
  -- holds from there to the next 0. A new list lies where the memory holds `memory`.
  unfoldable pub mount :
      (ℕ → VfsMount D) → (ℕ → ListNode) → ℕ → List ℕ → ℕ → List ℕ → Vfs D → VfsResult × Vfs D
  mount drivers memory m name copy rest v =
      mount_on m name copy rest v (nodes_or_new memory v) (drivers m).mount

  abbrev pub named : List ℕ → VfsResult × Vfs D → Option (List ℕ) × Vfs D
  named name (vfs_ok, v) = (some name, v)
  named name (e, v) = (none, v)

  -- `char* mount(vfs_mount* node_mount)`
  unfoldable pub mount_unnamed :
      (ℕ → List ℕ)
      → (ℕ → VfsMount D)
      → (ℕ → ListNode)
      → ℕ
      → ℕ
      → List ℕ
      → Vfs D
      → Option (Option (List ℕ) × Vfs D)
  unfolding free_name mount
  mount_unnamed to_string drivers memory m copy rest v = elim v.vfs_nodes [
    | none ↦ none
    | some l ↦
        let name = free_name to_string v.text l (max_vfs_nodes + 1) 0 [] in
        some (named name (mount drivers memory m name copy rest v))
  ]

  abbrev pub unmount_node : Vfs D → NodeList → ℕ → Option (World D → World D) → VfsResult × Vfs D
  unmount_node v l n none = (vfs_missing_function, v)
  unmount_node v l n (some f) =
      (vfs_ok, record v { vfs_nodes = some (remove_node n l); world = f v.world })

  abbrev pub unmount_on : (ℕ → VfsMount D) → Vfs D → NodeList → Option ℕ → VfsResult × Vfs D
  unmount_on drivers v l none = (vfs_no_node, v)
  unmount_on drivers v l (some n) = unmount_node v l n (drivers (l.nodes n).data1).unmount

  unfoldable pub unmount : (ℕ → VfsMount D) → List ℕ → Vfs D → Option (VfsResult × Vfs D)
  unfolding search_for_disk_name
  unmount drivers name v = elim v.vfs_nodes [
    | none ↦ none
    | some l ↦ some (unmount_on drivers v l (find_node (search_for_disk_name v.text name) l))
  ]

  -- The two tests behind the search for the mount of a path.
  abbrev pub on_disk {ℓ} :
      {R : Type ℓ}
      → Option (Option (ℕ × List ℕ))
      → R
      → Vfs D
      → (ℕ → List ℕ → Option (R × Vfs D))
      → Option (R × Vfs D)
  on_disk none value v next = none
  on_disk (some none) value v next = some (value, set_task_errno vfs_no_node v)
  on_disk (some (some (m, path))) value v next = next m path

  abbrev pub if_present {ℓ κ} :
      {F : Type ℓ} {R : Type κ}
      → Option F
      → R
      → Vfs D
      → (F → Option (R × Vfs D))
      → Option (R × Vfs D)
  if_present none value v next = some (value, set_task_errno vfs_missing_function v)
  if_present (some f) value v next = next f

  abbrev pub answer {ℓ} : {R : Type ℓ} → Vfs D → R × World D → Option (R × Vfs D)
  answer v r = some (r.0, record v { world = r.1 })
