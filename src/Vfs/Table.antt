-- ===== src/Vfs/Table.antt =====
-- src/fs/vfs/vfs.cpp: the table of mounts as a finite map from names to mounts, and what `mount` and
-- `unmount` change of it.
use fox_os_kernel.Prelude.{
  ℕ, ◌<◌, ◌≡◌, refl, sym, ap, ◌∙◌, subst, ◌≢◌, inl, inr, true, Option, none, some, List, [], ◌++◌,
  append-nil, if◌then◌else◌, lt→ltb, Bool-cases, update,
}
use fox_os_kernel.NodeList.{ListNode, NodeList, no_node, create, find_node, remove_node, add_node}
use fox_os_kernel.NodeList.Laws.{find_node-IsFirst, add_node-Adds}
use fox_os_kernel.NodeList.Unique.{passes_free, found_none}
use fox_os_kernel.Vfs.{
  VfsMount, World, Vfs, vfs_ok, eq_text, search_for_disk_name, mount_of, lookup_in, mount, mount_on,
  list_or_new, unmount, unmount_on, unmount_node, nodes_or_new, max_vfs_nodes,
}
use fox_os_kernel.Vfs.Mounts.{HasRoom, Adds-Grown, lookup_new, lookup_old}
use fox_os_kernel.Vfs.Cuts.{DistinctIn, lookup_removed}

abbrev pub lookup_on : (ℕ → List ℕ) → List ℕ → Option NodeList → Option ℕ
lookup_on text name none = none
lookup_on text name (some l) = lookup_in text name l

-- A new list holds no name.
lookup_create :
    (text : ℕ → List ℕ) (name : List ℕ) (memory : ℕ → ListNode)
    → lookup_in text name (create max_vfs_nodes memory) ≡ none
unfolding lookup_in create find_node
lookup_create text name memory =
    let test = search_for_disk_name text name in
    let l = create max_vfs_nodes memory in
    ap (mount_of l) (
      found_none test l.nodes l.node_count (find_node test l) (find_node-IsFirst test l) (λ j lt.
        passes_free test (l.nodes j)
          (ap (λ b. (if b then no_node else memory j).is_taken) (lt→ltb j max_vfs_nodes lt))))

lookup-list_or_new :
    (text : ℕ → List ℕ) (name : List ℕ) (memory : ℕ → ListNode) (o : Option NodeList)
    → lookup_on text name o ≡ lookup_in text name (list_or_new memory o)
lookup-list_or_new text name memory none = sym (lookup_create text name memory)
lookup-list_or_new text name memory (some l) = refl

module _ {D : Type 0} where
  -- The mount of this name.
  abbrev pub lookup : Vfs D → List ℕ → Option ℕ
  lookup v name = lookup_on v.text name v.vfs_nodes

  -- No two names in the table are the same.
  abbrev pub Distinct : Vfs D → Type 0
  Distinct v = (l : NodeList) → v.vfs_nodes ≡ some l → DistinctIn v.text l

  -- A node of the list is free, and none that is taken has its name at `copy`.
  abbrev pub Ready : (ℕ → ListNode) → ℕ → Vfs D → Type 0
  Ready memory copy v =
      let l = nodes_or_new memory v in
      HasRoom l
      × ((j : ℕ) → j < l.node_count → (l.nodes j).is_taken ≡ true → copy ≢ (l.nodes j).data2)

module _ {D : Type 0} (drivers : ℕ → VfsMount D) (memory : ℕ → ListNode) where
  changed :
      (v : Vfs D) (m copy : ℕ) (name : List ℕ)
      → Ready memory copy v
      → lookup v name ≡ none
      → (other : List ℕ)
      → lookup_in
          (update v.text copy (name ++ []))
          other
          (add_node m copy 0 0 (nodes_or_new memory v)).1
        ≡ (if eq_text name other then some m else lookup v other)
  changed v m copy name (room, fresh) absent other =
      let l = nodes_or_new memory v in
      let k = (add_node m copy 0 0 l).1 in
      let a =
        Adds-Grown v.text l name copy m (add_node m copy 0 0 l).0 k room
          (add_node-Adds m copy 0 0 l) in
      let now = λ (s : List ℕ). lookup-list_or_new v.text s memory v.vfs_nodes in
      ap (λ t. lookup_in (update v.text copy t) other k) (append-nil name)
      ∙ elim (Bool-cases (eq_text name other)) [
        | inl e ↦
            lookup_new v.text l name copy m k a.0 a.2 fresh other e (sym (now name) ∙ absent)
            ∙ sym (ap (λ b. if b then some m else lookup v other) e)
        | inr e ↦
            lookup_old v.text l name copy m k a.0 a.2 fresh other e
            ∙ sym (now other)
            ∙ sym (ap (λ b. if b then some m else lookup v other) e)
      ]

  -- A mount with a `mount` function, a list with a free node and none that has its name at `copy`, a name
  -- that the table does not have, and memory that is 0 behind the copy of it: `mount` reports `VFS_OK`
  -- and calls the driver, and afterwards the table has this mount of the name and the same mount of
  -- every other name.
  pub mount-lookup :
      (v : Vfs D) (m copy : ℕ) (name : List ℕ) (f : World D → World D)
      → (drivers m).mount ≡ some f
      → Ready memory copy v
      → lookup v name ≡ none
      → ((mount drivers memory m name copy [] v).0 ≡ vfs_ok)
        × ((mount drivers memory m name copy [] v).1.world ≡ f v.world)
        × ((other : List ℕ)
            → lookup (mount drivers memory m name copy [] v).1 other
              ≡ (if eq_text name other then some m else lookup v other))
  unfolding mount
  mount-lookup v m copy name f has ready absent =
      subst
        (λ o.
          ((mount_on m name copy [] v (nodes_or_new memory v) o).0 ≡ vfs_ok)
          × ((mount_on m name copy [] v (nodes_or_new memory v) o).1.world ≡ f v.world)
          × ((other : List ℕ)
              → lookup (mount_on m name copy [] v (nodes_or_new memory v) o).1 other
                ≡ (if eq_text name other then some m else lookup v other)))
        (sym has) (refl, refl, λ other. changed v m copy name ready absent other)

module _ {D : Type 0} (drivers : ℕ → VfsMount D) where
  -- A list whose names are distinct, and a name that it has, on a mount with an `unmount`: `unmount`
  -- reports `VFS_OK` and calls the driver, and afterwards the table has no mount of this name and the
  -- same mount of every other name.
  pub unmount-lookup :
      (v : Vfs D) (l : NodeList) (n : ℕ) (name : List ℕ) (f : World D → World D)
      → v.vfs_nodes ≡ some l
      → DistinctIn v.text l
      → find_node (search_for_disk_name v.text name) l ≡ some n
      → (drivers (l.nodes n).data1).unmount ≡ some f
      → (w : Vfs D) × (unmount drivers name v ≡ some (vfs_ok, w))
        × (w.world ≡ f v.world)
        × ((other : List ℕ)
            → lookup w other ≡ (if eq_text name other then none else lookup v other))
  unfolding unmount
  unmount-lookup v l n name f has distinct found driver = (
    record v { vfs_nodes = some (remove_node n l); world = f v.world },
    ap
          (λ o. elim o [
            | none ↦ none
            | some k ↦
                some (unmount_on drivers v k (find_node (search_for_disk_name v.text name) k))
          ])
          has
        ∙ ap (λ o. some (unmount_on drivers v l o)) found
        ∙ ap (λ o. some (unmount_node v l n o)) driver,
    refl,
    λ other.
        lookup_removed v.text l n name distinct found other
        ∙ sym (ap (λ o. if eq_text name other then none else lookup_on v.text other o) has),
  )
