-- ===== src/Vfs/Cuts.antt =====
-- src/fs/vfs/vfs.cpp: what a node that is removed changes of the search for names.
use fox_os_kernel.Prelude.{
  ℕ, ◌<◌, ◌≡◌, refl, sym, ap, ◌∙◌, subst, ◌≢◌, inl, inr, true, false, Option, none, some, List,
  arith, ℕ_discrete, if◌then◌else◌, lt→ltb, Bool-cases, update, update_self, update_ne,
}
use fox_os_kernel.NodeList.{NodeList, no_node, find_node, remove_node}
use fox_os_kernel.NodeList.Laws.{IsFirst, find_node-IsFirst}
use fox_os_kernel.NodeList.Unique.{
  true-ne-false, passes, passes_taken, passes_free, find_node_from_same, found_none,
}
use fox_os_kernel.Vfs.{eq_text, search_for_disk_name, mount_of, lookup_in}
use fox_os_kernel.Vfs.Mounts.{eq_text-trans_ne, eq_text_sound, eq_text_refl}

abbrev pub DistinctIn : (ℕ → List ℕ) → NodeList → Type 0
DistinctIn text l =
    (i j : ℕ)
    → i < l.node_count
    → j < l.node_count
    → (l.nodes i).is_taken ≡ true
    → (l.nodes j).is_taken ≡ true
    → eq_text (text (l.nodes i).data2) (text (l.nodes j).data2) ≡ true
    → i ≡ j

without : ℕ → NodeList → NodeList
without n l = record l { nodes = update l.nodes n no_node }

module _ (text : ℕ → List ℕ) (l : NodeList) (n : ℕ) (name : List ℕ) (distinct : DistinctIn text l)
    (found : find_node (search_for_disk_name text name) l ≡ some n) (other : List ℕ) where
  first : IsFirst (search_for_disk_name text name) l.nodes 0 l.node_count (some n)
  first =
      subst (λ o. IsFirst (search_for_disk_name text name) l.nodes 0 l.node_count o) found
        (find_node-IsFirst (search_for_disk_name text name) l)

  below : n < l.node_count
  below = omega (arith, first.1)

  removed_eq : remove_node n l ≡ without n l
  unfolding remove_node without
  removed_eq = ap (λ b. if b then without n l else l) (lt→ltb n l.node_count below)

  -- The node that is cut does not pass the test, and the others are what they were.
  passes_cut : passes (search_for_disk_name text other) ((without n l).nodes n) ≡ false
  unfolding without
  passes_cut = ap (passes (search_for_disk_name text other)) (update_self l.nodes n no_node)

  passes_kept :
      (j : ℕ)
      → n ≢ j
      → passes (search_for_disk_name text other) ((without n l).nodes j)
        ≡ passes (search_for_disk_name text other) (l.nodes j)
  unfolding without
  passes_kept j ne =
      ap (passes (search_for_disk_name text other)) (update_ne l.nodes n j no_node ne)

  cut_fails :
      eq_text name other ≡ true
      → (j : ℕ) → j < l.node_count
      → n ≢ j
      → passes (search_for_disk_name text other) (l.nodes j) ≡ false
  unfolding search_for_disk_name
  cut_fails same j lt ne = elim (Bool-cases (l.nodes j).is_taken) [
    | inl t ↦
        passes_taken (search_for_disk_name text other) (l.nodes j) t
        ∙ elim (Bool-cases (eq_text (text (l.nodes j).data2) other)) [
          | inl e ↦
              let here = eq_text_sound (text (l.nodes n).data2) name first.3 in
              let there = eq_text_sound (text (l.nodes j).data2) other e in
              absurd (
                ne (
                  distinct n j below lt first.2 t (
                    subst (λ s. eq_text (text (l.nodes n).data2) s ≡ true)
                      (here ∙ eq_text_sound name other same ∙ sym there)
                      (eq_text_refl (text (l.nodes n).data2)))))
          | inr e ↦ e
        ]
    | inr t ↦ passes_free (search_for_disk_name text other) (l.nodes j) t
  ]

  old_fails :
      eq_text name other ≡ false → passes (search_for_disk_name text other) (l.nodes n) ≡ false
  unfolding search_for_disk_name
  old_fails differ =
      passes_taken (search_for_disk_name text other) (l.nodes n) first.2
      ∙ ap (λ s. eq_text s other) (eq_text_sound (text (l.nodes n).data2) name first.3)
      ∙ differ

  kept_mount :
      eq_text name other ≡ false
      → (o : Option ℕ) → IsFirst (search_for_disk_name text other) l.nodes 0 l.node_count o
      → mount_of (without n l) o ≡ mount_of l o
  unfolding without search_for_disk_name
  kept_mount differ none h = refl
  kept_mount differ (some y) h =
      ap (λ k. some k.data1)
        (update_ne l.nodes n y no_node λ e. true-ne-false (
          sym h.3
          ∙ ap (λ i. eq_text (text (l.nodes i).data2) other) (sym e)
          ∙ eq_text-trans_ne name (text (l.nodes n).data2) other
              (subst (λ s. eq_text name s ≡ true)
                (sym (eq_text_sound (text (l.nodes n).data2) name first.3)) (eq_text_refl name))
              differ))

  pub lookup_removed :
      lookup_in text other (remove_node n l)
      ≡ (if eq_text name other then none else lookup_in text other l)
  unfolding lookup_in find_node without
  lookup_removed =
      let test = search_for_disk_name text other in
      let k = without n l in
      ap (λ (c : NodeList). mount_of c (find_node test c)) removed_eq
      ∙ elim (Bool-cases (eq_text name other)) [
        | inl e ↦
            ap (mount_of k) (
              found_none test k.nodes k.node_count (find_node test k) (find_node-IsFirst test k)
                (λ j lt. elim (ℕ_discrete n j) [
                  | yes p ↦ subst (λ i. passes test (k.nodes i) ≡ false) p passes_cut
                  | no ne ↦ passes_kept j ne ∙ cut_fails e j lt ne
                ]))
            ∙ sym (ap (λ b. if b then none else lookup_in text other l) e)
        | inr e ↦
            ap (mount_of k) (
              find_node_from_same test test l.nodes k.nodes 0 l.node_count l.node_count
                (omega arith)
                (λ j lt. elim (ℕ_discrete n j) [
                  | yes p ↦
                      subst (λ i. passes test (k.nodes i) ≡ passes test (l.nodes i)) p
                        (passes_cut ∙ sym (old_fails e))
                  | no ne ↦ passes_kept j ne
                ]))
            ∙ kept_mount e (find_node test l) (find_node-IsFirst test l)
            ∙ sym (ap (λ b. if b then none else lookup_in text other l) e)
      ]
