-- ===== src/Vfs/Mounts.antt =====
-- src/fs/vfs/vfs.cpp: what a node that is added changes of the search for names.
use fox_os_kernel.Prelude.{
  ℕ, ◌<◌, ◌≡◌, refl, sym, ap, ap₂, ◌∙◌, subst, ◌≢◌, inl, inr, Bool, true, false, Option, none, some,
  List, [], ◌∷◌, arith, ℕ_discrete, ◌==◌, if◌then◌else◌, ==_iff, ==_refl, Bool-cases, update,
  update_self, update_ne,
}
use fox_os_kernel.NodeList.{ListNode, NodeList, find_node, find_node_from}
use fox_os_kernel.NodeList.Laws.{IsFirst, Adds, find_node-IsFirst}
use fox_os_kernel.NodeList.Unique.{
  true-ne-false, passes, passes_taken, passes_free, find_node_from_same, found-Only,
  fails_where_none,
}
use fox_os_kernel.Vfs.{eq_text, search_for_disk_name, mount_of, lookup_in}

pub eq_text_refl : (s : List ℕ) → eq_text s s ≡ true
eq_text_refl [] = refl
eq_text_refl (c ∷ s) = rw (==_refl c, eq_text_refl s) refl

pub eq_text_sound : (s t : List ℕ) → eq_text s t ≡ true → s ≡ t
eq_text_sound [] [] h = refl
eq_text_sound [] (d ∷ t) h = cc
eq_text_sound (c ∷ s) [] h = cc
eq_text_sound (c ∷ s) (d ∷ t) h = elim (Bool-cases (c == d)) [
  | inl e ↦
      ap₂ (λ x l. x ∷ l) ((==_iff c d).0 e)
        (eq_text_sound s t (sym (ap (λ b. if b then eq_text s t else false) e) ∙ h))
  | inr e ↦ absurd (true-ne-false (sym h ∙ ap (λ b. if b then eq_text s t else false) e))
]

pub mount_of-none : (l : NodeList) (o : Option ℕ) → mount_of l o ≡ none → o ≡ none
mount_of-none l none e = refl
mount_of-none l (some n) e = absurd (cc)

pub eq_text-trans_ne :
    (s t u : List ℕ) → eq_text s t ≡ true → eq_text s u ≡ false → eq_text t u ≡ false
eq_text-trans_ne s t u p q = subst (λ w. eq_text w u ≡ false) (eq_text_sound s t p) q

abbrev pub HasRoom : NodeList → Type 0
HasRoom l = (i : ℕ) × (i < l.node_count) × ((l.nodes i).is_taken ≡ false)

module _ (text : ℕ → List ℕ) (l : NodeList) (name : List ℕ) (copy m : ℕ) where
  -- What `add_node` gives, where a node is free.
  unfoldable pub Grown : NodeList → ℕ → Type 0
  Grown k x =
      (x < l.node_count)
      × ((l.nodes x).is_taken ≡ false)
      × (k.node_count ≡ l.node_count)
      × (k.nodes x ≡ record { data1 = m; data2 = copy; data3 = 0; data4 = 0; is_taken = true })
      × ((j : ℕ) → x ≢ j → k.nodes j ≡ l.nodes j)

  pub Adds-Grown :
      (o : Option ℕ) (k : NodeList)
      → HasRoom l
      → Adds (record { data1 = m; data2 = copy; data3 = 0; data4 = 0; is_taken = true }) l o k
      → (x : ℕ) × (o ≡ some x) × Grown k x
  unfolding Grown
  Adds-Grown none k (i, lt, free) (e, all) =
      absurd (true-ne-false (sym (all i (omega arith) (omega arith)) ∙ free))
  Adds-Grown (some x) k room a = (x, refl, (omega (arith, a.0), a.0.2, a.1, a.2, a.3))

  module _ (k : NodeList) (x : ℕ) (g : Grown k x)
      (fresh : (j : ℕ) → j < l.node_count → (l.nodes j).is_taken ≡ true → copy ≢ (l.nodes j).data2)
      (other : List ℕ) where
    old_passes :
        (j : ℕ)
        → j < l.node_count
        → x ≢ j
        → passes (search_for_disk_name (update text copy name) other) (k.nodes j)
          ≡ passes (search_for_disk_name text other) (l.nodes j)
    unfolding search_for_disk_name Grown
    old_passes j lt ne = elim (Bool-cases (l.nodes j).is_taken) [
      | inl t ↦
          ap (passes test) (g.4 j ne)
          ∙ passes_taken test (l.nodes j) t
          ∙ ap (λ s. eq_text s other) (update_ne text copy (l.nodes j).data2 name (fresh j lt t))
          ∙ sym (passes_taken (search_for_disk_name text other) (l.nodes j) t)
      | inr t ↦
          ap (passes test) (g.4 j ne)
          ∙ passes_free test (l.nodes j) t
          ∙ sym (passes_free (search_for_disk_name text other) (l.nodes j) t)
    ]
      where
        test : ListNode → Bool
        test = search_for_disk_name (update text copy name) other

    new_passes :
        passes (search_for_disk_name (update text copy name) other) (k.nodes x) ≡ eq_text name other
    unfolding search_for_disk_name Grown
    new_passes =
        ap (passes (search_for_disk_name (update text copy name) other)) g.3
        ∙ ap (λ s. eq_text s other) (update_self text copy name)

    kept_mount :
        (f : ListNode → Bool) (o : Option ℕ)
        → IsFirst f l.nodes 0 l.node_count o
        → mount_of k o ≡ mount_of l o
    unfolding Grown
    kept_mount f none first = refl
    kept_mount f (some y) first =
        ap (λ n. some n.data1)
          (g.4 y (λ e. true-ne-false (sym first.2 ∙ ap (λ i. (l.nodes i).is_taken) (sym e) ∙ g.1)))

    pub lookup_new :
        eq_text name other ≡ true
        → lookup_in text name l ≡ none
        → lookup_in (update text copy name) other k ≡ some m
    unfolding lookup_in find_node Grown
    lookup_new same absent =
        let test = search_for_disk_name (update text copy name) other in
        let none_before =
          subst (λ s. lookup_in text s l ≡ none) (eq_text_sound name other same) absent in
        let fails =
          fails_where_none (search_for_disk_name text other) l.nodes l.node_count
            (find_node (search_for_disk_name text other) l)
            (find_node-IsFirst (search_for_disk_name text other) l)
            (mount_of-none l (find_node (search_for_disk_name text other) l) none_before) in
        let found =
          found-Only test k.nodes k.node_count x (find_node test k) (find_node-IsFirst test k)
            (omega (arith, g.0, g.2)) (new_passes ∙ same)
            (λ j lt ne. old_passes j (omega (arith, g.2)) ne ∙ fails j (omega (arith, g.2))) in
        ap (mount_of k) found ∙ ap (λ n. some n.data1) g.3

    pub lookup_old :
        eq_text name other ≡ false
        → lookup_in (update text copy name) other k ≡ lookup_in text other l
    unfolding lookup_in find_node Grown
    lookup_old differ =
        let before = search_for_disk_name text other in
        let after = search_for_disk_name (update text copy name) other in
        let same =
          find_node_from_same before after l.nodes k.nodes 0 l.node_count l.node_count (omega arith)
            (λ j lt. elim (ℕ_discrete x j) [
              | yes e ↦
                  subst (λ i. passes after (k.nodes i) ≡ passes before (l.nodes i)) e
                    (new_passes ∙ differ ∙ sym (passes_free before (l.nodes x) g.1))
              | no ne ↦ old_passes j lt ne
            ]) in
        ap (λ n. mount_of k (find_node_from after k.nodes 0 n)) g.2
        ∙ ap (mount_of k) same
        ∙ kept_mount before (find_node before l) (find_node-IsFirst before l)
