-- ===== src/Slots/Entries.antt =====
-- include/net/listv2.h as a multiset of the values that it holds.
use mathlib.Core.List.{Perm}
use mathlib.Core.List.Perm
use fox_os_kernel.Prelude.{
  ℕ, zero, suc, ◌+◌, ◌≤◌, ◌<◌, ◌≡◌, refl, sym, ap, ap₂, ◌∙◌, subst, inl, inr, Bool, true, false,
  none, some, List, [], ◌∷◌, arith, ℕ_discrete, if◌then◌else◌, lt→ltb, Bool-cases, Option-cases,
  update, update_self, update_ne,
}
use fox_os_kernel.Slots.Search.{IsFreeSlot, free_slot-IsFreeSlot}
use fox_os_kernel.Slots.Growth.{add_found}
use fox_os_kernel.Slots.{add, store, remove, free_slot, Node, Slots}

absurd_taken : {b : Bool} → b ≡ true → b ≡ false → ⊥
absurd_taken p q = ground arith

module _ {ℓ} {T : Type ℓ} where
  pub entries_from : (ℕ → Node T) → ℕ → ℕ → List T
  entries_from nodes i zero = []
  entries_from nodes i (suc n) =
      let rest = entries_from nodes (i + 1) n in
      if (nodes i).taken then (nodes i).value ∷ rest else rest

  pub entries : Slots T → List T
  unfolding entries_from
  entries l = entries_from l.nodes 0 l.length

  entries_eq :
      (m m' : ℕ → Node T) (i n : ℕ)
      → ((j : ℕ) → i ≤ j → j < i + n → m' j ≡ m j)
      → entries_from m' i n ≡ entries_from m i n
  unfolding entries_from
  entries_eq m m' i zero h = refl
  entries_eq m m' i (suc n) h =
      ap₂ (λ (v : Node T) r. if v.taken then v.value ∷ r else r) (h i (omega arith) (omega arith))
        (entries_eq m m' (i + 1) n (λ j l u. h j (omega arith) (omega arith)))

  -- A slot that is filled or cleared, at the head of the nodes that are listed or behind it.
  keep_head :
      (v : Node T) (d : T) (r r' : List T)
      → Perm r' (d ∷ r)
      → Perm (if v.taken then v.value ∷ r' else r') (d ∷ (if v.taken then v.value ∷ r else r))
  keep_head v d r r' p = elim (Bool-cases v.taken) [
    | inl e ↦ rw e (Perm.trans (Perm.cons v.value p) (Perm.swap d v.value r))
    | inr e ↦ rw e p
  ]

  filled_head :
      (m : ℕ → Node T) (d : T) (x n : ℕ)
      → (m x).taken ≡ false
      → entries_from (update m x (record { value = d; taken = true })) x (suc n)
        ≡ d ∷ entries_from m x (suc n)
  unfolding entries_from
  filled_head m d x n e =
      rw
        (
          update_self m x (record { value = d; taken = true }),
          e,
          entries_eq m (update m x (record { value = d; taken = true })) (x + 1) n (λ j l u.
              update_ne m x j (record { value = d; taken = true }) (λ q. absurd (omega arith))),
        )
        refl

  pub filled-Perm :
      (m : ℕ → Node T) (d : T) (x i n : ℕ)
      → i ≤ x
      → x < i + n
      → (m x).taken ≡ false
      → Perm
          (entries_from (update m x (record { value = d; taken = true })) i n)
          (d ∷ entries_from m i n)
  unfolding entries_from
  filled-Perm m d x i zero l u e = absurd (omega arith)
  filled-Perm m d x i (suc n) l u e = elim (ℕ_discrete i x) [
    | yes p ↦ rw (p) (
        subst (λ k. Perm k (d ∷ entries_from m x (suc n))) (sym (filled_head m d x n e))
          (Perm.refl _))
    | no p ↦
        rw (update_ne m x i (record { value = d; taken = true }) (λ q. p (sym q)))
          (keep_head (m i) d _ _ (filled-Perm m d x (i + 1) n (omega arith) (omega arith) e))
  ]

  none_lem :
      (l : Slots T) (x : ℕ)
      → x < l.length
      → (l.nodes x).taken ≡ false
      → ¬ (free_slot l.nodes 0 l.length ≡ none)
  none_lem l x lt e q =
      absurd_taken
        (subst (IsFreeSlot l.nodes 0 l.length) q (free_slot-IsFreeSlot l.nodes 0 l.length) x
          (omega arith) (omega arith))
        e

  added :
      (l : Slots T) (d : T) (i : ℕ)
      → free_slot l.nodes 0 l.length ≡ some i
      → Perm (entries (store l i d)) (d ∷ entries l)
  unfolding entries
  added l d i q =
      let s = subst (IsFreeSlot l.nodes 0 l.length) q (free_slot-IsFreeSlot l.nodes 0 l.length) in
      filled-Perm l.nodes d i 0 l.length s.0 s.1 s.2

  cleared :
      (m : ℕ → Node T) (v : Node T) (z : T) (n : ℕ)
      → m n ≡ v
      → (j : ℕ) → m j ≡ update (update m n (record { value = z; taken = false })) n v j
  cleared m v z n p j = elim (ℕ_discrete n j) [
    | yes q ↦
        rw (← q) (p ∙ sym (update_self (update m n (record { value = z; taken = false })) n v))
    | no q ↦ sym (
        update_ne (update m n (record { value = z; taken = false })) n j v q
        ∙ update_ne m n j (record { value = z; taken = false }) q)
  ]

  -- Where one of the nodes is free, `add` returns with any fuel but 0; the list then holds one
  -- value more, and all those that it held.
  pub add-Perm :
      (node_size fuel x : ℕ) (d : T) (l : Slots T)
      → x < l.length
      → (l.nodes x).taken ≡ false
      → (r : ℕ × Slots T) × (add node_size (suc fuel) d l ≡ some r)
        × Perm (entries r.1) (d ∷ entries l)
  unfolding entries
  add-Perm node_size fuel x d l lt e = elim (Option-cases (free_slot l.nodes 0 l.length)) [
    | inl q ↦ absurd (none_lem l x lt e q)
    | inr (i, q) ↦ ((i, store l i d), add_found node_size fuel i d l q, added l d i q)
  ]

  -- A node of the list that is taken: `remove` takes its value out of the list, and keeps all the
  -- others.
  pub remove-Perm :
      (zero_value : T) (n : ℕ) (l : Slots T)
      → n < l.length
      → (l.nodes n).taken ≡ true
      → Perm (entries l) ((l.nodes n).value ∷ entries (remove zero_value n l))
  unfolding remove entries
  remove-Perm z n l lt e = rw (lt→ltb n l.length lt) (
      subst
        (λ k. Perm k (
          (l.nodes n).value
          ∷ entries_from (update l.nodes n (record { value = z; taken = false })) 0 l.length))
        (sym (
          entries_eq
            (update (update l.nodes n (record { value = z; taken = false })) n
              (record { value = (l.nodes n).value; taken = true }))
            l.nodes 0 l.length
            (λ j _ _.
              cleared l.nodes _ z n (ap (λ t. record { value = (l.nodes n).value; taken = t }) e)
                j)))
        (filled-Perm (update l.nodes n (record { value = z; taken = false })) (l.nodes n).value n 0
          l.length (omega arith) (omega arith)
          (rw (update_self l.nodes n (record { value = z; taken = false })) refl)))
