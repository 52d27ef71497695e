-- ===== src/Slots/Growth.antt =====
-- include/net/listv2.h: a list whose nodes are all taken.
use native.Mathlib.Nat.{mul_comm, mul-le-mul_left}
use fox_os_kernel.Prelude.{
  ℕ, zero, suc, ◌+◌, ◌*◌, ◌≤◌, ◌<◌, ◌≡◌, refl, ap, ◌∙◌, subst, true, false, Option, none, some,
  arith, ℕ_discrete, le→leb,
}
use fox_os_kernel.Slots.{Node, Slots, grown_capacity, free_slot, store, add}

grown_capacity_lem :
    (c node_size n : ℕ) → grown_capacity c node_size (node_size * (n + 1)) (n * node_size) ≡ c
unfolding grown_capacity
grown_capacity_lem c node_size n =
    rw
      (le→leb (n * node_size) (node_size * (n + 1)) (
        subst (λ k. k ≤ node_size * (n + 1)) (mul_comm node_size n)
          (mul-le-mul_left node_size (omega arith))))
      refl

module _ {ℓ} {T : Type ℓ} where
  no_free_slot :
      (m : ℕ → Node T) (i n : ℕ)
      → ((j : ℕ) → i ≤ j → j < i + n → (m j).taken ≡ true)
      → free_slot m i n ≡ none
  unfolding free_slot
  no_free_slot m i zero h = refl
  no_free_slot m i (suc n) h =
      rw (h i (omega arith) (omega arith))
        (no_free_slot m (i + 1) n (λ j l u. h j (omega arith) (omega arith)))

  only_free_slot :
      (m : ℕ → Node T) (x i n : ℕ)
      → x ≡ i + n
      → ((j : ℕ) → i ≤ j → j < x → (m j).taken ≡ true)
      → (m x).taken ≡ false
      → free_slot m i (suc n) ≡ some x
  unfolding free_slot
  only_free_slot m x i zero p h e = elim (ℕ_discrete i x) [
    | yes q ↦ rw (q, e) refl
    | no q ↦ absurd (q (omega arith))
  ]
  only_free_slot m x i (suc n) p h e =
      rw (h i (omega arith) (omega arith))
        (only_free_slot m x (i + 1) n (omega arith) (λ j l u. h j (omega arith) u) e)

  pub add_found :
      (node_size fuel i : ℕ) (d : T) (l : Slots T)
      → free_slot l.nodes 0 l.length ≡ some i
      → add node_size (suc fuel) d l ≡ some (i, store l i d)
  unfolding add
  add_found node_size fuel i d l q =
      ap
        (λ (o : Option ℕ). elim o as (λ _. Option (ℕ × Slots T)) [
          | some k ↦ some (k, store l k d)
          | none ↦ add node_size fuel d (record l {
            capacity =
                grown_capacity l.capacity node_size (node_size * (l.length + 1))
                  (l.length * node_size);
            length = l.length + 1;
          })
        ])
        q

  add_again :
      (node_size fuel : ℕ) (d : T) (l : Slots T)
      → free_slot l.nodes 0 l.length ≡ none
      → add node_size (suc fuel) d l ≡ add node_size fuel d (record l { length = l.length + 1 })
  unfolding add
  add_again node_size fuel d l q =
      ap
        (λ (o : Option ℕ). elim o as (λ _. Option (ℕ × Slots T)) [
          | some k ↦ some (k, store l k d)
          | none ↦ add node_size fuel d (record l {
            capacity =
                grown_capacity l.capacity node_size (node_size * (l.length + 1))
                  (l.length * node_size);
            length = l.length + 1;
          })
        ])
        q
      ∙ ap (λ c. add node_size fuel d (record l { capacity = c; length = l.length + 1 }))
          (grown_capacity_lem l.capacity node_size l.length)

  -- A list whose nodes are all taken, with a clear flag behind them: `add` returns with two rounds
  -- or more, makes the list one node longer and stores the value in the node behind the old ones,
  -- and the allocation has the capacity that it had.
  pub add_full :
      (node_size fuel : ℕ) (d : T) (l : Slots T)
      → ((j : ℕ) → j < l.length → (l.nodes j).taken ≡ true)
      → (l.nodes l.length).taken ≡ false
      → add node_size (suc (suc fuel)) d l
        ≡ some (l.length, store (record l { length = l.length + 1 }) l.length d)
  add_full node_size fuel d l h e =
      add_again node_size (suc fuel) d l
        (no_free_slot l.nodes 0 l.length (λ j _ u. h j (omega arith)))
      ∙ add_found node_size fuel l.length d (record l { length = l.length + 1 })
          (subst (λ k. free_slot l.nodes 0 k ≡ some l.length) (omega arith)
            (only_free_slot l.nodes l.length 0 l.length (omega arith) (λ j _ u. h j u) e))
