-- ===== src/NodeList/Laws.antt =====
-- src/fs/vfs/list.cpp: how the operations of the list fit together.
use fox_os_kernel.Prelude.{
  ℕ, zero, suc, ◌+◌, ◌≤◌, ◌<◌, ◌≡◌, refl, subst, ◌≢◌, inl, inr, Bool, true, false, Option, none,
  some, arith, ℕ_discrete, Bool-cases, update_self, update_ne,
}
use fox_os_kernel.NodeList.{
  ListNode, NodeList, place, find_node, find_node_from, free_node, add_node,
}

abbrev pub Free : (ℕ → ListNode) → ℕ → ℕ → Option ℕ → Type 0
Free nodes i n none = (j : ℕ) → i ≤ j → j < i + n → (nodes j).is_taken ≡ true
Free nodes i n (some x) =
    (i ≤ x)
    × (x < i + n)
    × ((nodes x).is_taken ≡ false)
    × ((j : ℕ) → i ≤ j → j < x → (nodes j).is_taken ≡ true)

Free-after :
    (nodes : ℕ → ListNode) (i n : ℕ) (r : Option ℕ)
    → (nodes i).is_taken ≡ true
    → Free nodes (i + 1) n r
    → Free nodes i (suc n) r
Free-after nodes i n none e h =
    λ j l u. elim (ℕ_discrete i j) [ yes p ↦ rw (← p) e | no p ↦ h j (omega arith) (omega arith) ]
Free-after nodes i n (some x) e h = (
  omega arith,
  omega arith,
  h.2,
  λ j l u. elim (ℕ_discrete i j) [ yes p ↦ rw (← p) e | no p ↦ h.3 j (omega arith) u ],
)

pub free_node-Free : (nodes : ℕ → ListNode) (i n : ℕ) → Free nodes i n (free_node nodes i n)
unfolding free_node
free_node-Free nodes i zero = λ j l u. absurd (omega arith)
free_node-Free nodes i (suc n) = elim (Bool-cases (nodes i).is_taken) [
  | inl e ↦
      rw e (Free-after nodes i n (free_node nodes (i + 1) n) e (free_node-Free nodes (i + 1) n))
  | inr e ↦ rw e (omega arith, omega arith, e, λ j l u. absurd (omega arith))
]

-- What `add_node` of these four pointers gives: the first free node then holds them and the others are
-- what they were, or every node is taken and the list is what it was.
abbrev pub Adds : ListNode → NodeList → Option ℕ → NodeList → Type 0
Adds d l none l' = (l' ≡ l) × Free l.nodes 0 l.node_count none
Adds d l (some x) l' =
    Free l.nodes 0 l.node_count (some x)
    × (l'.node_count ≡ l.node_count)
    × (l'.nodes x ≡ d)
    × ((j : ℕ) → x ≢ j → l'.nodes j ≡ l.nodes j)

place-Adds :
    (d : ListNode) (l : NodeList) (o : Option ℕ)
    → Free l.nodes 0 l.node_count o
    → Adds d l (place d l o).0 (place d l o).1
place-Adds d l none h = (refl, h)
place-Adds d l (some x) h = (h, refl, update_self l.nodes x d, λ j k. update_ne l.nodes x j d k)

-- `add_node` fills the first free node with its four pointers and changes no other node, or gives
-- `NULL` and changes nothing where every node is taken.
pub add_node-Adds :
    (d1 d2 d3 d4 : ℕ) (l : NodeList)
    → Adds
        (record { data1 = d1; data2 = d2; data3 = d3; data4 = d4; is_taken = true })
        l
        (add_node d1 d2 d3 d4 l).0
        (add_node d1 d2 d3 d4 l).1
unfolding add_node
add_node-Adds d1 d2 d3 d4 l =
    place-Adds (record { data1 = d1; data2 = d2; data3 = d3; data4 = d4; is_taken = true }) l
      (free_node l.nodes 0 l.node_count) (free_node-Free l.nodes 0 l.node_count)

-- The first node that is taken and passes the test.
abbrev pub IsFirst : (ListNode → Bool) → (ℕ → ListNode) → ℕ → ℕ → Option ℕ → Type 0
IsFirst f nodes i n none =
    (j : ℕ) → i ≤ j → j < i + n → (nodes j).is_taken ≡ true → f (nodes j) ≡ false
IsFirst f nodes i n (some x) =
    (i ≤ x)
    × (x < i + n)
    × ((nodes x).is_taken ≡ true)
    × (f (nodes x) ≡ true)
    × ((j : ℕ) → i ≤ j → j < x → (nodes j).is_taken ≡ true → f (nodes j) ≡ false)

IsFirst-after :
    (f : ListNode → Bool) (nodes : ℕ → ListNode) (i n : ℕ) (r : Option ℕ)
    → ((nodes i).is_taken ≡ true → f (nodes i) ≡ false)
    → IsFirst f nodes (i + 1) n r
    → IsFirst f nodes i (suc n) r
IsFirst-after f nodes i n none e h = λ j l u. elim (ℕ_discrete i j) [
  | yes p ↦ subst (λ k. (nodes k).is_taken ≡ true → f (nodes k) ≡ false) p e
  | no p ↦ h j (omega arith) (omega arith)
]
IsFirst-after f nodes i n (some x) e h = (
  omega arith,
  omega arith,
  h.2,
  h.3,
  λ j l u. elim (ℕ_discrete i j) [
    | yes p ↦ subst (λ k. (nodes k).is_taken ≡ true → f (nodes k) ≡ false) p e
    | no p ↦ h.4 j (omega arith) u
  ],
)

find_node_from-IsFirst :
    (f : ListNode → Bool) (nodes : ℕ → ListNode) (i n : ℕ)
    → IsFirst f nodes i n (find_node_from f nodes i n)
unfolding find_node_from
find_node_from-IsFirst f nodes i zero = λ j l u. absurd (omega arith)
find_node_from-IsFirst f nodes i (suc n) = elim (Bool-cases (nodes i).is_taken) [
  | inl e ↦ elim (Bool-cases (f (nodes i))) [
    | inl k ↦ rw (k, e) (omega arith, omega arith, e, k, λ j l u. absurd (omega arith))
    | inr k ↦
        rw (k, e)
          (IsFirst-after f nodes i n (find_node_from f nodes (i + 1) n) (λ _. k)
            (find_node_from-IsFirst f nodes (i + 1) n))
  ]
  | inr e ↦ rw e (
      IsFirst-after f nodes i n (find_node_from f nodes (i + 1) n) (λ t. ground arith)
        (find_node_from-IsFirst f nodes (i + 1) n))
]

-- `find_node` gives the first taken node that passes the test, and `NULL` only where there is none.
pub find_node-IsFirst :
    (f : ListNode → Bool) (l : NodeList) → IsFirst f l.nodes 0 l.node_count (find_node f l)
unfolding find_node
find_node-IsFirst f l = find_node_from-IsFirst f l.nodes 0 l.node_count
