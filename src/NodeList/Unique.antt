-- ===== src/NodeList/Unique.antt =====
-- src/fs/vfs/list.cpp: a search whose test passes for one node at most.
use fox_os_kernel.Prelude.{
  ℕ, zero, suc, ◌+◌, ◌<◌, ◌≡◌, refl, sym, ap, ap₂, ◌∙◌, ◌≢◌, inl, inr, Bool, true, false, Option,
  none, some, arith, ℕ_discrete, if◌then◌else◌, Bool-cases,
}
use fox_os_kernel.NodeList.{ListNode, find_node_from}
use fox_os_kernel.NodeList.Laws.{IsFirst}

pub true-ne-false : true ≢ false
true-ne-false q = cc

abbrev pub passes : (ListNode → Bool) → ListNode → Bool
passes f n = if n.is_taken then f n else false

one_test {ℓ} :
    {A : Type ℓ} (b c : Bool) (x y : A)
    → (if b then (if c then x else y) else y) ≡ (if (if b then c else false) then x else y)
one_test true c x y = refl
one_test false c x y = refl

-- Only the nodes that pass the test matter.
pub find_node_from_same :
    (f g : ListNode → Bool) (p q : ℕ → ListNode) (i n last : ℕ)
    → i + n ≡ last
    → ((j : ℕ) → j < last → passes g (q j) ≡ passes f (p j))
    → find_node_from g q i n ≡ find_node_from f p i n
unfolding find_node_from
find_node_from_same f g p q i zero last e h = refl
find_node_from_same f g p q i (suc n) last e h =
    let rest = find_node_from f p (i + 1) n in
    one_test (q i).is_taken (g (q i)) (some i) (find_node_from g q (i + 1) n)
    ∙ ap₂ (λ b r. if b then some i else r) (h i (omega arith))
        (find_node_from_same f g p q (i + 1) n last (omega arith) h)
    ∙ sym (one_test (p i).is_taken (f (p i)) (some i) rest)

abbrev pub Only : (ListNode → Bool) → (ℕ → ListNode) → ℕ → ℕ → Type 0
Only f nodes n x = (j : ℕ) → j < n → x ≢ j → passes f (nodes j) ≡ false

pub passes_taken : (f : ListNode → Bool) (n : ListNode) → n.is_taken ≡ true → passes f n ≡ f n
passes_taken f n t = ap (λ b. if b then f n else false) t

pub passes_free : (f : ListNode → Bool) (n : ListNode) → n.is_taken ≡ false → passes f n ≡ false
passes_free f n t = ap (λ b. if b then f n else false) t

pub passes-is_taken : (f : ListNode → Bool) (n : ListNode) → passes f n ≡ true → n.is_taken ≡ true
passes-is_taken f n p = elim (Bool-cases n.is_taken) [
  | inl t ↦ t
  | inr t ↦ absurd (true-ne-false (sym p ∙ passes_free f n t))
]

-- A node that passes and is the only one is found.
pub found-Only :
    (f : ListNode → Bool) (nodes : ℕ → ListNode) (n x : ℕ) (r : Option ℕ)
    → IsFirst f nodes 0 n r
    → x < n
    → passes f (nodes x) ≡ true
    → Only f nodes n x
    → r ≡ some x
found-Only f nodes n x none first lt p only =
    let t = passes-is_taken f (nodes x) p in
    absurd
      (true-ne-false (sym p ∙ passes_taken f (nodes x) t ∙ first x (omega arith) (omega arith) t))
found-Only f nodes n x (some y) first lt p only = elim (ℕ_discrete x y) [
  | yes e ↦ ap some (sym e)
  | no ne ↦ absurd (
      true-ne-false
        (sym (passes_taken f (nodes y) first.2 ∙ first.3) ∙ only y (omega (arith, first.1)) ne))
]

pub found_none :
    (f : ListNode → Bool) (nodes : ℕ → ListNode) (n : ℕ) (r : Option ℕ)
    → IsFirst f nodes 0 n r
    → ((j : ℕ) → j < n → passes f (nodes j) ≡ false)
    → r ≡ none
found_none f nodes n none first fails = refl
found_none f nodes n (some y) first fails = absurd (
    true-ne-false
      (sym (passes_taken f (nodes y) first.2 ∙ first.3) ∙ fails y (omega (arith, first.1))))

pub fails_where_none :
    (f : ListNode → Bool) (nodes : ℕ → ListNode) (n : ℕ) (r : Option ℕ)
    → IsFirst f nodes 0 n r
    → r ≡ none
    → (j : ℕ) → j < n
    → passes f (nodes j) ≡ false
fails_where_none f nodes n none first e j lt = elim (Bool-cases (nodes j).is_taken) [
  | inl t ↦ passes_taken f (nodes j) t ∙ first j (omega arith) (omega arith) t
  | inr t ↦ passes_free f (nodes j) t
]
fails_where_none f nodes n (some y) first e j lt = absurd (cc)
