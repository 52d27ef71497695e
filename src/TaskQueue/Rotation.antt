-- ===== src/TaskQueue/Rotation.antt =====
-- The operations of src/scheduling/scheduler/queue.cpp on the abstract queue.
use fox_os_kernel.Prelude.{
  ℕ, zero, suc, ◌+◌, ◌-◌, ◌^◌, ◌≤◌, ◌<◌, ◌≡◌, refl, ap, ap₂, ◌∙◌, List, [], ◌∷◌, ◌++◌, arith, ltb,
  if◌then◌else◌, update, update_self, update_ne, for_range_inv,
}
use fox_os_kernel.TaskQueue.{TaskQueue, add, shift, next, remove_first, slice, contents}

-- What the code means to do with the elements.
abbrev pub rotate : List ℕ → List ℕ
rotate [] = []
rotate (x ∷ xs) = xs ++ (x ∷ [])

abbrev pub rest : List ℕ → List ℕ
rest [] = []
rest (x ∷ xs) = xs

shift_lem : (len : ℕ) (m : ℕ → ℕ) (j : ℕ) → shift len m j ≡ (if ltb j len then m (j + 1) else m j)
unfolding shift
shift_lem len m =
    for_range_inv (λ k m'. (j : ℕ) → m' j ≡ (if ltb j k then m (j + 1) else m j)) _ len 0 len
      (omega arith) (λ k m' lt h j. ground (arith, h j, h (k + 1), ap m {x = j + 1} {y = k + 1})) m
      (λ j. ground arith)

slice_eq :
    (m m' : ℕ → ℕ) (i n : ℕ)
    → ((j : ℕ) → i ≤ j → j < i + n → m' j ≡ m j)
    → slice m' i n ≡ slice m i n
slice_eq m m' i zero h = refl
slice_eq m m' i (suc n) h =
    ap₂ ◌∷◌ (h i (omega arith) (omega arith))
      (slice_eq m m' (i + 1) n (λ j l u. h j (omega arith) (omega arith)))

slice_down :
    (m m' : ℕ → ℕ) (i n : ℕ)
    → ((j : ℕ) → i ≤ j → j < i + n → m' j ≡ m (j + 1))
    → slice m' i n ≡ slice m (i + 1) n
slice_down m m' i zero h = refl
slice_down m m' i (suc n) h =
    ap₂ ◌∷◌ (h i (omega arith) (omega arith))
      (slice_down m m' (i + 1) n (λ j l u. h j (omega arith) (omega arith)))

slice-suc : (m : ℕ → ℕ) (i n : ℕ) → slice m i (n + 1) ≡ slice m i n ++ (m (i + n) ∷ [])
slice-suc m i zero = ap (λ k. m k ∷ []) (omega arith)
slice-suc m i (suc n) =
    ap (slice m i) {y = suc (n + 1)} (omega arith)
    ∙ ap (◌∷◌ (m i))
        (slice-suc m (i + 1) n ∙ ap (λ k. slice m (i + 1) n ++ (m k ∷ [])) (omega arith))

moved_down : (m : ℕ → ℕ) (len n : ℕ) → n ≤ len → slice (shift len m) 0 n ≡ slice m 1 n
moved_down m len n h = slice_down m (shift len m) 0 n (λ j l u. shift_lem len m j ∙ ground arith)

-- A queue with fewer than 2 ^ 64 - 1 elements: `add` appends the element.
pub contents-add :
    (q : TaskQueue) (num : ℕ) → q.len < 2 ^ 64 - 1 → contents (add q num) ≡ contents q ++ (num ∷ [])
unfolding add
contents-add q num h =
    let m = update q.list q.len num in
    ap (slice m 0) (omega arith)
    ∙ slice-suc m 0 q.len
    ∙ ap₂ (λ xs x. xs ++ (x ∷ []))
        (slice_eq q.list m 0 q.len (λ j l u. update_ne q.list q.len j num (omega arith)))
        (ap m (omega arith) ∙ update_self q.list q.len num)

contents-next_suc :
    (m : ℕ → ℕ) (n : ℕ)
    → slice (shift (suc n) (update m (suc n) (m 0))) 0 (suc n) ≡ slice m 1 n ++ (m 0 ∷ [])
contents-next_suc m n =
    let m' = update m (suc n) (m 0) in
    moved_down m' (suc n) (suc n) (omega arith)
    ∙ ap (slice m' 1) {x = suc n} {y = n + 1} (omega arith)
    ∙ slice-suc m' 1 n
    ∙ ap₂ (λ xs x. xs ++ (x ∷ []))
        (slice_eq m m' 1 n (λ j l u. update_ne m (suc n) j (m 0) (omega arith)))
        (ap m' (omega arith) ∙ update_self m (suc n) (m 0))

next_slice : (m : ℕ → ℕ) (n : ℕ) → slice (shift n (update m n (m 0))) 0 n ≡ rotate (slice m 0 n)
next_slice m zero = refl
next_slice m (suc n) = contents-next_suc m n

-- `next` moves the first element behind the others, and leaves an empty queue as it is.
pub contents-next : (q : TaskQueue) → contents (next q) ≡ rotate (contents q)
unfolding next
contents-next q = next_slice q.list q.len

remove_slice :
    (m : ℕ → ℕ) (n : ℕ) → 0 < n → slice (shift n (update m n (m 0))) 0 (n - 1) ≡ rest (slice m 0 n)
remove_slice m zero h = elim h [ ]
remove_slice m (suc n) h =
    let m' = update m (suc n) (m 0) in
    ap (slice (shift (suc n) m') 0) (omega arith)
    ∙ moved_down m' (suc n) n (omega arith)
    ∙ slice_eq m m' 1 n (λ j l u. update_ne m (suc n) j (m 0) (omega arith))

-- A queue that is not empty, with a length of 64 bits: `remove_first` drops the first element and
-- keeps the others in their order.
pub contents-remove_first :
    (q : TaskQueue) → 0 < q.len → q.len < 2 ^ 64 → contents (remove_first q) ≡ rest (contents q)
unfolding remove_first
contents-remove_first q h l =
    ap (slice (shift q.len (update q.list q.len (q.list 0))) 0) (omega arith)
    ∙ remove_slice q.list q.len h

-- A slot above `len` holds what it held after `add`, after `next` and after `remove_first`.
pub above_len :
    (q : TaskQueue) (num j : ℕ)
    → q.len < j
    → ((add q num).list j ≡ q.list j)
      × ((next q).list j ≡ q.list j)
      × ((remove_first q).list j ≡ q.list j)
unfolding add next remove_first
above_len q num j h =
    let m = update q.list q.len (q.list 0) in
    let kept : shift q.len m j ≡ q.list j = shift_lem q.len m j ∙ ground arith in
    (update_ne q.list q.len j num (omega arith), kept, kept)

pub len-next : (q : TaskQueue) → (next q).len ≡ q.len
unfolding next
len-next q = refl

pub len-remove_first : (q : TaskQueue) → (remove_first q).len < 2 ^ 64
unfolding remove_first
len-remove_first q = omega arith
