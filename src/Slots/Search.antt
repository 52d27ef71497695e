-- ===== src/Slots/Search.antt =====
-- The searches of include/net/listv2.h.
use fox_os_kernel.Prelude.{
  ℕ, zero, suc, ◌+◌, ◌≤◌, ◌<◌, ◌≡◌, inl, inr, Bool, true, false, ◌&&◌, Option, none, some, arith,
  ℕ_discrete, Bool-cases,
}
use fox_os_kernel.Slots.{Node, Slots, find_from, find, free_slot}

module _ {ℓ} {T : Type ℓ} where
  -- The first node from `i` on, of `n`, that is taken and passes the test.
  abbrev pub IsFirst : (T → Bool) → (ℕ → Node T) → ℕ → ℕ → Option ℕ → Type 0
  IsFirst f nodes i n none =
      (j : ℕ) → i ≤ j → j < i + n → ((nodes j).taken && f (nodes j).value) ≡ false
  IsFirst f nodes i n (some x) =
      (i ≤ x)
      × (x < i + n)
      × ((nodes x).taken ≡ true)
      × (f (nodes x).value ≡ true)
      × ((j : ℕ) → i ≤ j → j < x → ((nodes j).taken && f (nodes j).value) ≡ false)

  IsFirst-after :
      (f : T → Bool) (nodes : ℕ → Node T) (i n : ℕ) (r : Option ℕ)
      → ((nodes i).taken && f (nodes i).value) ≡ false
      → IsFirst f nodes (i + 1) n r
      → IsFirst f nodes i (suc n) r
  IsFirst-after f nodes i n none e h =
      λ j l u. elim (ℕ_discrete i j) [ yes p ↦ rw (← p) e | no p ↦ h j (omega arith) (omega arith) ]
  IsFirst-after f nodes i n (some x) e h = (
    omega arith,
    omega arith,
    h.2,
    h.3,
    λ j l u. elim (ℕ_discrete i j) [ yes p ↦ rw (← p) e | no p ↦ h.4 j (omega arith) u ],
  )

  pub find_from-IsFirst :
      (f : T → Bool) (nodes : ℕ → Node T) (i n : ℕ) → IsFirst f nodes i n (find_from f nodes i n)
  unfolding find_from
  find_from-IsFirst f nodes i zero = λ j l u. absurd (omega arith)
  find_from-IsFirst f nodes i (suc n) = elim (Bool-cases ((nodes i).taken && f (nodes i).value)) [
    | inl e ↦
        rw e (omega arith, omega arith, ground arith, ground arith, λ j l u. absurd (omega arith))
    | inr e ↦ rw e (
        IsFirst-after f nodes i n (find_from f nodes (i + 1) n) e
          (find_from-IsFirst f nodes (i + 1) n))
  ]

  -- `find` gives the first taken node that passes the test, and `nullptr` only where no taken node
  -- does.
  pub find-IsFirst : (f : T → Bool) (l : Slots T) → IsFirst f l.nodes 0 l.length (find f l)
  unfolding find
  find-IsFirst f l = find_from-IsFirst f l.nodes 0 l.length

  abbrev pub IsFreeSlot : (ℕ → Node T) → ℕ → ℕ → Option ℕ → Type 0
  IsFreeSlot nodes i n none = (j : ℕ) → i ≤ j → j < i + n → (nodes j).taken ≡ true
  IsFreeSlot nodes i n (some x) = (i ≤ x) × (x < i + n) × ((nodes x).taken ≡ false)

  free_after :
      (nodes : ℕ → Node T) (i n : ℕ) (r : Option ℕ)
      → (nodes i).taken ≡ true
      → IsFreeSlot nodes (i + 1) n r
      → IsFreeSlot nodes i (suc n) r
  free_after nodes i n none e h =
      λ j l u. elim (ℕ_discrete i j) [ yes p ↦ rw (← p) e | no p ↦ h j (omega arith) (omega arith) ]
  free_after nodes i n (some x) e h = (omega arith, omega arith, h.2)

  pub free_slot-IsFreeSlot :
      (nodes : ℕ → Node T) (i n : ℕ) → IsFreeSlot nodes i n (free_slot nodes i n)
  unfolding free_slot
  free_slot-IsFreeSlot nodes i zero = λ j l u. absurd (omega arith)
  free_slot-IsFreeSlot nodes i (suc n) = elim (Bool-cases (nodes i).taken) [
    | inl e ↦
        rw e (
          free_after nodes i n (free_slot nodes (i + 1) n) e (free_slot-IsFreeSlot nodes (i + 1) n))
    | inr e ↦ rw e (omega arith, omega arith, e)
  ]
