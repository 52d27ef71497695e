-- ===== src/Slots.antt =====
-- include/net/listv2.h: the slot list that the network stack and the descriptor table use. The nodes
-- are a function of their index; `capacity` is how many of them the allocation holds, the others are
-- what lies behind it. A pointer to a node is its index, `nullptr` is `none`.
pub mod Search
pub mod Entries
pub mod Growth
use fox_os_kernel.Prelude.{
  ℕ, zero, suc, ◌+◌, ◌*◌, ◌/◌, Bool, true, false, ◌&&◌, Option, none, some, ltb, leb, if◌then◌else◌,
  update,
}

pub record Node {ℓ} (T : Type ℓ) : Type ℓ where
  pub value : T
  pub taken : Bool

pub record Slots {ℓ} (T : Type ℓ) : Type ℓ where
  pub length : ℕ
  pub capacity : ℕ
  pub nodes : ℕ → Node T

-- `realloc(data, old_size, size)` gives the old block back where `size <= old_size`.
unfoldable pub grown_capacity : ℕ → ℕ → ℕ → ℕ → ℕ
grown_capacity capacity node_size old_size size =
    if leb size old_size then capacity else size / node_size

module _ {ℓ} {T : Type ℓ} where
  -- The constructor clears `length * sizeof(T)` bytes; a node has its flag behind its value.
  unfoldable pub create : ℕ → ℕ → ℕ → T → (ℕ → Node T) → Slots T
  create value_size node_size initial_length zero_value memory = record {
    length = initial_length;
    capacity = initial_length;
    nodes = λ i.
        if ltb (i * node_size + value_size) (initial_length * value_size)
        then record { value = zero_value; taken = false }
        else memory i;
  }

  unfoldable pub find_from : (T → Bool) → (ℕ → Node T) → ℕ → ℕ → Option ℕ
  find_from f nodes i zero = none
  find_from f nodes i (suc n) =
      let rest = find_from f nodes (i + 1) n in
      if (nodes i).taken && f (nodes i).value then some i else rest

  unfoldable pub find : (T → Bool) → Slots T → Option ℕ
  unfolding find_from
  find f l = find_from f l.nodes 0 l.length

  -- Only the node that is one of the list's is cleared.
  unfoldable pub remove : T → ℕ → Slots T → Slots T
  remove zero_value n l =
      if ltb n l.length
      then record l { nodes = update l.nodes n (record { value = zero_value; taken = false }) }
      else l

  unfoldable pub free_slot : (ℕ → Node T) → ℕ → ℕ → Option ℕ
  free_slot nodes i zero = none
  free_slot nodes i (suc n) =
      let rest = free_slot nodes (i + 1) n in if (nodes i).taken then rest else some i

  abbrev pub store : Slots T → ℕ → T → Slots T
  store l i d = record l { nodes = update l.nodes i (record { value = d; taken = true }) }

  -- `realloc(data, sizeof(node) * (length + 1), length * sizeof(node)); length++; goto retry;`, with
  -- fuel for the retries.
  unfoldable pub add : ℕ → ℕ → T → Slots T → Option (ℕ × Slots T)
  unfolding free_slot grown_capacity
  add node_size zero d l = none
  add node_size (suc fuel) d l =
      let again = add node_size fuel d (record l {
        capacity =
            grown_capacity l.capacity node_size (node_size * (l.length + 1)) (l.length * node_size);
        length = l.length + 1;
      }) in
      elim (free_slot l.nodes 0 l.length) [ some i ↦ some (i, store l i d) | none ↦ again ]
