-- ===== src/NodeList.antt =====
-- src/fs/vfs/list.cpp: the list of fixed length that holds the mounts of the virtual file system. A
-- pointer to a node is its index.
pub mod Laws
pub mod Unique
use fox_os_kernel.Prelude.{
  ℕ, zero, suc, ◌+◌, Bool, true, false, Option, none, some, ltb, if◌then◌else◌, length, update,
}

pub record ListNode : Type 0 where
  pub data1 : ℕ
  pub data2 : ℕ
  pub data3 : ℕ
  pub data4 : ℕ
  pub is_taken : Bool

pub record NodeList : Type 0 where
  pub node_count : ℕ
  pub nodes : ℕ → ListNode

abbrev pub no_node : ListNode
no_node = record { data1 = 0; data2 = 0; data3 = 0; data4 = 0; is_taken = false }

-- `malloc`, with what the memory holds, and `memset`.
unfoldable pub create : ℕ → (ℕ → ListNode) → NodeList
create max_len memory = record {
  node_count = max_len;
  nodes = λ i. if ltb i max_len then no_node else memory i;
}

unfoldable pub find_node_from : (ListNode → Bool) → (ℕ → ListNode) → ℕ → ℕ → Option ℕ
find_node_from f nodes i zero = none
find_node_from f nodes i (suc n) =
    let rest = find_node_from f nodes (i + 1) n in
    if (nodes i).is_taken then (if f (nodes i) then some i else rest) else rest

unfoldable pub find_node : (ListNode → Bool) → NodeList → Option ℕ
unfolding find_node_from
find_node f l = find_node_from f l.nodes 0 l.node_count

unfoldable pub remove_node : ℕ → NodeList → NodeList
remove_node n l = if ltb n l.node_count then record l { nodes = update l.nodes n no_node } else l

unfoldable pub free_node : (ℕ → ListNode) → ℕ → ℕ → Option ℕ
free_node nodes i zero = none
free_node nodes i (suc n) =
    let rest = free_node nodes (i + 1) n in if (nodes i).is_taken then rest else some i

abbrev pub place : ListNode → NodeList → Option ℕ → Option ℕ × NodeList
place d l none = (none, l)
place d l (some i) = (some i, record l { nodes = update l.nodes i d })

unfoldable pub add_node : ℕ → ℕ → ℕ → ℕ → NodeList → Option ℕ × NodeList
unfolding free_node
add_node d1 d2 d3 d4 l =
    place (record { data1 = d1; data2 = d2; data3 = d3; data4 = d4; is_taken = true }) l
      (free_node l.nodes 0 l.node_count)
