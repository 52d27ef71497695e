-- ===== src/CmdLine.antt =====
-- src/cmdline.cpp: the parser of the kernel's command line. A C string is the list of its bytes, the names
-- of the handlers are the strings that `text` gives, and what `parse` does is the list of its calls.
pub mod RoundTrip
use fox_os_kernel.Prelude.{
  ℕ, Bool, not, Option, none, some, List, [], ◌∷◌, map, ◌==◌, if◌then◌else◌,
}
use fox_os_kernel.NodeList.{ListNode, NodeList, find_node, add_node}
use fox_os_kernel.Vfs.{eq_text}

-- A call of a handler with what stands behind the `=`, where `none` is `nullptr`, or the message
-- about an option that is not known.
pub data Action : Type 0 where
  handled : ℕ → Option (List ℕ) → Action
  unknown : List ℕ → Action

unfoldable pub add_handler : ℕ → ℕ → NodeList → NodeList
add_handler name handler l = (add_node name handler 0 0 l).1

unfoldable pub find_handler : (ℕ → List ℕ) → List ℕ → ListNode → Bool
find_handler text name n = eq_text (text n.data1) name

abbrev pub in_front : ℕ → List ℕ × Option (List ℕ) → List ℕ × Option (List ℕ)
in_front c r = (c ∷ r.0, r.1)

-- The token up to its first `=`, and what stands behind that.
unfoldable pub cut_assignment : List ℕ → List ℕ × Option (List ℕ)
cut_assignment [] = ([], none)
cut_assignment (c ∷ token) =
    let rest = cut_assignment token in if c == b'=' then ([], some token) else in_front c rest

abbrev pub dispatch : NodeList → List ℕ × Option (List ℕ) → Option ℕ → Action
dispatch l r none = unknown r.0
dispatch l r (some n) = handled (l.nodes n).data2 r.1

-- What is done with one token.
unfoldable pub parse_token : (ℕ → List ℕ) → NodeList → List ℕ → Action
unfolding cut_assignment find_handler
parse_token text l token =
    let r = cut_assignment token in dispatch l r (find_node (find_handler text r.0) l)

abbrev pub onto_first : ℕ → List (List ℕ) → List (List ℕ)
onto_first c [] = (c ∷ []) ∷ []
onto_first c (token ∷ tokens) = (c ∷ token) ∷ tokens

-- The tokens between the spaces; two spaces have an empty one between them.
unfoldable pub tokens : List ℕ → List (List ℕ)
tokens [] = [] ∷ []
tokens (c ∷ cmdline) = let rest = tokens cmdline in if c == 32 then [] ∷ rest else onto_first c rest

unfoldable pub parse : (ℕ → List ℕ) → NodeList → List ℕ → List Action
unfolding tokens parse_token
parse text l [] = []
parse text l (c ∷ cmdline) = map (parse_token text l) (tokens (c ∷ cmdline))
