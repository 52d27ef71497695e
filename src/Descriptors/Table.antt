-- ===== src/Descriptors/Table.antt =====
-- src/fs/fd.cpp: a descriptor that is registered can be looked up.
use fox_os_kernel.Prelude.{
  ℕ, suc, ◌<◌, ◌≡◌, sym, ap, ◌∙◌, subst, ◌≢◌, inl, inr, true, false, ◌&&◌, Option, none, some,
  arith, ℕ_discrete, ◌==◌, ==_iff, ==_refl, Option-cases, update_self, update_ne,
}
use fox_os_kernel.Slots.{Node, find, store, free_slot}
use fox_os_kernel.Slots.Search.{IsFirst, find-IsFirst, IsFreeSlot, free_slot-IsFreeSlot}
use fox_os_kernel.Slots.Growth.{add_found}
use fox_os_kernel.Descriptors.{registered, looked_up, FileDescriptorManager, register_fd, get_fd}

-- No registered descriptor has the number.
abbrev pub Unused : ℕ → FileDescriptorManager → Type 0
Unused fd m =
    (j : ℕ) → j < m.fds.length → (m.fds.nodes j).taken ≡ true → fd ≢ m.number (m.fds.nodes j).value

-- The table with the descriptor in one more slot.
abbrev pub with_descriptor : ℕ → ℕ → FileDescriptorManager → FileDescriptorManager
with_descriptor p i m = record m { fds = store m.fds i p }

stored_matches :
    (fd p i : ℕ) (m : FileDescriptorManager)
    → m.number p ≡ fd
    → ((store m.fds i p).nodes i).taken && (fd == m.number ((store m.fds i p).nodes i).value) ≡ true
stored_matches fd p i m e =
    rw (update_self m.fds.nodes i (record { value = p; taken = true }), e) (==_refl fd)

old_differs :
    (fd p i n : ℕ) (m : FileDescriptorManager)
    → Unused fd m
    → i ≢ n
    → n < m.fds.length
    → ((store m.fds i p).nodes n).taken ≡ true
    → (fd == m.number ((store m.fds i p).nodes n).value) ≢ true
old_differs fd p i n m u q lt t s =
    let old = update_ne m.fds.nodes i n (record { value = p; taken = true }) q in
    u n lt (subst (λ (v : Node ℕ). v.taken ≡ true) old t) (
      (==_iff fd (m.number (m.fds.nodes n).value)).0
        (subst (λ (v : Node ℕ). (fd == m.number v.value) ≡ true) old s))

found_lem :
    (fd p i : ℕ) (m : FileDescriptorManager)
    → Unused fd m
    → m.number p ≡ fd
    → i < m.fds.length
    → (o : Option ℕ) → IsFirst (λ q. fd == m.number q) (store m.fds i p).nodes 0 m.fds.length o
    → o ≡ some i
found_lem fd p i m u e lt none h =
    absurd (ground (arith, stored_matches fd p i m e, h i (omega arith) (omega arith)))
found_lem fd p i m u e lt (some n) h = elim (ℕ_discrete i n) [
  | yes q ↦ ap some (sym q)
  | no q ↦ absurd (old_differs fd p i n m u q (omega arith) h.2 h.3)
]

get_fd_lem :
    (fd p i : ℕ) (m : FileDescriptorManager)
    → Unused fd m
    → m.number p ≡ fd
    → i < m.fds.length
    → get_fd fd (with_descriptor p i m) ≡ (some p, with_descriptor p i m)
unfolding get_fd
get_fd_lem fd p i m u e lt =
    ap (looked_up (with_descriptor p i m)) (
      found_lem fd p i m u e lt (find (λ q. fd == m.number q) (store m.fds i p))
        (find-IsFirst (λ q. fd == m.number q) (store m.fds i p)))
    ∙ ap (λ (v : Node ℕ). (some v.value, with_descriptor p i m))
        (update_self m.fds.nodes i (record { value = p; taken = true }))

-- A descriptor whose number no registered one has, and a table with a free slot: `register_fd`
-- returns with any fuel but 0, and then `get_fd` of the number gives the descriptor and leaves the
-- table as it is.
pub register_fd-get_fd :
    (fuel fd p x : ℕ) (m : FileDescriptorManager)
    → Unused fd m
    → m.number p ≡ fd
    → x < m.fds.length
    → (m.fds.nodes x).taken ≡ false
    → (m' : FileDescriptorManager) × (register_fd (suc fuel) p m ≡ some m')
      × (get_fd fd m' ≡ (some p, m'))
unfolding register_fd
register_fd-get_fd fuel fd p x m u e lt f =
    elim (Option-cases (free_slot m.fds.nodes 0 m.fds.length)) [
      | inl q ↦ absurd (
          ground (
            arith,
            subst (IsFreeSlot m.fds.nodes 0 m.fds.length) q
                (free_slot-IsFreeSlot m.fds.nodes 0 m.fds.length) x (omega arith) (omega arith),
          ))
      | inr (i, q) ↦
          let free =
            subst (IsFreeSlot m.fds.nodes 0 m.fds.length) q
              (free_slot-IsFreeSlot m.fds.nodes 0 m.fds.length) in
          (
            with_descriptor p i m,
            ap (registered m) (add_found 16 fuel i p m.fds q),
            get_fd_lem fd p i m u e (omega (arith, free.1)),
          )
    ]
