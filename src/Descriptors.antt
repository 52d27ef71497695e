-- ===== src/Descriptors.antt =====
-- src/fs/fd.cpp: the table of open file descriptors. A `FileDescriptor*` is a number, `number` gives its
-- `fd`, and a failed `assert` sets the task's error number and returns.
pub mod Table
pub mod Calls
use fox_os_kernel.Prelude.{ℕ, ◌+◌, Option, none, some, ◌==◌}
use fox_os_kernel.Vfs.{set_errno}
use fox_os_kernel.Slots.{Slots, find, add, remove}

pub record FileDescriptorManager : Type 0 where
  pub fds : Slots ℕ
  pub curr_fd : ℕ
  pub number : ℕ → ℕ
  pub errno : Option ℕ

-- `VFS_ERROR`
abbrev pub vfs_error : ℕ
vfs_error = 1

unfoldable pub alloc_fd : FileDescriptorManager → ℕ × FileDescriptorManager
alloc_fd m = (m.curr_fd + 1, record m { curr_fd = m.curr_fd + 1 })

unfoldable pub free_fd : ℕ → FileDescriptorManager → FileDescriptorManager
unfolding find remove
free_fd fd m = elim (find (λ p. fd == m.number p) m.fds) [
  | none ↦ record m { errno = set_errno vfs_error m.errno }
  | some n ↦ record m { fds = remove 0 n m.fds }
]

abbrev pub registered : FileDescriptorManager → Option (ℕ × Slots ℕ) → Option FileDescriptorManager
registered m none = none
registered m (some r) = some (record m { fds = r.1 })

unfoldable pub register_fd : ℕ → ℕ → FileDescriptorManager → Option FileDescriptorManager
register_fd fuel p m = registered m (add 16 fuel p m.fds)

abbrev pub looked_up : FileDescriptorManager → Option ℕ → Option ℕ × FileDescriptorManager
looked_up m none = (none, record m { errno = set_errno vfs_error m.errno })
looked_up m (some n) = (some (m.fds.nodes n).value, m)

unfoldable pub get_fd : ℕ → FileDescriptorManager → Option ℕ × FileDescriptorManager
get_fd fd m = looked_up m (find (λ p. fd == m.number p) m.fds)
