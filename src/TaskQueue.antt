-- ===== src/TaskQueue.antt =====
-- src/scheduling/scheduler/queue.cpp: the queue of one core, an array of 16 slots. The array is a
-- function, so that slot 16 and those above are what lies behind the array.
pub mod Rotation
use fox_os_kernel.Prelude.{ℕ, zero, suc, ◌+◌, ◌<◌, List, [], ◌∷◌, add64, sub64, update, for_range}

pub record TaskQueue : Type 0 where
  pub len : ℕ
  pub list : ℕ → ℕ

-- The constructor; the other slots hold what was there.
pub empty : (ℕ → ℕ) → TaskQueue
empty memory = record { len = 0; list = update memory 0 0 }

pub add : TaskQueue → ℕ → TaskQueue
add q num = record { len = add64 q.len 1; list = update q.list q.len num }

-- `for (int i = 0; i < len; i++) list[i] = list[i + 1]`
pub shift : ℕ → (ℕ → ℕ) → ℕ → ℕ
shift len = for_range len 0 (λ i m. update m i (m (i + 1)))

-- The first element goes behind the last, and all move down by one.
pub next : TaskQueue → TaskQueue
unfolding shift for_range
next q = record q { list = shift q.len (update q.list q.len (q.list 0)) }

pub remove_first : TaskQueue → TaskQueue
unfolding shift for_range
remove_first q = record { len = sub64 q.len 1; list = shift q.len (update q.list q.len (q.list 0)) }

-- The elements in order: the abstract queue.
abbrev pub slice : (ℕ → ℕ) → ℕ → ℕ → List ℕ
slice m i zero = []
slice m i (suc n) = m i ∷ slice m (i + 1) n

abbrev pub contents : TaskQueue → List ℕ
contents q = slice q.list 0 q.len
