-- ===== src/Examples/Scheduling.antt =====
-- The scheduler, its queues and the slot list at concrete inputs.
use mathlib.Core.List.{Perm}
use fox_os_kernel.Prelude.{
  ℕ, zero, suc, ◌/◌, ◌<◌, ◌≡◌, refl, ◌≢◌, true, false, some, [], ◌∷◌, ◌++◌, arith, ◌==◌,
  if◌then◌else◌, update,
}
use fox_os_kernel.Paging.{Paging}
use fox_os_kernel.TaskQueue.{TaskQueue, contents}
use fox_os_kernel.Scheduler.Registers.{no_regs}
use fox_os_kernel.Scheduler.{Task, no_task, Kernel, schedule}
use fox_os_kernel.Scheduler.Fairness.{passed, Finds, find_runnable_lem}
use fox_os_kernel.Scheduler.Tick.{Stored, GoesOn, schedule_lem}
use fox_os_kernel.Slots.{Node, Slots, find, store, remove}
use fox_os_kernel.Slots
use fox_os_kernel.Slots.Entries.{entries, add-Perm, remove-Perm}
use fox_os_kernel.Descriptors.{FileDescriptorManager, register_fd, get_fd}
use fox_os_kernel.Descriptors.Table.{register_fd-get_fd}

-- The tasks 100, 200 and 300 in this order; the task 200 is locked.
abbrev queue : TaskQueue
queue = record { len = 3; list = λ i. if i == 0 then 100 else if i == 1 then 200 else 300 }

abbrev tasks : ℕ → Task
tasks t = if t == 200 then record no_task { lock = true } else no_task

abbrev machine : Paging
machine = record {
  allocator = record {
    page_bitmap = record { size = 2; buffer = λ _. 0 };
    free_memory = 65536;
    reserved_memory = 0;
    used_memory = 0;
    page_bitmap_index = 0;
  };
  tables = λ _ _. 0;
}

abbrev kernel : Kernel
kernel = record {
  heap = record {
    hdr = λ _. record { length = 0; next = 0; last = 0; free = false };
    bytes = λ _. 0;
    heap_start = 0;
    heap_end = 0;
    last_hdr = 0;
    pml4 = 4096;
    paging = machine;
  };
  tasks = tasks;
  task_queue = λ _. queue;
  scheduling = true;
  numcore = 2;
  presend = λ _. true;
  bspid = 0;
  no_smp_shed = false;
  errno_cells = λ _. 0;
}

queue_contents : contents queue ≡ 100 ∷ 200 ∷ 300 ∷ []
queue_contents = refl

schedule_example :
    (s : Task) × Stored no_regs (kernel.tasks 100) s
    × ((k' : Kernel) × (contents (k'.task_queue 0)
          ≡ 300 ∷ ((100 ∷ []) ++ passed kernel.tasks (200 ∷ [])))
        × GoesOn no_regs (update kernel.tasks 100 s) 300 k' (schedule 5 0 no_regs kernel))
schedule_example =
    schedule_lem 100 (200 ∷ 300 ∷ []) (200 ∷ []) 300 (100 ∷ []) 5 0 no_regs kernel refl
      queue_contents (omega arith) refl (refl, tt) refl (omega arith)

find_runnable_example :
    (k' : Kernel) × Finds 5 0 kernel 100 ((200 ∷ 300 ∷ []) ++ passed kernel.tasks []) k'
find_runnable_example =
    find_runnable_lem [] 100 (200 ∷ 300 ∷ []) 5 0 kernel queue_contents (omega arith) tt refl
      (omega arith)

-- Two nodes, of which the second is free, and a third one behind the allocation.
abbrev slots : Slots ℕ
slots = record {
  length = 2;
  capacity = 2;
  nodes = λ i.
      if i == 0 then record { value = 70; taken = true } else record { value = 0; taken = false };
}

add_example :
    (r : ℕ × Slots ℕ) × (Slots.add 16 1 80 slots ≡ some r) × Perm (entries r.1) (80 ∷ entries slots)
add_example = add-Perm 16 0 1 80 slots (omega arith) refl

remove_example : Perm (entries slots) (70 ∷ entries (remove 0 0 slots))
remove_example = remove-Perm 0 0 slots (omega arith) refl

abbrev descriptors : FileDescriptorManager
descriptors = record { fds = slots; curr_fd = 11; number = λ p. p / 10; errno = some 0 }

unused : (j : ℕ) → j < 2 → (slots.nodes j).taken ≡ true → 11 ≢ (slots.nodes j).value / 10
unused zero lt t e = omega arith
unused (suc j) lt t e = ground arith

register_fd_example :
    (m' : FileDescriptorManager) × (register_fd 1 110 descriptors ≡ some m')
    × (get_fd 11 m' ≡ (some 110, m'))
register_fd_example =
    register_fd-get_fd 0 11 110 1 descriptors (λ j lt t e. unused j lt t e) refl (omega arith) refl
