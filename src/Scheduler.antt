-- ===== src/Scheduler.antt =====
-- src/scheduling/scheduler/scheduler.cpp, with errno.cpp and signal.cpp beside it: tasks, the queue of
-- each core, and the timer's `schedule`. A task is known by its address. The assembly that saves the
-- FPU state is left out; XSAVE support is compiled out, as in config.h.
pub mod Registers
pub mod Fairness
pub mod Dispatch
pub mod Tick
use fox_os_kernel.Prelude.{
  ℕ, zero, suc, ◌*◌, Bool, true, false, not, ◌&&◌, ◌||◌, Option, none, some, ltb, ◌==◌,
  if◌then◌else◌, add64, update, for_range,
}
use fox_os_kernel.PageFrames.{request_pages, free_pages}
use fox_os_kernel.Paging.{Paging}
use fox_os_kernel.Heap.{Heap}
use fox_os_kernel.Heap
use fox_os_kernel.TaskQueue.{TaskQueue}
use fox_os_kernel.TaskQueue
use Registers.{Regs, no_regs, copy_regs}

pub record Task : Type 0 where
  pub regs : Regs
  pub stack : ℕ
  pub first_sched : Bool
  pub kill_me : Bool
  pub lock : Bool
  pub is_elf : Bool
  pub offset : ℕ
  pub page_count : ℕ
  pub argv : ℕ
  pub envp : ℕ
  pub errno : ℕ
  pub signals : ℕ → ℕ

-- What `memset(t, 0, sizeof(task))` leaves.
abbrev pub no_task : Task
no_task = record {
  regs = no_regs;
  stack = 0;
  first_sched = false;
  kill_me = false;
  lock = false;
  is_elf = false;
  offset = 0;
  page_count = 0;
  argv = 0;
  envp = 0;
  errno = 0;
  signals = λ _. 0;
}

pub record Kernel : Type 0 where
  pub heap : Heap
  pub tasks : ℕ → Task
  pub task_queue : ℕ → TaskQueue
  pub scheduling : Bool
  pub numcore : ℕ
  pub presend : ℕ → Bool
  pub bspid : ℕ
  pub no_smp_shed : Bool
  -- the `int` cells that the tasks' `errno` pointers name
  pub errno_cells : ℕ → ℕ

abbrev pub task_stack_pages : ℕ
task_stack_pages = 64

-- `task_queue[id].list[0]`
abbrev pub current : Kernel → ℕ → ℕ
current k id = (k.task_queue id).list 0

abbrev pub set_queue : Kernel → ℕ → TaskQueue → Kernel
set_queue k id q = record k { task_queue = update k.task_queue id q }

abbrev pub set_task : Kernel → ℕ → Task → Kernel
set_task k t v = record k { tasks = update k.tasks t v }

-- `global_allocator.free_pages`, on the kernel's state
pub free_kernel_pages : Kernel → ℕ → ℕ → Kernel
free_kernel_pages k address n = record k {
  heap = record k.heap {
    paging = record k.heap.paging { allocator = free_pages k.heap.paging.allocator address n };
  };
}

-- The search in `new_task` for the present core with the shortest queue: `min` starts at 0xf0f0.
pub record Least : Type 0 where
  pub min : ℕ
  pub idx : ℕ

pub least_core : Kernel → Least
unfolding for_range
least_core k =
    for_range k.numcore 0
      (λ i s.
        if k.presend i && ltb (k.task_queue i).len s.min
        then record { min = (k.task_queue i).len; idx = i }
        else s)
      (record { min = 0xf0f0; idx = 0 })

pub pick_core : Kernel → ℕ
unfolding least_core
pick_core k = if k.no_smp_shed then k.bspid else (least_core k).idx

-- The fields that `new_task` writes.
pub fresh_task : ℕ → ℕ → ℕ → Task
fresh_task entry task_entry stack = record no_task {
  regs = record no_regs {
    rax = entry;
    rip = task_entry;
    rsp = add64 stack (task_stack_pages * 4096);
  };
  first_sched = true;
  stack = stack;
}

-- `fuel` and `rounds` are those of `malloc`; 3520 is `sizeof(task)` on x86-64, an argument here.
pub new_task : ℕ → ℕ → ℕ → ℕ → ℕ → Kernel → Option (ℕ × Kernel)
unfolding fresh_task pick_core
new_task fuel rounds task_size task_entry entry k =
    elim (Heap.malloc fuel rounds task_size k.heap) [
      | none ↦ none
      | some (t, heap) ↦
          let (stack, allocator) = request_pages heap.paging.allocator task_stack_pages in
          let k1 = record k {
            heap = record heap { paging = record heap.paging { allocator = allocator } };
            tasks = update k.tasks t (fresh_task entry task_entry stack);
          } in
          let core = pick_core k1 in
          some (t, set_queue k1 core (TaskQueue.add (k1.task_queue core) t))
    ]

-- `task_exit`, up to its endless loop
pub task_exit : Kernel → ℕ → Kernel
task_exit k id = set_task k (current k id) (record (k.tasks (current k id)) { kill_me = true })

-- The branch of `schedule` for a task that is marked dead.
pub reap : Kernel → ℕ → Kernel
unfolding free_kernel_pages
reap k id =
    let address = current k id in
    let t = k.tasks address in
    let k1 = if t.is_elf then free_kernel_pages k t.offset t.page_count else k in
    let k2 = free_kernel_pages k1 t.stack task_stack_pages in
    let k3 = record k2 { heap = Heap.free k2.heap address } in
    set_queue k3 id (TaskQueue.remove_first (k3.task_queue id))

abbrev pub rotate_queue : Kernel → ℕ → Kernel
rotate_queue k id = set_queue k id (TaskQueue.next (k.task_queue id))

-- From the label `next` on: dead tasks are reaped and locked ones passed over, `fuel` of them at most.
pub find_runnable : ℕ → ℕ → Kernel → Option Kernel
unfolding reap
find_runnable zero id k = none
find_runnable (suc fuel) id k =
    let t = k.tasks (current k id) in
    let rest = find_runnable fuel id (if t.kill_me then reap k id else rotate_queue k id) in
    if t.kill_me || t.lock then rest else some k

-- What the timer interrupt comes to: the registers that it returns with, a kernel panic over a stack
-- pointer outside the task's stack, or a search that has not ended.
pub data Outcome : Type 0 where
  resumed : Regs → Kernel → Outcome
  stack_panic : Kernel → Outcome
  searching : Outcome

pub dispatch : ℕ → Regs → Kernel → Outcome
dispatch id regs k =
    let address = current k id in
    let t = k.tasks address in
    if ltb t.regs.rsp t.stack || ltb (add64 t.stack (task_stack_pages * 0x1000)) t.regs.rsp
    then stack_panic k
    else resumed (copy_regs regs t.regs) (set_task k address (record t { first_sched = false }))

-- The registers of the interrupted task are stored, unless it has not run yet.
unfoldable pub save_current : ℕ → Regs → Kernel → Kernel
save_current id regs k =
    let address = current k id in
    let t = k.tasks address in
    if t.first_sched then k else set_task k address (record t { regs = copy_regs t.regs regs })

pub schedule : ℕ → ℕ → Regs → Kernel → Outcome
unfolding save_current find_runnable dispatch
schedule fuel id regs k =
    if (k.task_queue id).len == 0 || not k.scheduling
    then resumed regs k
    else elim (find_runnable fuel id (rotate_queue (save_current id regs k) id)) [
      | none ↦ searching
      | some k' ↦ dispatch id regs k'
    ]

-- src/scheduling/scheduler/errno.cpp
pub set_task_errno : ℕ → ℕ → Kernel → Kernel
set_task_errno id errno k =
    let t = k.tasks (current k id) in
    if t.errno == 0 then k else record k { errno_cells = update k.errno_cells t.errno errno }

-- src/scheduling/scheduler/signal.cpp: the handler that is called, or none.
pub handle_signal : ℕ → ℕ → Kernel → Option ℕ
handle_signal id signum k =
    let handler = (k.tasks (current k id)).signals signum in
    if not k.scheduling then none else if handler == 0 then none else some handler

pub register_signal_handler : ℕ → ℕ → ℕ → Kernel → Kernel
register_signal_handler id signum handler k =
    let t = k.tasks (current k id) in
    set_task k (current k id) (record t { signals = update t.signals signum handler })
