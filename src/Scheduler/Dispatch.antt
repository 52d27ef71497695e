-- ===== src/Scheduler/Dispatch.antt =====
-- A whole timer tick of src/scheduling/scheduler/scheduler.cpp, and the core that a new task goes to.
use fox_os_kernel.Prelude.{
  ℕ, ◌^◌, ◌≤◌, ◌<◌, ◌≡◌, refl, sym, ap, ◌∙◌, subst, ◌⊎◌, true, ◌&&◌, List, [], ◌∷◌, ◌++◌, arith,
  ltb, if◌then◌else◌, length,
}
use fox_os_kernel.TaskQueue.{contents}
use fox_os_kernel.Scheduler.Registers.{Regs, copy_regs}
use fox_os_kernel.Scheduler.{Kernel, rotate_queue, schedule, save_current, dispatch, Least}
use fox_os_kernel.Scheduler.Fairness.{
  AllBlocked, is_runnable, passed, find_runnable_lem, contents-rotate_queue, len-rotate_queue,
  slice_head,
}

queue-save_current :
    (id : ℕ) (regs : Regs) (k : Kernel) → (save_current id regs k).task_queue ≡ k.task_queue
unfolding save_current
queue-save_current id regs k = ground arith

pub schedule-dispatch :
    (c : ℕ) (ts pre : List ℕ) (t : ℕ) (post : List ℕ) (fuel id : ℕ) (regs : Regs) (k : Kernel)
    → k.scheduling ≡ true
    → contents (k.task_queue id) ≡ c ∷ ts
    → (k.task_queue id).len < 2 ^ 64
    → ts ++ (c ∷ []) ≡ pre ++ (t ∷ post)
    → AllBlocked (save_current id regs k).tasks pre
    → is_runnable ((save_current id regs k).tasks t) ≡ true
    → length pre < fuel
    → (k' : Kernel) × (schedule fuel id regs k ≡ dispatch id regs k')
      × (contents (k'.task_queue id) ≡ t ∷ (post ++ passed (save_current id regs k).tasks pre))
      × (k'.tasks ≡ (save_current id regs k).tasks)
unfolding schedule
schedule-dispatch c ts pre t post fuel id regs k on e l split b r f =
    let s = save_current id regs k in
    let same = ap (λ q. q id) (queue-save_current id regs k) in
    let queue : contents (s.task_queue id) ≡ c ∷ ts = ap contents same ∙ e in
    let len : (s.task_queue id).len < 2 ^ 64 = subst (λ q. q.len < 2 ^ 64) (sym same) l in
    let (k', found) =
      find_runnable_lem pre t post fuel id (rotate_queue s id)
        (contents-rotate_queue s id c ts queue ∙ split)
        (subst (λ n. n < 2 ^ 64) (sym (len-rotate_queue s id)) len) b r f in
    (
      k',
      ground
          (arith, found.ends, (slice_head (k.task_queue id).list (k.task_queue id).len c ts e).1),
      found.queue,
      found.tasks,
    )

-- Registers that are stored and copied back are the same eighteen; the control registers are left.
pub copy_regs_back : (mine theirs : Regs) → copy_regs mine (copy_regs theirs mine) ≡ mine
unfolding copy_regs
copy_regs_back mine theirs = refl

abbrev pub IsLeast : Kernel → ℕ → Least → Type 0
IsLeast k n s =
    ((i : ℕ) → i < n → k.presend i ≡ true → s.min ≤ (k.task_queue i).len)
    × (((s.min ≡ 0xf0f0) × (s.idx ≡ 0))
        ⊎ (s.idx < n) × (k.presend s.idx ≡ true) × ((k.task_queue s.idx).len ≡ s.min))

least_step : Kernel → ℕ → Least → Least
least_step k i s =
    if k.presend i && ltb (k.task_queue i).len s.min
    then record { min = (k.task_queue i).len; idx = i }
    else s
