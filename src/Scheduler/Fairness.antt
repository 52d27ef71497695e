-- ===== src/Scheduler/Fairness.antt =====
-- Which task `schedule` of src/scheduling/scheduler/scheduler.cpp picks, and the core for a new one.
use fox_os_kernel.Prelude.{
  ℕ, zero, suc, ◌^◌, ◌<◌, ◌≡◌, refl, sym, ap, ◌∙◌, subst, inl, inr, Bool, true, false, not, ◌||◌,
  some, List, [], ◌∷◌, ◌++◌, append-nil, append_assoc, arith, if◌then◌else◌, Bool-cases, length,
  update_self,
}
use fox_os_kernel.TaskQueue.{TaskQueue, slice, contents}
use fox_os_kernel.TaskQueue
use fox_os_kernel.TaskQueue.Rotation.{
  rotate, rest, contents-next, contents-remove_first, len-next, len-remove_first,
}
use fox_os_kernel.Scheduler.{
  Task, Kernel, current, set_queue, rotate_queue, reap, find_runnable, free_kernel_pages,
}

-- A task that `schedule` lets run.
abbrev pub is_runnable : Task → Bool
is_runnable t = not (t.kill_me || t.lock)

-- The queue in the order in which `schedule` looks at it, once a first runnable task is known: the
-- dead ones before it are gone, the locked ones have moved behind.
abbrev pub passed : (ℕ → Task) → List ℕ → List ℕ
passed tasks [] = []
passed tasks (t ∷ ts) = if (tasks t).kill_me then passed tasks ts else t ∷ passed tasks ts

abbrev pub AllBlocked : (ℕ → Task) → List ℕ → Type 0
AllBlocked tasks [] = Unit {0}
AllBlocked tasks (t ∷ ts) = (is_runnable (tasks t) ≡ false) × AllBlocked tasks ts

same_queue : (k : Kernel) (id : ℕ) (q : TaskQueue) → (set_queue k id q).task_queue id ≡ q
same_queue k id q = update_self k.task_queue id q

queue-reap :
    (k : Kernel) (id : ℕ) → (reap k id).task_queue id ≡ TaskQueue.remove_first (k.task_queue id)
unfolding reap free_kernel_pages
queue-reap k id = elim (Bool-cases (k.tasks (current k id)).is_elf) [
  | inl e ↦ rw e (update_self k.task_queue id _)
  | inr e ↦ rw e (update_self k.task_queue id _)
]

tasks-reap : (k : Kernel) (id : ℕ) → (reap k id).tasks ≡ k.tasks
unfolding reap free_kernel_pages
tasks-reap k id = ground arith

pub slice_head : (m : ℕ → ℕ) (n t : ℕ) (ts : List ℕ) → slice m 0 n ≡ t ∷ ts → (m 0 ≡ t) × (0 < n)
slice_head m zero t ts e = cc
slice_head m (suc n) t ts e = (ground arith, omega arith)

contents_head :
    (q : TaskQueue) (t : ℕ) (ts : List ℕ) → contents q ≡ t ∷ ts → (q.list 0 ≡ t) × (0 < q.len)
contents_head q t ts e = slice_head q.list q.len t ts e

contents-reap :
    (k : Kernel) (id x : ℕ) (ts : List ℕ)
    → contents (k.task_queue id) ≡ x ∷ ts
    → (k.task_queue id).len < 2 ^ 64
    → contents ((reap k id).task_queue id) ≡ ts
contents-reap k id x ts e l =
    ap contents (queue-reap k id)
    ∙ contents-remove_first (k.task_queue id) (contents_head (k.task_queue id) x ts e).1 l
    ∙ ap rest e

pub contents-rotate_queue :
    (k : Kernel) (id x : ℕ) (ts : List ℕ)
    → contents (k.task_queue id) ≡ x ∷ ts
    → contents ((rotate_queue k id).task_queue id) ≡ ts ++ (x ∷ [])
contents-rotate_queue k id x ts e =
    ap contents (same_queue k id (TaskQueue.next (k.task_queue id)))
    ∙ contents-next (k.task_queue id)
    ∙ ap rotate e

len-reap : (k : Kernel) (id : ℕ) → ((reap k id).task_queue id).len < 2 ^ 64
len-reap k id = omega (arith, ap (λ q. q.len) (queue-reap k id), len-remove_first (k.task_queue id))

pub len-rotate_queue :
    (k : Kernel) (id : ℕ) → ((rotate_queue k id).task_queue id).len ≡ (k.task_queue id).len
len-rotate_queue k id =
    ap (λ q. q.len) (same_queue k id (TaskQueue.next (k.task_queue id)))
    ∙ len-next (k.task_queue id)

-- What the search finds: the kernel with `t` in front, the passed tasks behind `post`.
pub record Finds (fuel id : ℕ) (k : Kernel) (t : ℕ) (ts : List ℕ) (k' : Kernel) : Type 0 where
  pub ends : find_runnable fuel id k ≡ some k'
  pub queue : contents (k'.task_queue id) ≡ t ∷ ts
  pub tasks : k'.tasks ≡ k.tasks

-- A queue with a length of 64 bits that is `pre`, then a runnable task, then `post`, where no task
-- of `pre` is runnable: with more rounds than `pre` has tasks the search ends at that task; the
-- dead tasks of `pre` are out of the queue, its locked ones stand behind the others in their order,
-- and the tasks are what they were.
pub find_runnable_lem :
    (pre : List ℕ) (t : ℕ) (post : List ℕ) (fuel id : ℕ) (k : Kernel)
    → contents (k.task_queue id) ≡ pre ++ (t ∷ post)
    → (k.task_queue id).len < 2 ^ 64
    → AllBlocked k.tasks pre
    → is_runnable (k.tasks t) ≡ true
    → length pre < fuel
    → (k' : Kernel) × Finds fuel id k t (post ++ passed k.tasks pre) k'
unfolding find_runnable
find_runnable_lem pre t post zero id k e l b r f = elim f [ ]
find_runnable_lem [] t post (suc fuel) id k e l b r f =
    let h = (contents_head (k.task_queue id) t post e).0 in
    (
      k,
      record {
        ends = ground (arith, ap k.tasks h);
        queue = e ∙ ap (◌∷◌ t) (sym (append-nil post));
        tasks = refl;
      },
    )
find_runnable_lem (x ∷ pre) t post (suc fuel) id k e l b r f =
    let h = ap k.tasks (contents_head (k.task_queue id) x (pre ++ (t ∷ post)) e).0 in
    elim (Bool-cases (k.tasks x).kill_me) [
      | inl dead ↦
          let same = tasks-reap k id in
          let (k', ih) =
            find_runnable_lem pre t post fuel id (reap k id)
              (contents-reap k id x (pre ++ (t ∷ post)) e l) (len-reap k id)
              (subst (λ m. AllBlocked m pre) (sym same) b.1)
              (subst (λ m. is_runnable (m t) ≡ true) (sym same) r) (omega arith) in
          (
            k',
            record {
              ends = ground (arith, ap (λ (s : Task). s.kill_me) h, ih.ends);
              queue =
                  ih.queue
                  ∙ ap (λ m. t ∷ (post ++ passed m pre)) same
                  ∙ ap
                      (λ d.
                        t ∷ (post ++ (if d then passed k.tasks pre else x ∷ passed k.tasks pre)))
                      (sym dead);
              tasks = ih.tasks ∙ same;
            },
          )
      | inr alive ↦
          let queue =
            contents-rotate_queue k id x (pre ++ (t ∷ post)) e
            ∙ append_assoc pre (t ∷ post) (x ∷ []) in
          let (k', ih) =
            find_runnable_lem pre t (post ++ (x ∷ [])) fuel id (rotate_queue k id) queue
              (subst (λ n. n < 2 ^ 64) (sym (len-rotate_queue k id)) l) b.1 r (omega arith) in
          (
            k',
            record {
              ends =
                  ground
                    (arith, ap (λ (s : Task). s.kill_me) h, ap (λ (s : Task). s.lock) h, ih.ends);
              queue =
                  ih.queue
                  ∙ ap (◌∷◌ t) (append_assoc post (x ∷ []) (passed k.tasks pre))
                  ∙ ap
                      (λ d.
                        t ∷ (post ++ (if d then passed k.tasks pre else x ∷ passed k.tasks pre)))
                      (sym alive);
              tasks = ih.tasks;
            },
          )
    ]
