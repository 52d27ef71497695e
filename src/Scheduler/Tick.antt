-- ===== src/Scheduler/Tick.antt =====
-- A whole timer tick of src/scheduling/scheduler/scheduler.cpp, with the registers that it stores and those
-- that it returns with.
use mathlib.Core.Path.{fun_ext}
use fox_os_kernel.Prelude.{
  ℕ, ◌*◌, ◌^◌, ◌≤◌, ◌<◌, ◌≡◌, refl, sym, ap, ap₂, ◌∙◌, subst, ◌⊎◌, inl, inr, Bool, true, false, not,
  ◌||◌, List, [], ◌∷◌, ◌++◌, arith, ℕ_discrete, ltb, if◌then◌else◌, Bool-cases, length, add64,
  update, update_self, update_ne,
}
use fox_os_kernel.TaskQueue.{contents}
use fox_os_kernel.Scheduler.Registers.{Regs, copy_regs}
use fox_os_kernel.Scheduler.{
  Task, Kernel, Outcome, resumed, stack_panic, schedule, save_current, dispatch, current, set_task,
}
use fox_os_kernel.Scheduler.Fairness.{AllBlocked, is_runnable, passed, slice_head}
use fox_os_kernel.Scheduler.Dispatch.{schedule-dispatch}

-- `result` has the eighteen registers of `theirs` that the scheduler copies, and the others of `mine`.
pub record Takes (mine theirs result : Regs) : Type 0 where
  pub rax : result.rax ≡ theirs.rax
  pub rbx : result.rbx ≡ theirs.rbx
  pub rcx : result.rcx ≡ theirs.rcx
  pub rdx : result.rdx ≡ theirs.rdx
  pub r8 : result.r8 ≡ theirs.r8
  pub r9 : result.r9 ≡ theirs.r9
  pub r10 : result.r10 ≡ theirs.r10
  pub r11 : result.r11 ≡ theirs.r11
  pub r12 : result.r12 ≡ theirs.r12
  pub r13 : result.r13 ≡ theirs.r13
  pub r14 : result.r14 ≡ theirs.r14
  pub r15 : result.r15 ≡ theirs.r15
  pub rip : result.rip ≡ theirs.rip
  pub rsp : result.rsp ≡ theirs.rsp
  pub rbp : result.rbp ≡ theirs.rbp
  pub rsi : result.rsi ≡ theirs.rsi
  pub rdi : result.rdi ≡ theirs.rdi
  pub rflags : result.rflags ≡ theirs.rflags
  pub cr0 : result.cr0 ≡ mine.cr0
  pub cr2 : result.cr2 ≡ mine.cr2
  pub cr3 : result.cr3 ≡ mine.cr3
  pub cr4 : result.cr4 ≡ mine.cr4
  pub cs : result.cs ≡ mine.cs
  pub interrupt_number : result.interrupt_number ≡ mine.interrupt_number
  pub error_code : result.error_code ≡ mine.error_code

copy_regs-Takes : (mine theirs : Regs) → Takes mine theirs (copy_regs mine theirs)
unfolding copy_regs
copy_regs-Takes mine theirs = record {
  rax = refl;
  rbx = refl;
  rcx = refl;
  rdx = refl;
  r8 = refl;
  r9 = refl;
  r10 = refl;
  r11 = refl;
  r12 = refl;
  r13 = refl;
  r14 = refl;
  r15 = refl;
  rip = refl;
  rsp = refl;
  rbp = refl;
  rsi = refl;
  rdi = refl;
  rflags = refl;
  cr0 = refl;
  cr2 = refl;
  cr3 = refl;
  cr4 = refl;
  cs = refl;
  interrupt_number = refl;
  error_code = refl;
}

-- The interrupted task `t` afterwards: one that has not run yet is as it was, any other has taken the
-- registers of the interrupt, and no other field is new.
abbrev pub Stored : Regs → Task → Task → Type 0
Stored regs t s =
    ((t.first_sched ≡ true) × (s ≡ t))
    ⊎ ((t.first_sched ≡ false) × Takes t.regs regs s.regs × (s ≡ record t { regs = s.regs }))

-- The stack pointer is in the 64 pages of the task's stack, or at their end.
abbrev pub InStack : Task → Type 0
InStack t = (t.stack ≤ t.regs.rsp) × (t.regs.rsp ≤ add64 t.stack (64 * 4096))

saved : Regs → Task → Task
saved regs t = if t.first_sched then t else record t { regs = copy_regs t.regs regs }

saved-Stored : (regs : Regs) (t : Task) → Stored regs t (saved regs t)
unfolding saved
saved-Stored regs t = elim (Bool-cases t.first_sched) [
  | inl e ↦ inl (e, ap (λ b. if b then t else record t { regs = copy_regs t.regs regs }) e)
  | inr e ↦
      let now = ap (λ b. if b then t else record t { regs = copy_regs t.regs regs }) e in
      inr (
        e,
        subst (λ (s : Task). Takes t.regs regs s.regs) (sym now) (copy_regs-Takes t.regs regs),
        now ∙ ap (λ (s : Task). record t { regs = s.regs }) (sym now),
      )
]

update_same : (m : ℕ → Task) (c : ℕ) → update m c (m c) ≡ m
update_same m c = fun_ext λ x. elim (ℕ_discrete c x) [
  | yes e ↦ ap (update m c (m c)) (sym e) ∙ update_self m c (m c) ∙ ap m e
  | no ne ↦ update_ne m c x (m c) ne
]

tasks-stored :
    (b : Bool) (k : Kernel) (c : ℕ) (q : Task)
    → (if b then k else set_task k c q).tasks ≡ update k.tasks c (if b then k.tasks c else q)
tasks-stored true k c q = sym (update_same k.tasks c)
tasks-stored false k c q = refl

tasks-save_current :
    (id c : ℕ) (regs : Regs) (k : Kernel)
    → current k id ≡ c
    → (save_current id regs k).tasks ≡ update k.tasks c (saved regs (k.tasks c))
unfolding save_current saved
tasks-save_current id c regs k at =
    let q : ℕ → Task = λ x. record (k.tasks x) { regs = copy_regs (k.tasks x).regs regs } in
    ap (λ x. (if (k.tasks x).first_sched then k else set_task k x (q x)).tasks) at
    ∙ tasks-stored (k.tasks c).first_sched k c (q c)

module _ (regs : Regs) (tasks : ℕ → Task) (c : ℕ) where
  after : ℕ → Task
  unfolding saved
  after = update tasks c (saved regs (tasks c))

  kill_me-after : (x : ℕ) → (after x).kill_me ≡ (tasks x).kill_me
  unfolding after
  kill_me-after x = ground (arith, ap tasks {x = c} {y = x})

  lock-after : (x : ℕ) → (after x).lock ≡ (tasks x).lock
  unfolding after
  lock-after x = ground (arith, ap tasks {x = c} {y = x})

  is_runnable-after : (x : ℕ) → is_runnable (after x) ≡ is_runnable (tasks x)
  is_runnable-after x = ap₂ (λ a b. not (a || b)) (kill_me-after x) (lock-after x)

  AllBlocked-after : (pre : List ℕ) → AllBlocked tasks pre → AllBlocked after pre
  AllBlocked-after [] all = tt
  AllBlocked-after (x ∷ pre) (b, all) = (is_runnable-after x ∙ b, AllBlocked-after pre all)

  passed-after : (pre : List ℕ) → passed after pre ≡ passed tasks pre
  passed-after [] = refl
  passed-after (x ∷ pre) = ap₂ (λ b l. if b then l else x ∷ l) (kill_me-after x) (passed-after pre)

-- What a tick comes to where `after` are the tasks with the interrupted one stored, and `t` is the one
-- to go on with.
abbrev pub GoesOn : Regs → (ℕ → Task) → ℕ → Kernel → Outcome → Type 0
GoesOn regs after t k' o =
    (InStack (after t)
      × ((r : Regs) × (o ≡ resumed r k') × Takes regs (after t).regs r)
      × (k'.tasks ≡ update after t (record (after t) { first_sched = false })))
    ⊎ ((¬ InStack (after t)) × (o ≡ stack_panic k') × (k'.tasks ≡ after))

is_out : Task → Bool
is_out t = ltb t.regs.rsp t.stack || ltb (add64 t.stack (64 * 4096)) t.regs.rsp

is_out_lem : (t : Task) → ((is_out t ≡ true) × (¬ InStack t)) ⊎ ((is_out t ≡ false) × InStack t)
unfolding is_out
is_out_lem t = elim (Bool-cases (ltb t.regs.rsp t.stack)) [
  | inl e ↦ inl (ground arith, λ h. ground arith)
  | inr e ↦ elim (Bool-cases (ltb (add64 t.stack (64 * 4096)) t.regs.rsp)) [
    | inl f ↦ inl (ground arith, λ h. ground arith)
    | inr f ↦ inr (ground arith, (ground arith, ground arith))
  ]
]

dispatch-GoesOn :
    (regs : Regs) (t id : ℕ) (k : Kernel)
    → current k id ≡ t
    → (k' : Kernel) × (k'.task_queue ≡ k.task_queue) × GoesOn regs k.tasks t k' (dispatch id regs k)
unfolding dispatch is_out
dispatch-GoesOn regs t id k at =
    let next : ℕ → Kernel = λ x. set_task k x (record (k.tasks x) { first_sched = false }) in
    let branch : Bool → ℕ → Outcome =
      λ b x. if b then stack_panic k else resumed (copy_regs regs (k.tasks x).regs) (next x) in
    let run : dispatch id regs k ≡ branch (is_out (k.tasks t)) t =
      ap (λ x. branch (is_out (k.tasks x)) x) at in
    elim (is_out_lem (k.tasks t)) [
      | inl (e, not_in) ↦ (k, refl, inr (not_in, run ∙ ap (λ b. branch b t) e, refl))
      | inr (e, is_in) ↦ (
        next t,
        refl,
        inl (
          is_in,
          (
            copy_regs regs (k.tasks t).regs,
            run ∙ ap (λ b. branch b t) e,
            copy_regs-Takes regs (k.tasks t).regs,
          ),
          refl,
        ),
      )
    ]

-- While scheduling is on, for a core whose queue is `c` and then `ts`, with a length of 64 bits: when `pre` are
-- the blocked tasks in front of the first runnable task `t` of the rotated queue, and the search has a
-- round for each of them and one more, a tick stores the registers of the interrupt in `c`, unless `c`
-- has not run yet, and leaves in the queue `t` in front, then the tasks behind it, then the locked ones
-- of `pre`. Where the stack pointer of `t` is in its stack, the tick returns with the eighteen registers
-- of `t`, the others being those of the interrupt, and `t` no longer counts as one that has not run;
-- where it is not, the tick ends in a panic. No other field of a task changes.
pub schedule_lem :
    (c : ℕ) (ts pre : List ℕ) (t : ℕ) (post : List ℕ) (fuel id : ℕ) (regs : Regs) (k : Kernel)
    → k.scheduling ≡ true
    → contents (k.task_queue id) ≡ c ∷ ts
    → (k.task_queue id).len < 2 ^ 64
    → ts ++ (c ∷ []) ≡ pre ++ (t ∷ post)
    → AllBlocked k.tasks pre
    → is_runnable (k.tasks t) ≡ true
    → length pre < fuel
    → (s : Task) × Stored regs (k.tasks c) s
      × ((k' : Kernel) × (contents (k'.task_queue id) ≡ t ∷ (post ++ passed k.tasks pre))
          × GoesOn regs (update k.tasks c s) t k' (schedule fuel id regs k))
unfolding after
schedule_lem c ts pre t post fuel id regs k on queue len split blocked runs enough =
    let at = (slice_head (k.task_queue id).list (k.task_queue id).len c ts queue).0 in
    let tasks = tasks-save_current id c regs k at in
    let found =
      schedule-dispatch c ts pre t post fuel id regs k on queue len split
        (subst (λ m. AllBlocked m pre) (sym tasks) (AllBlocked-after regs k.tasks c pre blocked))
        (ap (λ m. is_runnable (m t)) tasks ∙ is_runnable-after regs k.tasks c t ∙ runs) enough in
    let k1 = found.0 in
    let front = slice_head (k1.task_queue id).list (k1.task_queue id).len t _ found.2 in
    let goes = dispatch-GoesOn regs t id k1 front.0 in
    (
      saved regs (k.tasks c),
      saved-Stored regs (k.tasks c),
      (
        goes.0,
        ap (λ q. contents (q id)) goes.1
            ∙ found.2
            ∙ ap (λ m. t ∷ (post ++ passed m pre)) tasks
            ∙ ap (λ l. t ∷ (post ++ l)) (passed-after regs k.tasks c pre),
        subst (GoesOn regs (after regs k.tasks c) t goes.0) (sym found.1)
            (subst (λ m. GoesOn regs m t goes.0 (dispatch id regs k1)) (found.3 ∙ tasks) goes.2),
      ),
    )
