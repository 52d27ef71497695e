-- ===== src/Scheduler/Registers.antt =====
-- `s_registers` of include/interrupts/interrupts.h and its copies in
-- src/scheduling/scheduler/scheduler.cpp.
use fox_os_kernel.Prelude.{ℕ}

pub record Regs : Type 0 where
  pub cr4 : ℕ
  pub cr3 : ℕ
  pub cr2 : ℕ
  pub cr0 : ℕ
  pub r15 : ℕ
  pub r14 : ℕ
  pub r13 : ℕ
  pub r12 : ℕ
  pub r11 : ℕ
  pub r10 : ℕ
  pub r9 : ℕ
  pub r8 : ℕ
  pub rdi : ℕ
  pub rsi : ℕ
  pub rbp : ℕ
  pub rbx : ℕ
  pub rdx : ℕ
  pub rcx : ℕ
  pub rax : ℕ
  pub interrupt_number : ℕ
  pub error_code : ℕ
  pub rip : ℕ
  pub cs : ℕ
  pub rflags : ℕ
  pub rsp : ℕ

abbrev pub no_regs : Regs
no_regs = record {
  cr4 = 0;
  cr3 = 0;
  cr2 = 0;
  cr0 = 0;
  r15 = 0;
  r14 = 0;
  r13 = 0;
  r12 = 0;
  r11 = 0;
  r10 = 0;
  r9 = 0;
  r8 = 0;
  rdi = 0;
  rsi = 0;
  rbp = 0;
  rbx = 0;
  rdx = 0;
  rcx = 0;
  rax = 0;
  interrupt_number = 0;
  error_code = 0;
  rip = 0;
  cs = 0;
  rflags = 0;
  rsp = 0;
}

-- The eighteen assignments `dest->r = src->r` that `schedule` makes, once in each direction.
unfoldable pub copy_regs : Regs → Regs → Regs
copy_regs dest src = record dest {
  rax = src.rax;
  rbx = src.rbx;
  rcx = src.rcx;
  rdx = src.rdx;
  r8 = src.r8;
  r9 = src.r9;
  r10 = src.r10;
  r11 = src.r11;
  r12 = src.r12;
  r13 = src.r13;
  r14 = src.r14;
  r15 = src.r15;
  rip = src.rip;
  rsp = src.rsp;
  rbp = src.rbp;
  rsi = src.rsi;
  rdi = src.rdi;
  rflags = src.rflags;
}
