-- ===== src/Kernel.antt =====
-- The state of the kernel: `struct task` and the tables of src/task.h, src/task.c, src/trap.c and
-- src/vfs.c. A pointer into tasks[] is the slot's index; a namespace pointer is the address of its
-- page, and 0 is null. An int is its 32-bit pattern.
use rvos.Common.{ℕ, Bool, true, false, Option, none, List, update}
use rvos.Text.{Str}
use rvos.Pmm.{Machine}
use rvos.Vfs.{Mount}

abbrev pub ntask : ℕ
ntask = 24

-- T_UNUSED, T_RUNNABLE, T_RUNNING, T_BLOCKED
pub data TaskState : Type 0 where
  unused runnable running blocked : TaskState

-- `struct context`: the registers x[0] to x[31], and where and how to resume.
pub record Context : Type 0 where
  pub x : ℕ → ℕ
  pub epc : ℕ
  pub status : ℕ
  pub satp : ℕ

pub record Task : Type 0 where
  pub ctx : Context
  pub pt : ℕ
  pub state : TaskState
  pub id : ℕ
  pub gen : ℕ
  pub name : Str
  pub ns : ℕ
  pub send_va : ℕ
  pub send_len : ℕ
  pub recv_va : ℕ
  pub recv_len : ℕ
  pub waiting_recv : Bool
  pub recv_closed : Bool
  pub recv_from : ℕ
  pub irq_pending : Bool
  pub dma_next : ℕ
  pub brk : ℕ
  pub alarm_at : ℕ
  pub timer_pending : Bool
  pub wait_for : ℕ
  pub wait_sender : Option ℕ
  pub send_next : Option ℕ

-- What memset leaves of a slot.
abbrev pub zero_task : Task
zero_task = record {
  ctx = record { x = λ i. 0; epc = 0; status = 0; satp = 0 };
  pt = 0;
  state = unused;
  id = 0;
  gen = 0;
  name = List.[];
  ns = 0;
  send_va = 0;
  send_len = 0;
  recv_va = 0;
  recv_len = 0;
  waiting_recv = false;
  recv_closed = false;
  recv_from = 0;
  irq_pending = false;
  dma_next = 0;
  brk = 0;
  alarm_at = 0;
  timer_pending = false;
  wait_for = 0;
  wait_sender = none;
  send_next = none;
}

-- `ns_at` is what a namespace page holds.
pub record Kernel : Type 0 where
  pub machine : Machine
  pub tasks : ℕ → Task
  pub current : Option ℕ
  pub irq_owner : ℕ → Option ℕ
  pub ns_pool : ℕ → ℕ
  pub ns_at : ℕ → List Mount

-- The static variables before anything has run.
abbrev pub boot_kernel : Kernel
boot_kernel = record {
  machine = record { mem = λ i. 0; freelist = 0; nfree = 0; ntotal = 0 };
  tasks = λ i. zero_task;
  current = none;
  irq_owner = λ i. none;
  ns_pool = λ i. 0;
  ns_at = λ i. List.[];
}

abbrev pub Tasks : Type 0
Tasks = ℕ → Task

abbrev pub set_reg : Task → ℕ → ℕ → Task
set_reg t r v = record t { ctx = record (t.ctx) { x = update t.ctx.x r v } }

abbrev pub is_unused : TaskState → Bool
is_unused unused = true
is_unused _ = false

abbrev pub is_runnable : TaskState → Bool
is_runnable runnable = true
is_runnable _ = false

abbrev pub is_running : TaskState → Bool
is_running running = true
is_running _ = false

abbrev pub is_blocked : TaskState → Bool
is_blocked blocked = true
is_blocked _ = false
