-- ===== src/Syscalls.antt =====
-- syscall_dispatch of src/task.c: what a task asks of the kernel. `cur` is the current task. The
-- bytes of a local of a handler stand in kernel memory, at the parameter `local`, and are copied
-- through the page table `kpt` of the kernel.
use rvos.Common.{
  ℕ, zero, suc, ◌+◌, ◌-◌, ◌*◌, Bool, ◌&&◌, ◌||◌, Option, none, some, List, [], ◌∷◌, ◌==◌, ◌!=◌,
  if◌then◌else◌, update,
}
use rvos.Common.Words.{int_of, sext32, slt, add64, minus_one}
use rvos.Text.{Str}
use rvos.Memory.{Memory, load64, store64}
use rvos.Pmm.{pgsize, pmm_alloc}
use rvos.Vm.{translate, vm_copy_across, vm_map_at}
use rvos.Vfs.{Mount, mount, bind_name, unmount, path_max}
use rvos.Kernel.{Kernel, Task, is_unused, runnable, blocked}
use rvos.Task.{alloc_slot, task_by_id, schedule}
use rvos.Ipc.{a0, a1, a2, put, set_a0}
use rvos.Namespaces.{cur_ns, ns_clone}
use rvos.Retire.{task_retire}
use rvos.Trap.{irq_register, irq_ack}
use rvos.Create.{user_rw_perm, ustack_top, spie, task_new_empty, Segment, vm_load_segment}

-- VFS_PREFIX_MAX, DMA_BASE
abbrev pub prefix_max : ℕ
prefix_max = 16

abbrev pub dma_base : ℕ
dma_base = 0x4000_0000

-- A result for the caller.
abbrev pub answer : Kernel → ℕ → ℕ → Option Kernel
answer k cur v = some (put k cur (set_a0 (k.tasks cur) v))

-- (uint64)(long) of 0 or -1.
abbrev pub status_of : Bool → ℕ
status_of ok = if ok then 0 else minus_one

-- A string of the caller, a byte at a time, by the bytes that still fit.
pub copy_string_in : ℕ → Memory → ℕ → ℕ → Str
copy_string_in zero m pt va = []
copy_string_in (suc left) m pt va =
    let pa = translate m pt va in
    let rest = copy_string_in left m pt (add64 va 1) in
    if (pa == 0) || (m pa == 0) then [] else m pa ∷ rest

abbrev pub string_in : Kernel → ℕ → ℕ → ℕ → Str
string_in k cur va cap = copy_string_in (cap - 1) k.machine.mem (k.tasks cur).pt va

-- The table of the current task, and what an operation leaves of it.
abbrev pub on_table : Kernel → ℕ → (List Mount → Option (List Mount)) → Option Kernel
on_table k cur change =
    let (page, k') = cur_ns k in
    elim (change (k'.ns_at page)) [
      | none ↦ answer k' cur minus_one
      | some mnt ↦ answer (record k' { ns_at = update k'.ns_at page mnt }) cur 0
    ]

pub sys_mount : Kernel → ℕ → Option Kernel
sys_mount k cur =
    let me = k.tasks cur in
    on_table k cur
      (λ mnt. mount mnt (string_in k cur (a0 me) prefix_max) (int_of (a1 me)) (int_of (a2 me)))

pub sys_bind : Kernel → ℕ → Option Kernel
sys_bind k cur =
    let me = k.tasks cur in
    on_table k cur (λ mnt.
      bind_name mnt (string_in k cur (a0 me) path_max) (string_in k cur (a1 me) prefix_max)
        (int_of (a2 me)))

pub sys_unmount : Kernel → ℕ → Option Kernel
sys_unmount k cur =
    let name = string_in k cur (a0 (k.tasks cur)) prefix_max in
    let (page, k') = cur_ns k in
    let (mnt, found) = unmount (k'.ns_at page) name in
    answer (record k' { ns_at = update k'.ns_at page mnt }) cur (status_of found)

pub sys_nsclone : Kernel → ℕ → Option Kernel
sys_nsclone k cur = let (ok, k') = ns_clone k in answer k' cur (status_of ok)

pub sys_wait : Kernel → ℕ → Option Kernel
sys_wait k cur =
    let me = k.tasks cur in
    elim (task_by_id k.tasks (int_of (a0 me))) [
      | none ↦ answer k cur 0
      | some _ ↦ schedule (put k cur (record me { wait_for = int_of (a0 me); state = blocked }))
    ]

pub sys_alive : Kernel → ℕ → Option Kernel
sys_alive k cur = elim (task_by_id k.tasks (int_of (a0 (k.tasks cur)))) [
  | none ↦ answer k cur 0
  | some _ ↦ answer k cur 1
]

-- The clock runs at 10000 ticks a millisecond.
pub sys_alarm : ℕ → Kernel → ℕ → Option Kernel
sys_alarm now k cur =
    let me = k.tasks cur in
    let ms = int_of (a0 me) in
    let at = if slt 0 ms then add64 now (ms * 10000) else 0 in
    some (put k cur (set_a0 (record me { alarm_at = at }) 0))

-- The bytes of two words at an address.
abbrev pub two_words : Memory → ℕ → ℕ → ℕ → Memory
two_words m at a b = store64 (store64 m at a) (at + 8) b

pub sys_dma_alloc : ℕ → ℕ → Kernel → ℕ → Option Kernel
sys_dma_alloc kpt local k cur =
    let (page, s) = pmm_alloc k.machine in
    let me = k.tasks cur in
    let va = if me.dma_next == 0 then dma_base else me.dma_next in
    let mapped = (vm_map_at s me.pt va page pgsize user_rw_perm 0).1 in
    let mem = (vm_copy_across (two_words mapped.mem local va page) me.pt (a0 me) kpt local 16).1 in
    let k' = record k { machine = record mapped { mem = mem } } in
    if page == 0
    then answer (record k { machine = s }) cur minus_one
    else some (put k' cur (set_a0 (record me { dma_next = add64 va pgsize }) 0))

pub sys_irq_reg : Kernel → ℕ → Option Kernel
sys_irq_reg k cur =
    let (ok, k') = irq_register k (int_of (a0 (k.tasks cur))) cur in answer k' cur (status_of ok)

pub sys_irq_ack : Kernel → ℕ → Option Kernel
sys_irq_ack k cur = answer k cur (status_of (irq_ack k (int_of (a0 (k.tasks cur)))))

pub sys_exit : Kernel → ℕ → Option Kernel
sys_exit k cur = schedule (task_retire k cur)

-- The slot that alloc_slot found is cleared even where the call then fails.
pub sys_thread : Kernel → ℕ → Option Kernel
sys_thread k cur =
    let me = k.tasks cur in
    elim (alloc_slot k.tasks) [
      | none ↦ answer k cur minus_one
      | some (i, tasks) ↦
          let t = tasks i in
          let ctx = record (t.ctx) {
            x = update (update t.ctx.x 2 (a1 me)) 10 (a2 me);
            epc = a0 me;
            status = spie;
            satp = me.ctx.satp;
          } in
          let thread = record t {
            ctx = ctx;
            pt = me.pt;
            ns = me.ns;
            brk = me.brk;
            name = me.name;
            state = runnable;
          } in
          if (a0 me == 0) || (a1 me == 0)
          then answer (record k { tasks = tasks }) cur minus_one
          else answer (record k { tasks = update tasks i thread }) cur (sext32 thread.id)
    ]

pub sys_self : Kernel → ℕ → Option Kernel
sys_self k cur = answer k cur (sext32 (k.tasks cur).id)

pub sys_kill : Kernel → ℕ → Option Kernel
sys_kill k cur = elim (task_by_id k.tasks (int_of (a0 (k.tasks cur)))) [
  | none ↦ answer k cur minus_one
  | some t ↦
      if (t == cur) || (t == 0) then answer k cur minus_one else answer (task_retire k t) cur 0
]

pub sys_newtask : ℕ → Kernel → ℕ → Option Kernel
sys_newtask image_end k cur =
    let (t, k') = task_new_empty image_end k (string_in k cur (a0 (k.tasks cur)) 16) in
    elim t [ none ↦ answer k' cur minus_one | some i ↦ answer k' cur (sext32 (k'.tasks i).id) ]

-- A task that is being built: not the first, not started, and with an address space.
abbrev pub under_construction : Kernel → ℕ → Bool
under_construction k t = (t != 0) && is_unused (k.tasks t).state && ((k.tasks t).pt != 0)

abbrev pub built_task : Kernel → ℕ → Option ℕ
built_task k id = elim (task_by_id k.tasks id) [
  | none ↦ none
  | some t ↦ if under_construction k t then some t else none
]

-- struct vmload, from five words.
pub segment_at : Memory → ℕ → Segment
segment_at m at = record {
  va = load64 m at;
  src = load64 m (at + 8);
  filesz = load64 m (at + 16);
  memsz = load64 m (at + 24);
  perm = load64 m (at + 32);
}

pub sys_vmload : ℕ → ℕ → Kernel → ℕ → Option Kernel
sys_vmload kpt local k cur =
    let me = k.tasks cur in
    elim (built_task k (int_of (a0 me))) [
      | none ↦ answer k cur minus_one
      | some t ↦
          let mem = (vm_copy_across k.machine.mem kpt local me.pt (a1 me) 40).1 in
          let (ok, s) =
            vm_load_segment (record (k.machine) { mem = mem }) (k.tasks t).pt me.pt
              (segment_at mem local) in
          answer (record k { machine = s }) cur (status_of ok)
    ]

-- struct startinfo is four words: the entry, the stack (0 for the usual one), and two arguments.
pub started : Memory → ℕ → Task → Task
started m at t =
    let sp = load64 m (at + 8) in
    let x =
      update
        (update (update t.ctx.x 2 (if sp != 0 then sp else ustack_top)) 10 (load64 m (at + 16))) 11
        (load64 m (at + 24)) in
    record t { ctx = record (t.ctx) { x = x; epc = load64 m at; status = spie }; state = runnable }

pub sys_start : ℕ → ℕ → Kernel → ℕ → Option Kernel
sys_start kpt local k cur =
    let me = k.tasks cur in
    elim (built_task k (int_of (a0 me))) [
      | none ↦ answer k cur minus_one
      | some t ↦
          let mem = (vm_copy_across k.machine.mem kpt local me.pt (a1 me) 32).1 in
          let k' = record k { machine = record (k.machine) { mem = mem } } in
          answer (put k' t (started mem local (k'.tasks t))) cur 0
    ]
