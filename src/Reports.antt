-- ===== src/Reports.antt =====
-- The calls of src/task.c that report: names resolved, tasks, mounts, memory and page tables; and
-- the text of a walk of src/vm.c. A report is written to kernel memory at `local` and copied to the
-- caller through the page table `kpt` of the kernel.
use Prim.Native.Nat.{bit_or}
use rvos.Common.{
  ℕ, List, zero, suc, ◌+◌, ◌/◌, ◌%◌, ◌^◌, Bool, false, ◌&&◌, ◌||◌, not, Option, none, some, [], ◌∷◌,
  ◌++◌, length, take, ltb, ◌==◌, ◌!=◌, if◌then◌else◌, update,
}
use rvos.Common.Words.{int_of, sext32, slt, minus_one}
use rvos.Text.{Str, utoa, xtoa}
use rvos.Text.Literals.{bytes}
use rvos.Memory.{Memory, load64, store32}
use rvos.Vm.{vm_copy_across, pte_valid, pte_is_leaf, pte2pa, page_size, px, slot}
use rvos.Vfs.{path_max}
use rvos.Vfs.Resolve.{resolve}
use rvos.Kernel.{
  Kernel, Tasks, TaskState, ntask, is_unused, is_blocked, unused, runnable, running, blocked,
}
use rvos.Ipc.{a0, a1, a2}
use rvos.Namespaces.{cur_ns, dump_mounts_of}
use rvos.Trap.{same_task}
use rvos.Syscalls.{string_in, answer}

abbrev newline : ℕ
newline = 10

pub put_hex : ℕ → Str
put_hex v = bytes "0x" ++ xtoa v

abbrev flag : ℕ → ℕ → ℕ → ℕ
flag pte bit letter = if pte / bit % 2 == 1 then letter else b'-'

pub put_perm : ℕ → Str
put_perm pte = flag pte 2 b'r' ∷ flag pte 4 b'w' ∷ flag pte 8 b'x' ∷ flag pte 16 b'u' ∷ []

abbrev size_text : ℕ → Str
size_text level =
    if level == 0
    then bytes " (4KiB)"
    else if level == 1
    then bytes " (2MiB superpage)"
    else bytes " (1GiB superpage)"

-- The line of one level, as far as all levels have it.
abbrev step_text : ℕ → ℕ → ℕ → Str
step_text level va pte =
    bytes "  L"
    ++ (utoa level ++ (bytes " idx " ++ (utoa (px level va) ++ (bytes " pte " ++ put_hex pte))))

-- By level + 1.
pub dump_levels : Memory → ℕ → ℕ → ℕ → Str
dump_levels m va zero pt = []
dump_levels m va (suc level) pt =
    let pte = load64 m (slot pt level va) in
    let below = dump_levels m va level (pte2pa pte) in
    let pa = bit_or (pte2pa pte) (va % page_size level) in
    step_text level va pte
    ++ (if not (pte_valid pte)
        then bytes "  invalid -> unmapped" ++ (newline ∷ [])
        else if pte_is_leaf pte
        then bytes "  leaf "
          ++ (put_perm pte ++ (bytes " pa " ++ (put_hex pa ++ (size_text level ++ (newline ∷ [])))))
        else bytes "  -> table " ++ (put_hex (pte2pa pte) ++ (newline ∷ below)))

pub vm_dump_walk_in : Memory → ℕ → ℕ → ℕ → Str
vm_dump_walk_in m pt va cap =
    if ltb cap 400 then [] else bytes "va " ++ (put_hex va ++ (newline ∷ dump_levels m va 3 pt))

pub poke : Memory → ℕ → Str → Memory
poke m at [] = m
poke m at (b ∷ bs) = poke (update m at b) (at + 1) bs

-- How much of a text goes to a buffer of `cap` bytes, as ints: no more than there is room for.
abbrev pub fitting : ℕ → Str → ℕ
fitting cap text = if slt cap (length text) then cap else length text

-- The text in kernel memory, and the part that fits in the caller's.
pub copy_out : ℕ → ℕ → Kernel → ℕ → ℕ → ℕ → Str → Kernel
copy_out kpt local k cur out cap text =
    let n = fitting cap text in
    let held = poke k.machine.mem local text in
    let sent = (vm_copy_across held (k.tasks cur).pt out kpt local n).1 in
    record k { machine = record (k.machine) { mem = if slt 0 n then sent else held } }

module _ (kpt local : ℕ) where
  -- The members of a union count from 0: a negative one is none.
  pub sys_resolve : List ℕ → Kernel → ℕ → Option Kernel
  sys_resolve stale k cur =
      let me = k.tasks cur in
      let path = string_in k cur (a0 me) path_max in
      let (page, k') = cur_ns k in
      elim (resolve (k'.ns_at page) path_max stale path (int_of (me.ctx.x 13))) [
        | none ↦ answer k' cur minus_one
        | some (srv, name) ↦
            let told = copy_out kpt local k' cur (a1 me) (int_of (a2 me)) (name ++ (0 ∷ [])) in
            answer (if ltb srv (2 ^ 31) && (a1 me != 0) then told else k') cur (sext32 srv)
      ]

  pub sys_mounts : Kernel → ℕ → Option Kernel
  sys_mounts k cur =
      let me = k.tasks cur in
      let tid = if slt (int_of (a0 me)) 0 then me.id else int_of (a0 me) in
      let (text, k') = dump_mounts_of k tid 512 in
      let cap = int_of (a2 me) in
      answer (copy_out kpt local k' cur (a1 me) cap text) cur (sext32 (fitting cap text))

  pub sys_meminfo : Kernel → ℕ → Option Kernel
  sys_meminfo k cur =
      let me = k.tasks cur in
      let s = k.machine in
      let held = store32 (store32 s.mem local s.nfree) (local + 4) s.ntotal in
      let sent = (vm_copy_across held me.pt (a0 me) kpt local 8).1 in
      answer (record k { machine = record s { mem = sent } }) cur 0

  -- The argument is the index of a slot here, and not an id.
  pub sys_pgdump : Kernel → ℕ → Option Kernel
  sys_pgdump k cur =
      let me = k.tasks cur in
      let tid = int_of (a0 me) in
      let pt = if ltb tid ntask && ((k.tasks tid).pt != 0) then (k.tasks tid).pt else kpt in
      let text = vm_dump_walk_in k.machine.mem pt (a1 me) 512 in
      let cap = int_of (me.ctx.x 13) in
      answer (copy_out kpt local k cur (a2 me) cap text) cur (sext32 (fitting cap text))

abbrev state_number : TaskState → ℕ
state_number unused = 0
state_number runnable = 1
state_number running = 2
state_number blocked = 3

-- Whether `t` stands in the queue that starts at `s`, and how long a queue is.
pub stands_in : ℕ → Tasks → Option ℕ → ℕ → Bool
stands_in zero tasks s t = false
stands_in (suc fuel) tasks none t = false
stands_in (suc fuel) tasks (some s) t = (s == t) || stands_in fuel tasks (tasks s).send_next t

pub count_senders : ℕ → Tasks → Option ℕ → ℕ
count_senders zero tasks s = 0
count_senders (suc fuel) tasks none = 0
count_senders (suc fuel) tasks (some s) = 1 + count_senders fuel tasks (tasks s).send_next

-- -1 as an int.
abbrev nobody : ℕ
nobody = 0xffff_ffff

-- Whose queue a sender stands in: the last slot that has it.
pub peer_loop : ℕ → ℕ → Tasks → ℕ → ℕ → ℕ
peer_loop zero i tasks t peer = peer
peer_loop (suc left) i tasks t peer =
    peer_loop left (i + 1) tasks t
      (if stands_in (suc ntask) tasks (tasks i).wait_sender t then (tasks i).id else peer)

-- IPC_NONE to IPC_ALARM, the task at the other end, and the length of a message held out.
pub waiting_for : Tasks → ℕ → ℕ × ℕ × ℕ
waiting_for tasks i =
    let t = tasks i in
    if not (is_blocked t.state)
    then (0, nobody, 0)
    else if t.waiting_recv
    then (if t.recv_closed then (2, t.recv_from, 0) else (1, nobody, 0))
    else if t.wait_for != 0
    then (4, t.wait_for, 0)
    else if t.alarm_at != 0
    then (5, nobody, 0)
    else (3, peer_loop ntask 0 tasks i nobody, t.send_len)

-- struct taskinfo: ints, and a name of 16 bytes after the first three.
pub taskinfo_at : Memory → ℕ → Kernel → ℕ → Memory
taskinfo_at m at k i =
    let t = k.tasks i in
    let (ipc, peer, msglen) = waiting_for k.tasks i in
    let first = store32 (store32 m at t.id) (at + 4) (state_number t.state) in
    let current = store32 first (at + 8) (if same_task (some i) k.current then 1 else 0) in
    let waits = store32 (store32 (store32 current (at + 28) ipc) (at + 32) peer) (at + 36) msglen in
    let counted = store32 waits (at + 40) (count_senders (suc ntask) k.tasks t.wait_sender) in
    poke counted (at + 12) (take 15 t.name ++ (0 ∷ []))

pub sys_taskinfo : ℕ → ℕ → Kernel → ℕ → Option Kernel
sys_taskinfo kpt local k cur =
    let me = k.tasks cur in
    let i = int_of (a0 me) in
    let held = taskinfo_at k.machine.mem local k i in
    let sent = (vm_copy_across held me.pt (a1 me) kpt local 44).1 in
    if not (ltb i ntask) || is_unused (k.tasks i).state
    then answer k cur minus_one
    else answer (record k { machine = record (k.machine) { mem = sent } }) cur 0
