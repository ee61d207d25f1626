-- ===== src/Namespaces.antt =====
-- src/vfs.c: which namespace a task sees, private copies, and the sweep of those nobody uses. A
-- namespace is known by its page, and 0 is null.
pub mod Sweep
pub mod Tests
use rvos.Common.{
  ℕ, zero, suc, ◌+◌, ◌<◌, Bool, true, false, ◌&&◌, ◌||◌, not, Option, none, some, List, [], ◌∷◌,
  ◌++◌, ltb, ◌==◌, ◌!=◌, if◌then◌else◌, update, length,
}
use rvos.Common.Words.{sext32}
use rvos.Text.{Str, utoa}
use rvos.Text.Literals.{bytes}
use rvos.Pmm.{pmm_alloc, pmm_free}
use rvos.Vfs.{Mount, Kind, server, bind}
use rvos.Kernel.{Kernel, Task, Tasks, ntask, is_unused}
use rvos.Task.{task_by_id}

-- VFS_NNS
abbrev pub nns : ℕ
nns = 24

pub ns_get : Kernel → ℕ → ℕ × Kernel
ns_get k i =
    let (page, machine) = pmm_alloc k.machine in
    if k.ns_pool i != 0
    then (k.ns_pool i, k)
    else if page == 0
    then (0, record k { machine = machine })
    else (
      page,
      record k {
        machine = machine;
        ns_pool = update k.ns_pool i page;
        ns_at = update k.ns_at page [];
      },
    )

pub cur_ns : Kernel → ℕ × Kernel
cur_ns k = elim k.current [
  | none ↦ ns_get k 0
  | some c ↦ if (k.tasks c).ns != 0 then ((k.tasks c).ns, k) else ns_get k 0
]

-- The search for an unused private namespace, by the numbers that are left.
pub clone_loop : ℕ → ℕ → ℕ → ℕ → Kernel → Bool × Kernel
clone_loop zero i cur mine k = (false, k)
clone_loop (suc left) i cur mine k =
    let rest = clone_loop left (i + 1) cur mine k in
    let (page, k') = ns_get k i in
    if k.ns_pool i != 0 then rest else if page == 0 then (false, k') else (
      true,
      record k' {
        ns_at = update k'.ns_at page (k'.ns_at mine);
        tasks = update k'.tasks cur (record (k'.tasks cur) { ns = page });
      },
    )

pub ns_clone : Kernel → Bool × Kernel
ns_clone k = elim k.current [
  | none ↦ (false, k)
  | some c ↦ let (mine, k') = cur_ns k in clone_loop 23 1 c mine k'
]

pub inuse_loop : ℕ → ℕ → (ℕ → ℕ) → ℕ
inuse_loop zero i pool = 0
inuse_loop (suc left) i pool = (if pool i != 0 then 1 else 0) + inuse_loop left (i + 1) pool

-- The root, and the private ones.
pub ns_inuse : (ℕ → ℕ) → ℕ
ns_inuse pool = 1 + inuse_loop 23 1 pool

-- Somebody sees this namespace: a task that lives or is under construction.
pub sees : ℕ → Task → Bool
sees page t = (not (is_unused t.state) || (t.pt != 0)) && (t.ns == page)

pub live : ℕ → ℕ → Tasks → ℕ → Bool
live zero i tasks page = false
live (suc left) i tasks page = sees page (tasks i) || live left (i + 1) tasks page

abbrev pub gc_one : ℕ → Kernel → Kernel
gc_one i k =
    if (k.ns_pool i == 0) || live ntask 0 k.tasks (k.ns_pool i)
    then k
    else record k { machine = pmm_free k.machine (k.ns_pool i); ns_pool = update k.ns_pool i 0 }

pub gc_loop : ℕ → ℕ → Kernel → Kernel
gc_loop zero i k = k
gc_loop (suc left) i k = gc_loop left (i + 1) (gc_one i k)

pub ns_gc : Kernel → Kernel
ns_gc k = gc_loop 23 1 k

abbrev newline : ℕ
newline = 10

pub entry_text : Mount → Str
entry_text m =
    m.prefix
    ++ (bytes " -> "
        ++ (elim m.kind [ bind ↦ m.target | server ↦ bytes "task " ++ utoa (sext32 m.answerer) ]
            ++ (newline ∷ [])))

-- The lines of the table, as long as there is room for one more of 32 bytes.
pub dump_loop : List Mount → Str → ℕ → Str
dump_loop [] out cap = out
dump_loop (m ∷ ms) out cap =
    let rest = dump_loop ms (out ++ entry_text m) cap in
    if ltb (length out + 32) cap then rest else out

pub pool_text : ℕ → Str
pool_text used =
    bytes "-- namespaces "
    ++ (utoa used ++ (bytes " of " ++ (utoa nns ++ (bytes " in use" ++ (newline ∷ [])))))

pub dump_of : List Mount → ℕ → ℕ → Str
dump_of mnt used cap =
    let out = dump_loop mnt [] cap in
    if ltb (length out + 40) cap then out ++ pool_text used else out

-- Whose namespace is shown: the task's own, or the root.
pub shown_ns : Kernel → ℕ → ℕ × Kernel
shown_ns k id = elim (task_by_id k.tasks id) [
  | none ↦ ns_get k 0
  | some i ↦ if (k.tasks i).ns != 0 then ((k.tasks i).ns, k) else ns_get k 0
]

pub dump_mounts_of : Kernel → ℕ → ℕ → Str × Kernel
dump_mounts_of k id cap =
    let (page, k') = shown_ns k id in
    if page == 0 then ([], k') else (dump_of (k'.ns_at page) (ns_inuse k'.ns_pool) cap, k')
