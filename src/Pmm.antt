-- ===== src/Pmm.antt =====
-- src/pmm.c: the allocator of physical pages. A free page's first word is the address of the next.
pub mod FreeList
pub mod Boot
pub mod Tests
use rvos.Common.{
  ℕ, zero, suc, ◌+◌, ◌-◌, ◌*◌, ◌/◌, ◌%◌, ◌^◌, Bool, ◌||◌, not, ltb, leb, ◌==◌, ◌!=◌, if◌then◌else◌,
}
use rvos.Common.Words.{add64}
use rvos.Memory.{Memory, load64, store64, memset}

abbrev pub pgsize : ℕ
pgsize = 4096

abbrev pub ram_base : ℕ
ram_base = 0x8000_0000

abbrev pub pmm_top : ℕ
pmm_top = 0x8300_0000

abbrev pub pg_round_up : ℕ → ℕ
pg_round_up a = add64 a (pgsize - 1) / pgsize * pgsize

abbrev pub pg_round_down : ℕ → ℕ
pg_round_down a = a / pgsize * pgsize

-- The memory, and the static variables of pmm.c. The two counters are ints.
pub record Machine : Type 0 where
  pub mem : Memory
  pub freelist : ℕ
  pub nfree : ℕ
  pub ntotal : ℕ

pub pmm_free : Machine → ℕ → Machine
pmm_free s p =
    if (p % pgsize != 0) || ltb p ram_base || leb pmm_top p
    then s
    else record s { mem = store64 s.mem p s.freelist; freelist = p; nfree = (s.nfree + 1) % 2 ^ 32 }

-- The page, or 0.
pub pmm_alloc : Machine → ℕ × Machine
pmm_alloc s = if s.freelist == 0 then (0, s) else (
  s.freelist,
  record s {
    mem = memset s.mem s.freelist 0 pgsize;
    freelist = load64 s.mem s.freelist;
    nfree = (s.nfree + 2 ^ 32 - 1) % 2 ^ 32;
  },
)

-- The loop of pmm_init, by the rounds that may be left.
pub init_loop : ℕ → ℕ → Machine → Machine
init_loop zero p s = s
init_loop (suc rounds) p s =
    let freed = pmm_free s p in
    let rest =
      init_loop rounds (p + pgsize) (record freed { ntotal = (freed.ntotal + 1) % 2 ^ 32 }) in
    if leb (p + pgsize) pmm_top then rest else s

-- `image_end` is `_end`, which the linker defines.
pub pmm_init : ℕ → Machine → Machine
pmm_init image_end s = init_loop ((pmm_top - ram_base) / pgsize) (pg_round_up image_end) s
