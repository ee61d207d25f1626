-- ===== src/Malloc.antt =====
-- src/malloc.h: the allocator of user programs. The header at the start of the heap is the record
-- `Mheap`; blocks, runs and the page map are in the memory, at the offsets of their structures.
pub mod Classes
pub mod Blocks
pub mod Huge
pub mod Runs
pub mod Calls
pub mod Tests
use rvos.Common.{ℕ, ◌+◌, ◌-◌, ◌/◌, ◌*◌, ◌%◌, ◌^◌, Bool, ◌||◌, leb, Option}
use rvos.Memory.{Memory, load64, store64}

abbrev pub malign : ℕ → ℕ
malign x = (x + 15) % 2 ^ 64 / 16 * 16

-- MHDR, MMIN and the rounded size of struct mheap.
abbrev pub mhdr : ℕ
mhdr = 16

abbrev pub mmin : ℕ
mmin = mhdr + 16

abbrev pub mheap_size : ℕ
mheap_size = 192

abbrev pub mrunhdr : ℕ
mrunhdr = 32

-- struct mheap, with the memory and the break that it manages. `made` is whether `magic` is there,
-- and `faulted` whether a store went to the break or behind it, where no page is mapped: a program
-- is killed at the first such store, and what is computed after it is of no account.
pub record Mheap : Type 0 where
  pub made : Bool
  pub free : ℕ
  pub top : ℕ
  pub runs : ℕ → ℕ
  pub dir : ℕ
  pub dirlen : ℕ
  pub run_pages : ℕ
  pub mem : Memory
  pub brk : ℕ
  pub faulted : Bool

-- A store, by its last byte and the memory that it makes.
abbrev pub stored : Mheap → ℕ → Memory → Mheap
stored h last m = record h { mem = m; faulted = h.faulted || leb h.brk last }

-- struct mblk
abbrev pub size_at : Mheap → ℕ → ℕ
size_at h b = load64 h.mem b

abbrev pub next_at : Mheap → ℕ → ℕ
next_at h b = load64 h.mem (b + 8)

abbrev pub set_size : Mheap → ℕ → ℕ → Mheap
set_size h b v = stored h (b + 7) (store64 h.mem b v)

abbrev pub set_next : Mheap → ℕ → ℕ → Mheap
set_next h b v = stored h (b + 15) (store64 h.mem (b + 8) v)

-- More blocks than the window of the heap has room for: the bound of the walks of a list.
abbrev pub walk_fuel : ℕ
walk_fuel = 2 ^ 24

-- SYS_SBRK, by the bits of its argument: the old break, or `none` for -1.
abbrev pub Sbrk : Type 0
Sbrk = ℕ → Mheap → Option ℕ × Mheap
