-- ===== src/Vm/Tests.antt =====
-- A page table with one leaf that maps the first gigabyte, and copies through it.
use rvos.Common.{ℕ, ◌≢◌, arith}
use rvos.Memory.{Memory, load32, store32, load64, store64}
use rvos.Vm.{translate, translate_loop, px}

abbrev table : ℕ
table = 0x8000_1000

abbrev mapped : Memory
mapped = store64 (λ i. 7) table 0x2000_000f

abbrev bare : Memory
bare = λ i. 0

mapped_at : translate mapped table 64 ≢ 0
unfolding translate translate_loop load32 store32 load64 store64 px
mapped_at = ground arith

also_mapped_at : translate mapped table 128 ≢ 0
unfolding translate translate_loop load32 store32 load64 store64 px
also_mapped_at = ground arith
