-- ===== src/Malloc/Tests.antt =====
-- A heap whose list is empty, over a kernel that moves the break as it is asked to.
use rvos.Common.{ℕ, ◌+◌, ◌-◌, ◌^◌, ◌≡◌, refl, true, false, some, arith}
use rvos.Common.Words.{add64}
use rvos.Pmm.{pgsize}
use rvos.Create.{uheap_base}
use rvos.Malloc.{Mheap, Sbrk}
use rvos.Malloc.Blocks.{first_fit, m_big}
use rvos.Malloc.Huge.{m_big-huge}

abbrev moving : Sbrk
moving n h = (some h.brk, record h { brk = add64 h.brk n })

abbrev heap : Mheap
heap = record {
  made = true;
  free = 0;
  top = uheap_base + pgsize;
  runs = λ c. 0;
  dir = 0;
  dirlen = 0;
  run_pages = 0;
  mem = λ a. 0;
  brk = uheap_base + pgsize;
  faulted = false;
}

abbrev huge : ℕ
huge = 2 ^ 64 - 256

m_big-huge_example : (m_big moving heap huge).1.faulted ≡ true
unfolding first_fit
m_big-huge_example =
    m_big-huge moving heap (record heap { brk = add64 heap.brk 0 }) huge (λ k h dead. dead)
      (omega arith) (omega arith) refl refl
