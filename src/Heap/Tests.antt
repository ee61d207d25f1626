-- ===== src/Heap/Tests.antt =====
-- Slot 1, with a heap of one page, gives back a gigabyte.
use rvos.Common.{ℕ, ◌+◌, ◌-◌, ◌^◌, ◌≡◌, some, update, arith}
use rvos.Pmm.{pgsize}
use rvos.Kernel.{Kernel, boot_kernel, zero_task, running}
use rvos.Ipc.{a0, set_a0}
use rvos.Create.{uheap_base}
use rvos.Heap.{sbrk}
use rvos.Heap.Wrap.{sbrk-wraps}

abbrev request : ℕ
request = 2 ^ 64 - 2 ^ 30

abbrev kernel : Kernel
kernel = record boot_kernel {
  current = some 1;
  tasks =
      update (λ i. zero_task) 1
        (set_a0 (record zero_task { id = 1; pt = 4096; state = running; brk = uheap_base + pgsize })
          request);
}

sbrk-wraps_example :
    (k' : Kernel) × (sbrk kernel 1 ≡ some k')
    × (k'.machine ≡ kernel.machine)
    × ((k'.tasks 1).brk ≡ uheap_base + pgsize + request)
    × (a0 (k'.tasks 1) ≡ uheap_base + pgsize)
sbrk-wraps_example = sbrk-wraps kernel 1 (omega arith) (omega arith) (omega arith) (omega arith)
