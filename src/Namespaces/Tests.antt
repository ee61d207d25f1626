-- ===== src/Namespaces/Tests.antt =====
-- A private namespace, in the page 4096, that only slot 5 sees.
use rvos.Common.{◌≡◌, ◌↔◌, false, update, arith, AllBelow}
use rvos.Kernel.{Kernel, boot_kernel, zero_task, ntask, runnable}
use rvos.Namespaces.{ns_gc, sees}
use rvos.Namespaces.Sweep.{ns_gc-lets_go}

abbrev kernel : Kernel
kernel = record boot_kernel {
  ns_pool = update (λ i. 0) 2 4096;
  tasks = update (λ i. zero_task) 5 (record zero_task { state = runnable; ns = 4096; pt = 8192 });
}

ns_gc-lets_go_example :
    ((ns_gc kernel).ns_pool 2 ≡ 0) ↔ AllBelow ntask (λ t. sees 4096 (kernel.tasks t) ≡ false)
ns_gc-lets_go_example = ns_gc-lets_go kernel 2 (omega arith) (omega arith) (omega arith)
