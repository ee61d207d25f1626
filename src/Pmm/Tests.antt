-- ===== src/Pmm/Tests.antt =====
-- An empty allocator, one page of the arena, and a boot with two pages of room.
use rvos.Common.{ℕ, ◌+◌, ◌-◌, ◌*◌, ◌≡◌, refl, [], ◌∷◌, arith}
use rvos.Pmm.{Machine, pgsize, pmm_top, pmm_free, pmm_alloc}
use rvos.Pmm.FreeList.{Holds, pmm_free-Holds, pmm_alloc-Holds}

abbrev empty : Machine
empty = record { mem = λ i. 0; freelist = 0; nfree = 0; ntotal = 0 }

abbrev page : ℕ
page = 0x8000_1000

empty-Holds : Holds empty []
empty-Holds = record { chain = refl; count = refl }

one_page-Holds : Holds (pmm_free empty page) (page ∷ [])
one_page-Holds = pmm_free-Holds empty page [] empty-Holds (refl, omega arith, omega arith) tt

pmm_alloc-Holds_example :
    ((pmm_alloc (pmm_free empty page)).0 ≡ page)
    × Holds (pmm_alloc (pmm_free empty page)).1 []
    × ((pmm_alloc (pmm_free empty page)).1.mem (page + 3) ≡ 0)
pmm_alloc-Holds_example = pmm_alloc-Holds (pmm_free empty page) page [] (page + 3) one_page-Holds

abbrev image_end : ℕ
image_end = pmm_top - 2 * pgsize - 5
