-- ===== src/Malloc/Calls.antt =====
-- src/malloc.h: malloc, free, calloc and realloc as a task with one thread calls them, the lock around
-- them left out, and malloc_stat.
use rvos.Common.{
  ℕ, zero, suc, ◌+◌, ◌-◌, ◌*◌, ◌/◌, ◌%◌, ◌^◌, ◌&&◌, ltb, leb, ◌==◌, ◌!=◌, if◌then◌else◌, update,
}
use rvos.Memory.{load64, memset, memcpy}
use rvos.Pmm.{pgsize}
use rvos.Create.{uheap_base}
use rvos.Malloc.{Mheap, stored, Sbrk, mhdr, mrunhdr, size_at, next_at, walk_fuel}
use rvos.Malloc.Classes.{nclass, maxsmall, class_size, class_of}
use rvos.Malloc.Blocks.{m_heap, m_big}
use rvos.Malloc.Runs.{
  run_next, slots, used, set_word, set_half, page_index, in_run, m_free, m_newrun,
}

-- A slot is taken from a run with room.
pub take_slot : Mheap → ℕ → ℕ → ℕ × Mheap
take_slot h c r =
    let p = slots h r in
    let h1 = set_word h (r + 8) (load64 h.mem p) in
    let h2 = set_half h1 (r + 18) ((used h1 r + 1) % 2 ^ 16) in
    let full = record h2 { runs = update h2.runs c (run_next h2 r) } in
    (p, if slots h2 r == 0 then full else h2)

pub m_malloc : Sbrk → Mheap → ℕ → ℕ × Mheap
m_malloc sbrk h0 n =
    let h = m_heap h0 in
    let c = class_of n in
    let (made, h1) = m_newrun sbrk h c in
    let fresh = if made == 0 then (0, h1) else take_slot h1 c made in
    if n == 0
    then (0, h0)
    else if ltb maxsmall n
    then m_big sbrk h n
    else if h.runs c == 0
    then fresh
    else take_slot h c (h.runs c)

pub calloc : Sbrk → Mheap → ℕ → ℕ → ℕ × Mheap
calloc sbrk h n size =
    let total = n * size % 2 ^ 64 in
    let (p, h1) = m_malloc sbrk h total in
    let cleared = stored h1 (p + total - 1) (memset h1.mem p 0 total) in
    if (n != 0) && (total / n != size) then (0, h) else if p == 0 then (0, h1) else (p, cleared)

-- The bytes that a pointer has room for.
pub room_of : Mheap → ℕ → ℕ
room_of h p =
    if in_run h p
    then class_size (h.mem (h.dir + page_index p) - 1)
    else size_at h (p - mhdr) - mhdr

pub m_realloc : Sbrk → Mheap → ℕ → ℕ → ℕ × Mheap
m_realloc sbrk h0 p n =
    let h = m_heap h0 in
    let have = room_of h p in
    let (q, h1) = m_malloc sbrk h n in
    let moved = m_free sbrk (stored h1 (q + have - 1) (memcpy h1.mem q p have)) p in
    if p == 0
    then m_malloc sbrk h0 n
    else if n == 0
    then (0, m_free sbrk h0 p)
    else if leb n have
    then (p, h)
    else if q == 0
    then (0, h1)
    else (q, moved)

-- struct mstat
pub record Mstat : Type 0 where
  pub taken : ℕ
  pub idle : ℕ
  pub largest : ℕ
  pub pieces : ℕ
  pub run_bytes : ℕ
  pub run_free : ℕ
  pub runs : ℕ

-- The blocks of the list: their bytes, the largest of them, and how many there are.
unfoldable pub count_blocks : ℕ → Mheap → ℕ → ℕ → ℕ → ℕ → ℕ × ℕ × ℕ
count_blocks zero h b idle largest pieces = (idle, largest, pieces)
count_blocks (suc fuel) h b idle largest pieces =
    let size = size_at h b in
    let rest =
      count_blocks fuel h (next_at h b) (idle + size) (if ltb largest size then size else largest)
        (pieces + 1) in
    if b == 0 then (idle, largest, pieces) else rest

-- The bytes of the free slots in the runs of a list.
unfoldable pub count_runs : ℕ → Mheap → ℕ → ℕ → ℕ
count_runs zero h size r = 0
count_runs (suc fuel) h size r =
    let rest = count_runs fuel h size (run_next h r) in
    if r == 0 then 0 else ((pgsize - mrunhdr) / size - used h r) * size + rest

unfoldable pub count_classes : ℕ → ℕ → Mheap → ℕ
count_classes zero c h = 0
count_classes (suc left) c h =
    count_runs walk_fuel h (class_size c) (h.runs c) + count_classes left (c + 1) h

pub malloc_stat : Mheap → Mstat × Mheap
malloc_stat h0 =
    let h = m_heap h0 in
    let blocks = count_blocks walk_fuel h h.free 0 0 0 in
    (
      record {
        taken = h.top - uheap_base;
        idle = blocks.0;
        largest = blocks.1;
        pieces = blocks.2;
        run_bytes = h.run_pages * pgsize;
        run_free = count_classes nclass 0 h;
        runs = h.run_pages % 2 ^ 32;
      },
      h,
    )
