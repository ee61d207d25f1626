-- ===== src/Malloc/Blocks.antt =====
-- src/malloc.h: the blocks of the large path, on one list in the order of their addresses.
use rvos.Common.{
  ℕ, zero, suc, ◌+◌, ◌-◌, ◌*◌, Bool, true, false, ◌&&◌, ◌||◌, Option, none, some, ltb, leb, ◌==◌,
  ◌!=◌, if◌then◌else◌,
}
use rvos.Common.Words.{add64, sub64}
use rvos.Pmm.{pgsize, pg_round_up}
use rvos.Create.{uheap_base}
use rvos.Malloc.{
  Mheap, Sbrk, malign, mhdr, mmin, mheap_size, size_at, next_at, set_size, set_next, walk_fuel,
}

-- The last block below `b`, and the first that is not: 0 where there is none.
unfoldable pub find_place : ℕ → Mheap → ℕ → ℕ → ℕ → ℕ × ℕ
find_place zero h b prev cur = (prev, cur)
find_place (suc fuel) h b prev cur =
    let rest = find_place fuel h b cur (next_at h cur) in
    if (cur != 0) && ltb cur b then rest else (prev, cur)

-- The link to a block: the next of the one before it, or the head of the list.
unfoldable pub set_link : Mheap → ℕ → ℕ → Mheap
set_link h prev b = if prev == 0 then record h { free = b } else set_next h prev b

-- A block takes in the one behind it where they touch.
unfoldable pub join : Mheap → ℕ → ℕ → Mheap
join h a b =
    let grown = set_size h a (add64 (size_at h a) (size_at h b)) in
    if (a != 0) && (b != 0) && (add64 a (size_at h a) == b)
    then set_next grown a (next_at grown b)
    else h

unfoldable pub m_insert : Mheap → ℕ → ℕ → Mheap
m_insert h b size =
    let h1 = set_size h b size in
    let (prev, cur) = find_place walk_fuel h1 b 0 h1.free in
    let linked = set_link (set_next h1 b cur) prev b in join (join linked b cur) prev b

abbrev pub mtrim : ℕ
mtrim = 16 * pgsize

unfoldable pub last_block : ℕ → Mheap → ℕ → ℕ
last_block zero h b = b
last_block (suc fuel) h b =
    let rest = last_block fuel h (next_at h b) in if next_at h b != 0 then rest else b

pub m_trim : Sbrk → Mheap → Mheap
m_trim sbrk h =
    let last = last_block walk_fuel h h.free in
    let rounded = pg_round_up (last + mhdr) in
    let from = if ltb rounded (uheap_base + pgsize) then uheap_base + pgsize else rounded in
    let (answer, h1) = sbrk (sub64 0 (h.top - from)) h in
    let given = set_size (record h1 { top = from }) last (from - last) in
    let trimmed : Mheap = elim answer [ none ↦ h1 | some old ↦ given ] in
    if h.free == 0
    then h
    else if add64 last (size_at h last) != h.top
    then h
    else if leb h.top from || ltb (h.top - from) mtrim
    then h
    else trimmed

-- The header, made on the first call.
pub m_heap : Mheap → Mheap
m_heap h =
    let first = uheap_base + mheap_size in
    let fresh = record h {
      made = true;
      free = 0;
      top = uheap_base + pgsize;
      dir = 0;
      dirlen = 0;
      run_pages = 0;
      runs = λ c. 0;
    } in
    if h.made then h else m_insert fresh first (uheap_base + pgsize - first)

-- What the answer of SYS_SBRK for `n` bytes makes of the heap.
abbrev pub grown_by : ℕ → Option ℕ × Mheap → Bool × Mheap
grown_by n (none, h) = (false, h)
grown_by n (some p, h) = (true, m_insert (record h { top = add64 p n }) p n)

unfoldable pub m_grow : Sbrk → Mheap → ℕ → Bool × Mheap
m_grow sbrk h need = let n = pg_round_up need in grown_by n (sbrk n h)

-- The first block of the size, and the one before it.
unfoldable pub first_fit : ℕ → Mheap → ℕ → ℕ → ℕ → Option (ℕ × ℕ)
first_fit zero h want prev b = none
first_fit (suc fuel) h want prev b =
    let rest = first_fit fuel h want b (next_at h b) in
    if b == 0 then none else if ltb (size_at h b) want then rest else some (prev, b)

-- The block is taken off the list, and what is left of it put in its place where that is worth it.
unfoldable pub take_block : Mheap → ℕ → ℕ → ℕ → Mheap
take_block h want prev b =
    let left = b + want in
    let split = set_next (set_size h left (size_at h b - want)) left (next_at h b) in
    if leb mmin (size_at h b - want)
    then set_size (set_link split prev left) b want
    else set_link h prev (next_at h b)

-- By the passes that are left: the second comes after the heap has grown.
unfoldable pub big_pass : ℕ → Sbrk → Mheap → ℕ → ℕ × Mheap
big_pass zero sbrk h want = (0, h)
big_pass (suc passes) sbrk h want =
    let (grown, h1) = m_grow sbrk h want in
    let again = big_pass passes sbrk h1 want in
    elim (first_fit walk_fuel h want 0 h.free) [
      | some found ↦ (found.1 + mhdr, take_block h want found.0 found.1)
      | none ↦ if grown then again else (0, h1)
    ]

-- The address behind the header of a block, or 0.
unfoldable pub m_big : Sbrk → Mheap → ℕ → ℕ × Mheap
m_big sbrk h n =
    let want = malign (add64 n mhdr) in if ltb want n then (0, h) else big_pass 2 sbrk h want

-- The page that can be taken out of a block, where one can: no crumb is left on either side.
pub page_in : Mheap → ℕ → Option ℕ
page_in h b =
    let end = b + size_at h b in
    let up = pg_round_up b in
    let page = if (up != b) && ltb (up - b) mmin then up + pgsize else up in
    let tail = end - (page + pgsize) in
    if ltb end (page + pgsize)
    then none
    else if (tail != 0) && ltb tail mmin
    then none
    else some page

unfoldable pub find_page : ℕ → Mheap → ℕ → ℕ → Option (ℕ × ℕ × ℕ)
find_page zero h prev b = none
find_page (suc fuel) h prev b =
    let rest = find_page fuel h b (next_at h b) in
    if b == 0 then none else elim (page_in h b) [ none ↦ rest | some page ↦ some (prev, b, page) ]

-- What is left of the block in front of the page and behind it stays on the list.
pub take_page : Mheap → ℕ → ℕ → ℕ → Mheap
take_page h prev b page =
    let behind = page + pgsize in
    let tail = b + size_at h b - behind in
    let lead = page - b in
    let h1 = if tail == 0 then h else set_next (set_size h behind tail) behind (next_at h b) in
    let short = set_size h1 b lead in
    if lead != 0
    then if tail == 0 then short else set_next short b behind
    else set_link h1 prev (if tail == 0 then next_at h1 b else behind)

unfoldable pub page_pass : ℕ → Sbrk → Mheap → ℕ × Mheap
page_pass zero sbrk h = (0, h)
page_pass (suc passes) sbrk h =
    let (grown, h1) = m_grow sbrk h pgsize in
    let again = page_pass passes sbrk h1 in
    elim (find_page walk_fuel h 0 h.free) [
      | some found ↦ (found.2, take_page h found.0 found.1 found.2)
      | none ↦ if grown then again else (0, h1)
    ]

pub m_page : Sbrk → Mheap → ℕ × Mheap
m_page sbrk h = page_pass 2 sbrk h
