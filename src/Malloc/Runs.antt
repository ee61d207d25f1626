-- ===== src/Malloc/Runs.antt =====
-- src/malloc.h: runs of small objects, each in a page of its own, and the map of the pages.
use rvos.Common.{
  ℕ, zero, suc, ◌+◌, ◌-◌, ◌*◌, ◌/◌, ◌%◌, ◌^◌, Bool, ◌&&◌, Option, none, some, ltb, leb, ◌==◌, ◌!=◌,
  if◌then◌else◌, update,
}
use rvos.Memory.{Memory, load64, store64}
use rvos.Pmm.{pgsize}
use rvos.Create.{uheap_base}
use rvos.Malloc.{Mheap, stored, Sbrk, mhdr, mrunhdr, size_at, walk_fuel}
use rvos.Malloc.Classes.{maxsmall, class_size}
use rvos.Malloc.Blocks.{m_insert, m_trim, m_heap, m_big, m_page}

-- struct mrun: next, slots, cls and used.
abbrev pub run_next : Mheap → ℕ → ℕ
run_next h r = load64 h.mem r

abbrev pub slots : Mheap → ℕ → ℕ
slots h r = load64 h.mem (r + 8)

abbrev pub load16 : Memory → ℕ → ℕ
load16 m a = m a + 0x100 * m (a + 1)

abbrev pub store16 : Memory → ℕ → ℕ → Memory
store16 m a v = update (update m a (v % 256)) (a + 1) (v / 256 % 256)

abbrev pub cls : Mheap → ℕ → ℕ
cls h r = load16 h.mem (r + 16)

abbrev pub used : Mheap → ℕ → ℕ
used h r = load16 h.mem (r + 18)

abbrev pub set_word : Mheap → ℕ → ℕ → Mheap
set_word h a v = stored h (a + 7) (store64 h.mem a v)

abbrev pub set_half : Mheap → ℕ → ℕ → Mheap
set_half h a v = stored h (a + 1) (store16 h.mem a v)

-- The page of an address, and its index in the map.
abbrev pub page_of : ℕ → ℕ
page_of p = p / pgsize * pgsize

abbrev pub page_index : ℕ → ℕ
page_index p = (p / pgsize * pgsize + 2 ^ 64 - uheap_base) % 2 ^ 64 / pgsize

-- Whether the map has a class for the page.
abbrev pub in_run : Mheap → ℕ → Bool
in_run h p = ltb (page_index p) h.dirlen && (h.mem (h.dir + page_index p) != 0)

-- The run is unlinked where a link of the list leads to it. The link is the head of the list, or the
-- next of `prev`.
unfoldable pub unlink_run : ℕ → Mheap → ℕ → ℕ → ℕ → ℕ → Mheap
unlink_run zero h c r prev at = h
unlink_run (suc fuel) h c r prev at =
    let rest = unlink_run fuel h c r at (run_next h at) in
    let out =
      if prev == 0
      then record h { runs = update h.runs c (run_next h r) }
      else set_word h prev (run_next h r) in
    if at == 0 then h else if at == r then out else rest

-- A slot goes back to its run.
pub free_slot : Sbrk → Mheap → ℕ → Mheap
free_slot sbrk h p =
    let r = page_of p in
    let c = cls h r in
    let listed = record (set_word h r (h.runs c)) { runs = update h.runs c r } in
    let h1 = if slots h r == 0 then listed else h in
    let h2 = set_word (set_word h1 p (slots h1 r)) (r + 8) p in
    let h3 = set_half h2 (r + 18) ((used h2 r + 2 ^ 16 - 1) % 2 ^ 16) in
    let h4 = unlink_run walk_fuel h3 c r 0 (h3.runs c) in
    let mapped = stored h4 (h4.dir + page_index p) (update h4.mem (h4.dir + page_index p) 0) in
    let h5 = record mapped { run_pages = (h4.run_pages + 2 ^ 64 - 1) % 2 ^ 64 } in
    if used h3 r != 0 then h3 else m_trim sbrk (m_insert h5 r pgsize)

pub m_free : Sbrk → Mheap → ℕ → Mheap
m_free sbrk h0 p =
    let h = m_heap h0 in
    if p == 0
    then h0
    else if in_run h p
    then free_slot sbrk h p
    else m_trim sbrk (m_insert h (p - mhdr) (size_at h (p - mhdr)))

-- `while (want <= idx) want *= 2`; the index is below 2 ^ 52.
unfoldable pub doubled : ℕ → ℕ → ℕ → ℕ
doubled zero want idx = want
doubled (suc rounds) want idx =
    let rest = doubled rounds (want * 2 % 2 ^ 64) idx in if leb want idx then rest else want

-- The entries of the map that there are, and zeroes behind them.
unfoldable pub copy_map : ℕ → ℕ → Mheap → ℕ → Mheap
copy_map zero i h d = h
copy_map (suc left) i h d =
    let byte = if ltb i h.dirlen then h.mem (h.dir + i) else 0 in
    copy_map left (i + 1) (stored h (d + i) (update h.mem (d + i) byte)) d

-- The index of a page, once the map covers it.
pub m_dir_cover : Sbrk → Mheap → ℕ → Option ℕ × Mheap
m_dir_cover sbrk h page =
    let idx = page_index page in
    let want = doubled 64 (if h.dirlen != 0 then h.dirlen * 2 else 4 * maxsmall) idx in
    let (d, h1) = m_big sbrk h want in
    let h2 = copy_map want 0 h1 d in
    let h3 = if h2.dir != 0 then m_free sbrk h2 h2.dir else h2 in
    if ltb idx h.dirlen
    then (some idx, h)
    else if d == 0
    then (none, h1)
    else (some idx, record h3 { dir = d; dirlen = want })

-- The slots of a page from the last down, threaded through themselves.
unfoldable pub thread_slots : ℕ → Mheap → ℕ → ℕ → ℕ → Mheap
thread_slots zero h r p size = h
thread_slots (suc left) h r p size =
    thread_slots left (set_word (set_word h p (slots h r)) (r + 8) p) r (p - size) size

pub m_newrun : Sbrk → Mheap → ℕ → ℕ × Mheap
m_newrun sbrk h c =
    let (page, h1) = m_page sbrk h in
    let (covered, h2) = m_dir_cover sbrk h1 page in
    let size = class_size c in
    let made : ℕ × Mheap = elim covered [
      | none ↦ (0, m_insert h2 page pgsize)
      | some idx ↦
          let h3 = stored h2 (h2.dir + idx) (update h2.mem (h2.dir + idx) ((c + 1) % 256)) in
          let h4 = set_word h3 page (h3.runs c) in
          let h5 = set_word (set_half (set_half h4 (page + 16) c) (page + 18) 0) (page + 8) 0 in
          let h6 = thread_slots ((pgsize - mrunhdr) / size) h5 page (page + pgsize - size) size in
          (page, record h6 { runs = update h6.runs c page; run_pages = h6.run_pages + 1 })
    ] in
    if page == 0 then (0, h1) else made
