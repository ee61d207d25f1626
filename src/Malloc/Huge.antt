-- ===== src/Malloc/Huge.antt =====
-- m__big of src/malloc.h for sizes close to 2 ^ 64, for which rounding up to pages wraps to none.
use rvos.Common.{
  if_cases, ℕ, zero, suc, ◌+◌, ◌-◌, ◌^◌, ◌≤◌, ◌≡◌, refl, ap, ◌∙◌, sym, subst, true, false, ◌&&◌,
  Option, none, some, ltb, leb, ◌==◌, ◌!=◌, if◌then◌else◌, arith,
}
use rvos.Common.Words.{add64}
use rvos.Pmm.{pg_round_up}
use rvos.Memory.{Memory, store64}
use rvos.Malloc.{
  Mheap, stored, Sbrk, malign, mhdr, mmin, size_at, next_at, set_size, set_next, walk_fuel,
}
use rvos.Malloc.Blocks.{
  find_place, set_link, join, take_block, m_insert, grown_by, m_grow, first_fit, big_pass, m_big,
}

m_grow_none :
    (sbrk : Sbrk) (h h1 : Mheap) (need p : ℕ)
    → pg_round_up need ≡ 0
    → sbrk 0 h ≡ (some p, h1)
    → m_grow sbrk h need ≡ (true, m_insert (record h1 { top = add64 p 0 }) p 0)
unfolding m_grow
m_grow_none sbrk h h1 need p wraps answer =
    ap (λ n. grown_by n (sbrk n h)) wraps ∙ ap (grown_by 0) answer

-- A pass that finds no block and can grow the heap goes on to the next pass.
big_pass-grown :
    (n : ℕ) (sbrk : Sbrk) (h h1 : Mheap) (want : ℕ)
    → first_fit walk_fuel h want 0 h.free ≡ none
    → m_grow sbrk h want ≡ (true, h1)
    → big_pass (suc n) sbrk h want ≡ big_pass n sbrk h1 want
unfolding big_pass
big_pass-grown n sbrk h h1 want unfit grows = rw (big_pass, unfit, grows) refl

-- The program was killed at a store.
abbrev Dead : Mheap → Type 0
Dead h = h.faulted ≡ true

-- A store keeps the program dead.
stored-Dead : (h : Mheap) (last : ℕ) (m : Memory) → Dead h → Dead (stored h last m)
stored-Dead h last m d = rw d refl

set_size-Dead : (h : Mheap) (b v : ℕ) → Dead h → Dead (set_size h b v)
set_size-Dead h b v d = stored-Dead h (b + 7) (store64 h.mem b v) d

set_next-Dead : (h : Mheap) (b v : ℕ) → Dead h → Dead (set_next h b v)
set_next-Dead h b v d = stored-Dead h (b + 15) (store64 h.mem (b + 8) v) d

set_link-Dead : (h : Mheap) (prev b : ℕ) → Dead h → Dead (set_link h prev b)
unfolding set_link
set_link-Dead h prev b d = if_cases Dead (prev == 0) _ _ (λ e. d) (λ e. set_next-Dead h prev b d)

join-Dead : (h : Mheap) (a b : ℕ) → Dead h → Dead (join h a b)
unfolding join
join-Dead h a b d =
    let grown = set_size h a (add64 (size_at h a) (size_at h b)) in
    if_cases Dead ((a != 0) && (b != 0) && (add64 a (size_at h a) == b)) _ _
      (λ e.
        set_next-Dead grown a (next_at grown b)
          (set_size-Dead h a (add64 (size_at h a) (size_at h b)) d))
      (λ e. d)

-- The header of a block goes where the block is.
m_insert-Dead : (h : Mheap) (b size : ℕ) → Dead (set_size h b size) → Dead (m_insert h b size)
unfolding m_insert
m_insert-Dead h b size d =
    let h1 = set_size h b size in
    let (prev, cur) = find_place walk_fuel h1 b 0 h1.free in
    let before = set_next h1 b cur in
    let linked = set_link before prev b in
    join-Dead (join linked b cur) prev b
      (join-Dead linked b cur (set_link-Dead before prev b (set_next-Dead h1 b cur d)))

take_block-Dead : (h : Mheap) (want prev b : ℕ) → Dead h → Dead (take_block h want prev b)
unfolding take_block
take_block-Dead h want prev b d =
    let left = b + want in
    let sized = set_size h left (size_at h b - want) in
    let split = set_next sized left (next_at h b) in
    if_cases Dead (leb mmin (size_at h b - want)) _ _
      (λ e. set_size-Dead (set_link split prev left) b want (
        set_link-Dead split prev left
          (set_next-Dead sized left (next_at h b) (set_size-Dead h left (size_at h b - want) d))))
      (λ e. set_link-Dead h prev (next_at h b) d)

module _ (sbrk : Sbrk) (killed : (k : ℕ) (h : Mheap) → Dead h → Dead (sbrk k h).1) where
  grown_by-Dead : (n : ℕ) (r : Option ℕ × Mheap) → Dead r.1 → Dead (grown_by n r).1
  grown_by-Dead n (none, h) d = d
  grown_by-Dead n (some p, h) d =
      let top : Mheap = record h { top = add64 p n } in
      m_insert-Dead top p n (set_size-Dead top p n d)

  big_pass-Dead : (n : ℕ) (h : Mheap) (want : ℕ) → Dead h → Dead (big_pass n sbrk h want).1
  unfolding big_pass m_grow
  big_pass-Dead zero h want d = d
  big_pass-Dead (suc n) h want d =
      let grown = m_grow sbrk h want in
      let after : Dead grown.1 =
        grown_by-Dead (pg_round_up want) (sbrk (pg_round_up want) h)
          (killed (pg_round_up want) h d) in
      elim (first_fit walk_fuel h want 0 h.free)
        as (λ f.
          Dead
            (elim f as (λ g. ℕ × Mheap) [
              | some found ↦ (found.1 + mhdr, take_block h want found.0 found.1)
              | none ↦ if grown.0 then big_pass n sbrk grown.1 want else (0, grown.1)
            ]).1) [
              | some found ↦ take_block-Dead h want found.0 found.1 d
              | none ↦
                  if_cases (λ (r : ℕ × Mheap). Dead r.1) grown.0 _ _
                    (λ e. big_pass-Dead n grown.1 want after) (λ e. after)
            ]

-- A size from 2 ^ 64 - 4111 to 2 ^ 64 - 32 for which no block of the list is large enough is not
-- refused: where the kernel answers the request for no page with the break, the program is killed at
-- the header of a block that is stored there. That a store to the break or behind it kills the
-- program, for good, is `faulted`; the kernel does not take it back.
pub m_big-huge :
    (sbrk : Sbrk) (h h1 : Mheap) (n : ℕ)
    → ((k : ℕ) (x : Mheap) → x.faulted ≡ true → (sbrk k x).1.faulted ≡ true)
    → 2 ^ 64 - 4111 ≤ n
    → n ≤ 2 ^ 64 - 32
    → first_fit walk_fuel h (malign (add64 n mhdr)) 0 h.free ≡ none
    → sbrk 0 h ≡ (some h1.brk, h1)
    → (m_big sbrk h n).1.faulted ≡ true
unfolding m_big
m_big-huge sbrk h h1 n killed low high unfit answer =
    let want = malign (add64 n mhdr) in
    let taken : ltb want n ≡ false = ground arith in
    let wraps : pg_round_up want ≡ 0 = omega arith in
    let top : Mheap = record h1 { top = add64 h1.brk 0 } in
    let at_break : leb h1.brk (h1.brk + 7) ≡ true = ground arith in
    let killing : Dead (set_size top h1.brk 0) = ground (arith, at_break) in
    let run : m_big sbrk h n ≡ big_pass 1 sbrk (m_insert top h1.brk 0) want =
      ap (λ b. if b then (0, h) else big_pass 2 sbrk h want) taken
      ∙ big_pass-grown 1 sbrk h (m_insert top h1.brk 0) want unfit
          (m_grow_none sbrk h h1 want h1.brk wraps answer) in
    subst (λ (r : ℕ × Mheap). Dead r.1) (sym run)
      (big_pass-Dead sbrk killed 1 (m_insert top h1.brk 0) want
        (m_insert-Dead top h1.brk 0 killing))
