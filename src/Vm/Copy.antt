-- ===== src/Vm/Copy.antt =====
-- vm_copy_across: it ends, and what it copies.
use rvos.Common.{
  ℕ, zero, suc, ◌+◌, ◌-◌, ◌%◌, ◌≤◌, ◌<◌, ◌≡◌, refl, ◌≢◌, ◌∙◌, true, false, ◌||◌, arith, ◌==◌,
  Bool-cases, inl, inr,
}
use rvos.Common.Words.{add64}
use rvos.Memory.{Memory, memcpy}
use rvos.Pmm.{pgsize}
use rvos.Vm.{translate, fragment, copy_loop, vm_copy_across}

fragment_bounds :
    (sva dva len : ℕ) → 0 < len → (0 < fragment sva dva len) × (fragment sva dva len ≤ len)
unfolding fragment
fragment_bounds sva dva len h = ground arith

-- More rounds than there are bytes change nothing: the loop ends by its own test.
pub copy_loop_enough :
    (f g dpt dva spt sva len : ℕ) (m : Memory)
    → len ≤ f
    → len ≤ g
    → copy_loop f dpt dva spt sva len m ≡ copy_loop g dpt dva spt sva len m
unfolding copy_loop
copy_loop_enough zero zero dpt dva spt sva len m hf hg = refl
copy_loop_enough zero (suc g) dpt dva spt sva len m hf hg = let e : len ≡ 0 = omega arith in rw e
copy_loop_enough (suc f) zero dpt dva spt sva len m hf hg = let e : len ≡ 0 = omega arith in rw e
copy_loop_enough (suc f) (suc g) dpt dva spt sva len m hf hg = elim (Bool-cases (len == 0)) [
  | inl e ↦ rw e
  | inr e ↦
      let n = fragment sva dva len in
      let b = fragment_bounds sva dva len (ground arith) in
      rw (
        copy_loop_enough f g dpt (add64 dva n) spt (add64 sva n) (len - n)
          (memcpy m (translate m dpt dva) (translate m spt sva) n) (omega arith) (omega arith))
]

fragment_whole :
    (sva dva len : ℕ)
    → sva % pgsize + len ≤ pgsize
    → dva % pgsize + len ≤ pgsize
    → fragment sva dva len ≡ len
unfolding fragment
fragment_whole sva dva len hs hd = ground arith

nothing_left : (f dpt dva spt sva : ℕ) (m : Memory) → copy_loop f dpt dva spt sva 0 m ≡ (true, m)
unfolding copy_loop
nothing_left zero dpt dva spt sva m = refl
nothing_left (suc f) dpt dva spt sva m = refl

one_round :
    (f dpt dva spt sva len : ℕ) (m : Memory)
    → (len == 0) ≡ false
    → ((translate m spt sva == 0) || (translate m dpt dva == 0)) ≡ false
    → fragment sva dva len ≡ len
    → copy_loop (suc f) dpt dva spt sva len m
      ≡ (true, memcpy m (translate m dpt dva) (translate m spt sva) len)
unfolding copy_loop
one_round f dpt dva spt sva len m more mapped whole =
    let z : len - len ≡ 0 = omega arith in
    rw (more, mapped, whole, z) (nothing_left f dpt _ spt _ _)

-- A message of at least one byte that lies within one mapped page on each side is one memcpy between
-- the two physical places.
vm_copy_across_page :
    (m : Memory) (dpt dva spt sva len : ℕ)
    → 0 < len
    → sva % pgsize + len ≤ pgsize
    → dva % pgsize + len ≤ pgsize
    → translate m spt sva ≢ 0
    → translate m dpt dva ≢ 0
    → vm_copy_across m dpt dva spt sva len
      ≡ (true, memcpy m (translate m dpt dva) (translate m spt sva) len)
unfolding vm_copy_across
vm_copy_across_page m dpt dva spt sva len some_bytes s_in d_in s_mapped d_mapped =
    copy_loop_enough len (suc len) dpt dva spt sva len m (omega arith) (omega arith)
    ∙ one_round len dpt dva spt sva len m (ground arith) (ground arith)
        (fragment_whole sva dva len s_in d_in)
