-- ===== src/Pmm/FreeList.antt =====
-- The free list as a list of pages: what freeing and allocating do to it.
use rvos.Common.{
  ℕ, ◌+◌, ◌-◌, ◌%◌, ◌^◌, ◌≤◌, ◌<◌, ◌≡◌, refl, ◌∙◌, ◌≢◌, ◌⊎◌, inl, inr, true, false, ◌||◌, List, [],
  ◌∷◌, arith, ltb, leb, ◌==◌, ◌!=◌, if◌then◌else◌, length, All, Bool-cases, ◌&&◌,
}
use rvos.Memory.{Memory, load64, store64, memset}
use rvos.Memory.Words64.{load64-store64, load64-store64_ne, load64-congr}
use rvos.Memory.Blocks.{memset_lem}
use rvos.Pmm.{Machine, pgsize, ram_base, pmm_top, pmm_free, pmm_alloc}

-- A page that the allocator accepts.
abbrev pub InArena : ℕ → Type 0
InArena p = (p % pgsize ≡ 0) × (ram_base ≤ p) × (p < pmm_top)

abbrev pub Fresh : ℕ → List ℕ → Type 0
Fresh p = All λ q. q ≢ p

-- From `head`, first words lead through the distinct pages `ps` to 0.
abbrev pub Chain : Memory → ℕ → List ℕ → Type 0
Chain m head [] = head ≡ 0
Chain m head (p ∷ ps) = (head ≡ p) × InArena p × Fresh p ps × Chain m (load64 m p) ps

pub record Holds (s : Machine) (ps : List ℕ) : Type 0 where
  pub chain : Chain s.mem s.freelist ps
  pub count : s.nfree ≡ length ps % 2 ^ 32

Chain-head_lt : (m : Memory) (head : ℕ) (ps : List ℕ) → Chain m head ps → head < 2 ^ 64
Chain-head_lt m head [] c = omega arith
Chain-head_lt m head (p ∷ ps) c = omega arith

-- Writes away from the pages of a chain leave it alone.
Chain-frame :
    (m m' : Memory) (head x : ℕ) (ps : List ℕ)
    → ((q : ℕ) → InArena q → q ≢ x → load64 m' q ≡ load64 m q)
    → Fresh x ps
    → Chain m head ps
    → Chain m' head ps
Chain-frame m m' head x [] same fresh c = c
Chain-frame m m' head x (p ∷ ps) same fresh (e, a, f, c) =
    (e, a, f, rw (same p a fresh.0) (Chain-frame m m' (load64 m p) x ps same fresh.1 c))

accepted :
    (s : Machine) (p : ℕ)
    → InArena p
    → pmm_free s p
      ≡ record s { mem = store64 s.mem p s.freelist; freelist = p; nfree = (s.nfree + 1) % 2 ^ 32 }
unfolding pmm_free
accepted s p a =
    let aligned : (p % pgsize) == 0 ≡ true = ground arith in
    let low : ltb p ram_base ≡ false = ground arith in
    let high : leb pmm_top p ≡ false = ground arith in rw (aligned, low, high)

-- Freeing a page of the arena that is not free puts it in front of the others and counts it.
pub pmm_free-Holds :
    (s : Machine) (p : ℕ) (ps : List ℕ)
    → Holds s ps
    → InArena p
    → Fresh p ps
    → Holds (pmm_free s p) (p ∷ ps)
pmm_free-Holds s p ps h a f =
    let word : load64 (store64 s.mem p s.freelist) p ≡ s.freelist =
      load64-store64 s.mem p s.freelist (Chain-head_lt s.mem s.freelist ps h.chain) in
    rw (accepted s p a) (record {
      chain = (
        refl,
        a,
        f,
        rw word (
            Chain-frame s.mem (store64 s.mem p s.freelist) s.freelist p ps
              (λ q b ne. load64-store64_ne s.mem p s.freelist q (omega arith)) f h.chain),
      );
      count = omega (arith, h.count);
    })

-- Anything else is refused, and nothing changes.
pub pmm_free_refused : (s : Machine) (p : ℕ) → ¬ InArena p → pmm_free s p ≡ s
unfolding pmm_free
pmm_free_refused s p outside =
    elim (Bool-cases ((p % pgsize != 0) || ltb p ram_base || leb pmm_top p)) [
      | inl e ↦ rw e
      | inr e ↦ absurd (outside (ground arith, ground arith, ground arith))
    ]

kept : (m : Memory) (p a : ℕ) → (a < p) ⊎ (p + pgsize ≤ a) → memset m p 0 pgsize a ≡ m a
kept m p a away = memset_lem m p 0 pgsize a ∙ ground arith

kept_word :
    (m : Memory) (p q : ℕ)
    → InArena p
    → InArena q
    → q ≢ p
    → load64 (memset m p 0 pgsize) q ≡ load64 m q
kept_word m p q a b ne =
    load64-congr m (memset m p 0 pgsize) q (λ x low high. kept m p x (omega arith))

taken :
    (s : Machine) (p : ℕ)
    → s.freelist ≡ p
    → InArena p
    → pmm_alloc s ≡ (
      p,
      record s {
        mem = memset s.mem p 0 pgsize;
        freelist = load64 s.mem p;
        nfree = (s.nfree + 2 ^ 32 - 1) % 2 ^ 32;
      },
    )
unfolding pmm_alloc
taken s p e a = let some_page : (p == 0) ≡ false = ground arith in rw (e, some_page)

-- Allocating takes the first page of the list, zeroed, leaves the rest of the list with its count,
-- and changes no byte outside that page.
pub pmm_alloc-Holds :
    (s : Machine) (p : ℕ) (ps : List ℕ) (a : ℕ)
    → Holds s (p ∷ ps)
    → let (q, s') = pmm_alloc s in
      (q ≡ p) × Holds s' ps × (s'.mem a ≡ (if leb p a && ltb a (p + pgsize) then 0 else s.mem a))
pmm_alloc-Holds s p ps at h =
    let (e, a, f, c) = h.chain in
    rw (taken s p e a) (
      refl,
      record {
        chain =
            Chain-frame s.mem (memset s.mem p 0 pgsize) (load64 s.mem p) p ps
              (λ q b ne. kept_word s.mem p q a b ne) f c;
        count = omega (arith, h.count);
      },
      memset_lem s.mem p 0 pgsize at,
    )

-- With no page left it answers 0 and changes nothing.
pub pmm_alloc_exhausted : (s : Machine) → Holds s [] → pmm_alloc s ≡ (0, s)
unfolding pmm_alloc
pmm_alloc_exhausted s h = rw h.chain
