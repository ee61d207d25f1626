-- ===== src/Fat/Chain.antt =====
-- fat_free_chain of src/fat16.c: a chain of clusters, each the entry of the one before it, ends at a
-- number that stands for no data.
use rvos.Common.{
  ℕ, zero, suc, ◌^◌, ◌≤◌, ◌<◌, ◌≡◌, ◌≢◌, refl, sym, ap, ◌∙◌, subst, inl, inr, true, false, List, [],
  ◌∷◌, length, if◌then◌else◌, arith, All, Bool-cases, ==_ne,
}
use mathlib.Core.Bool.{true≢false}
use native.Mathlib.Decide.{ℕ_discrete}
use rvos.Fat.{Disk, Geometry, Volume, fat_free, is_data, free_loop, fat_free_chain}
use rvos.Fat.Entry.{UsableVolume, entry_in, entry, InTable}
use rvos.Fat.Pigeonhole.{on, NoDup, length_bound}
use rvos.Fat.Table.{set_disk, fat_set-disk, fat_next-entry, entry_in-set_disk}

-- `chain` are the clusters from `clus` on.
abbrev pub Linked : Geometry → Disk → ℕ → List ℕ → Type 0
Linked fs d clus [] = is_data clus ≡ false
Linked fs d clus (c ∷ cs) =
    (clus ≡ c) × (is_data clus ≡ true) × InTable fs clus × Linked fs d (entry fs d clus) cs

-- Where a cluster is on the chain, the rest of the chain starts there.
on-Linked :
    (fs : Geometry) (d : Disk) (c clus : ℕ) (chain : List ℕ)
    → Linked fs d clus chain
    → on c chain ≡ true
    → ((rest : List ℕ) × Linked fs d c rest × (length rest ≤ length chain))
on-Linked fs d c clus [] l h = absurd (true≢false (sym h))
on-Linked fs d c clus (x ∷ xs) l h = elim (ℕ_discrete clus c) [
  | yes e ↦ (x ∷ xs, subst (λ n. Linked fs d n (x ∷ xs)) e l, omega arith)
  | no ne ↦
      let r = on-Linked fs d c (entry fs d clus) xs l.3 (ground arith) in
      (r.0, r.1, omega (arith, r.2))
]

Linked-length :
    (fs : Geometry) (d : Disk) (clus : ℕ) (xs ys : List ℕ)
    → Linked fs d clus xs
    → Linked fs d clus ys
    → length xs ≡ length ys
Linked-length fs d clus [] [] l r = refl
Linked-length fs d clus [] (y ∷ ys) l r = absurd (true≢false (sym r.1 ∙ l))
Linked-length fs d clus (x ∷ xs) [] l r = absurd (true≢false (sym l.1 ∙ r))
Linked-length fs d clus (x ∷ xs) (y ∷ ys) l r =
    ap suc (Linked-length fs d (entry fs d clus) xs ys l.3 r.3)

-- A chain never comes back to a cluster, since its end is the end from there as well.
once :
    (fs : Geometry) (d : Disk) (clus c : ℕ) (cs : List ℕ)
    → Linked fs d clus (c ∷ cs)
    → on clus cs ≡ false
once fs d clus c cs l = elim (Bool-cases (on clus cs)) [
  | inr off ↦ off
  | inl back ↦
      let r = on-Linked fs d clus (entry fs d clus) cs l.3 back in
      absurd (omega (arith, Linked-length fs d clus (c ∷ cs) r.0 l r.1, r.2))
]

set_disk-entry_ne :
    (fs : Geometry) (d : Disk) (clus val c : ℕ)
    → InTable fs clus
    → InTable fs c
    → val < 2 ^ 16
    → 0 < fs.num_fats
    → clus ≢ c
    → entry fs (set_disk fs d clus val) c ≡ entry fs d c
set_disk-entry_ne fs d clus val c inside there bound copy ne =
    entry_in-set_disk fs d clus val 0 c inside there bound copy ∙ rw (==_ne clus c ne) refl

-- A write to a cluster that is not on the chain leaves the chain.
Linked-set_disk :
    (fs : Geometry) (d : Disk) (set val clus : ℕ) (cs : List ℕ)
    → InTable fs set
    → val < 2 ^ 16
    → 0 < fs.num_fats
    → on set cs ≡ false
    → Linked fs d clus cs
    → Linked fs (set_disk fs d set val) clus cs
Linked-set_disk fs d set val clus [] inside bound copy off l = l
Linked-set_disk fs d set val clus (c ∷ cs) inside bound copy off l =
    let head : clus ≡ c = l.0 in
    let same : entry fs (set_disk fs d set val) clus ≡ entry fs d clus =
      set_disk-entry_ne fs d set val clus inside l.2 bound copy (ground arith) in
    let rest =
      Linked-set_disk fs d set val (entry fs d clus) cs inside bound copy (ground arith) l.3 in
    (l.0, l.1, l.2, subst (λ n. Linked fs (set_disk fs d set val) n cs) (sym same) rest)

free_loop-frees :
    (rounds : ℕ) (v : Volume) (clus : ℕ) (chain : List ℕ) (g c : ℕ)
    → UsableVolume v
    → Linked v.fs v.disk clus chain
    → length chain < rounds
    → InTable v.fs c
    → g < v.fs.num_fats
    → entry_in v.fs (free_loop rounds v clus).disk g c
      ≡ (if on c chain then fat_free else entry_in v.fs v.disk g c)
unfolding free_loop
free_loop-frees zero v clus chain g c u l enough there copy = absurd (omega arith)
free_loop-frees (suc rounds) v clus [] g c u l enough there copy = rw l refl
free_loop-frees (suc rounds) v clus (x ∷ xs) g c u l enough there copy =
    let head : clus ≡ x = l.0 in
    let next = fat_next-entry v clus u l.2 in
    let set = fat_set-disk v clus fat_free u l.2 in
    let link =
      Linked-set_disk v.fs v.disk clus fat_free (entry v.fs v.disk clus) xs l.2 (omega arith)
        u.a_copy (once v.fs v.disk clus x xs l) l.3 in
    let rest =
      free_loop-frees rounds (record v { disk = set_disk v.fs v.disk clus fat_free })
        (entry v.fs v.disk clus) xs g c u link (omega arith) there copy in
    rw (l.1, set, next)
      (rest
        ∙ rw (entry_in-set_disk v.fs v.disk clus fat_free g c l.2 there (omega arith) copy)
            (ground arith))

pub Linked-NoDup :
    (fs : Geometry) (d : Disk) (clus : ℕ) (chain : List ℕ) → Linked fs d clus chain → NoDup chain
Linked-NoDup fs d clus [] l = tt
Linked-NoDup fs d clus (c ∷ cs) l = (
  subst (λ x. on x cs ≡ false) l.0 (once fs d clus c cs l),
  Linked-NoDup fs d (entry fs d clus) cs l.3,
)

pub Linked-data :
    (fs : Geometry) (d : Disk) (clus : ℕ) (chain : List ℕ)
    → Linked fs d clus chain
    → All (λ c. c < 0xfff8) chain
Linked-data fs d clus [] l = tt
Linked-data fs d clus (c ∷ cs) l =
    let head : clus ≡ c = l.0 in
    let stands : is_data clus ≡ true = l.1 in
    (ground arith, Linked-data fs d (entry fs d clus) cs l.3)

-- Where the table of a volume can be read and written and the clusters from `clus` on are a chain,
-- fat_free_chain makes the entries of the chain's clusters free in every copy of the table, and
-- changes no other entry.
pub fat_free_chain-frees :
    (v : Volume) (clus : ℕ) (chain : List ℕ) (g c : ℕ)
    → UsableVolume v
    → Linked v.fs v.disk clus chain
    → InTable v.fs c
    → g < v.fs.num_fats
    → entry_in v.fs (fat_free_chain v clus).disk g c
      ≡ (if on c chain then fat_free else entry_in v.fs v.disk g c)
unfolding fat_free_chain
fat_free_chain-frees v clus chain g c u l there copy =
    let bound =
      length_bound 0xfff8 chain (Linked-NoDup v.fs v.disk clus chain l)
        (Linked-data v.fs v.disk clus chain l) in
    free_loop-frees (2 ^ 16) v clus chain g c u l (omega (arith, bound)) there copy
