-- ===== src/Fat/PutLong.antt =====
-- put_long of src/fat16.c in the root directory: the slots after the long entries of a name have been
-- put there.
use rvos.Common.{
  ℕ, zero, suc, ◌+◌, ◌-◌, ◌*◌, ◌≤◌, ◌<◌, ◌≡◌, refl, sym, ap, ◌∙◌, inl, ◌⊎◌, Bool, true, false, ◌&&◌,
  List, ◌==◌, arith, ==_iff, ==_ne,
}
use native.Mathlib.Decide.{ℕ_discrete}
use rvos.Fat.{Volume}
use rvos.Fat.Pieces.{Same32}
use rvos.Fat.Cached.{Coherent}
use rvos.Fat.Root.{
  RootUsable, root_bytes, root_put, slot_put-root, root_put-Coherent, root_bytes_self,
  root_bytes_ne,
}
use rvos.Fat.Create.{long_entry, put_long}

-- The volume after the long entries with the numbers from `seq` down have been put at `at`.
pub after_long : ℕ → Volume → ℕ → List ℕ → ℕ → Bool → Volume
after_long zero v at us sum last = v
after_long (suc seq) v at us sum last =
    after_long seq (root_put v at (long_entry us sum (suc seq) last)) (at + 1) us sum false

-- What every volume keeps that slots of the root have been put in.
pub record Kept (v w : Volume) : Type 0 where
  pub coherent : Coherent w
  pub usable : RootUsable w
  pub sectors : w.fs.root_sectors ≡ v.fs.root_sectors

pub put_long_lem :
    (seq : ℕ) (v : Volume) (at : ℕ) (us : List ℕ) (sum : ℕ) (last : Bool)
    → Coherent v
    → RootUsable v
    → at + seq ≤ v.fs.root_sectors * 16
    → (put_long seq v 0 at us sum last ≡ (true, after_long seq v at us sum last))
      × Kept v (after_long seq v at us sum last)
unfolding put_long after_long
put_long_lem zero v at us sum last c u room =
    (refl, record { coherent = c; usable = u; sectors = refl })
put_long_lem (suc seq) v at us sum last c u room =
    let ent = long_entry us sum (suc seq) last in
    let put = slot_put-root v at ent c u (omega arith) in
    let rest =
      put_long_lem seq (root_put v at ent) (at + 1) us sum false
        (root_put-Coherent v at ent u (omega arith)) u (omega arith) in
    (
      rw (put_long, put) rest.0,
      record { coherent = rest.1.coherent; usable = rest.1.usable; sectors = rest.1.sectors },
    )

-- Slots that are not among those of the entries keep their bytes.
after_long_outside :
    (seq : ℕ) (v : Volume) (at : ℕ) (us : List ℕ) (sum : ℕ) (last : Bool) (k : ℕ)
    → (k < at) ⊎ (at + seq ≤ k)
    → Same32 (root_bytes (after_long seq v at us sum last) k) (root_bytes v k)
unfolding after_long
after_long_outside zero v at us sum last k out j below = refl
after_long_outside (suc seq) v at us sum last k out j below =
    let ent = long_entry us sum (suc seq) last in
    after_long_outside seq (root_put v at ent) (at + 1) us sum false k (ground arith) j below
    ∙ root_bytes_ne v at ent k (λ e. ground arith) j below

and_true : (a b : Bool) → b ≡ true → (a && b) ≡ a
and_true a b h = ground arith

and_false : (a b : Bool) → b ≡ false → (a && b) ≡ false
and_false a b h = ground arith

-- The entry with the number `q` stands `seq - q` slots behind the first.
pub after_long-entry :
    (seq : ℕ) (v : Volume) (at : ℕ) (us : List ℕ) (sum : ℕ) (last : Bool) (q : ℕ)
    → 1 ≤ q
    → q ≤ seq
    → Same32
        (root_bytes (after_long seq v at us sum last) (at + (seq - q)))
        (long_entry us sum q (last && (q == seq)))
unfolding after_long
after_long-entry zero v at us sum last q low high j below = absurd (omega arith)
after_long-entry (suc seq) v at us sum last q low high j below = elim (ℕ_discrete q (suc seq)) [
  | yes e ↦
      let ent = long_entry us sum (suc seq) last in
      let w = after_long seq (root_put v at ent) (at + 1) us sum false in
      let pos : at + (suc seq - q) ≡ at = omega (arith, e) in
      let flag : (last && (q == suc seq)) ≡ last =
        and_true last (q == suc seq) ((==_iff q (suc seq)).1 e) in
      ap (λ n. root_bytes w n j) pos
      ∙ after_long_outside seq (root_put v at ent) (at + 1) us sum false at (inl (omega arith)) j
          below
      ∙ root_bytes_self v at ent j below
      ∙ (λ i. long_entry us sum (sym e i) (sym flag i) j)
  | no ne ↦
      let ent = long_entry us sum (suc seq) last in
      let w = after_long seq (root_put v at ent) (at + 1) us sum false in
      let pos : at + (suc seq - q) ≡ at + 1 + (seq - q) = omega arith in
      let flag : (last && (q == suc seq)) ≡ false =
        and_false last (q == suc seq) (==_ne q (suc seq) ne) in
      ap (λ n. root_bytes w n j) pos
      ∙ after_long-entry seq (root_put v at ent) (at + 1) us sum false q low (omega arith) j below
      ∙ ap (λ l. long_entry us sum q l j) (sym flag)
]
