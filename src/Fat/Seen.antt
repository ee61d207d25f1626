-- ===== src/Fat/Seen.antt =====
-- Calls of slot_ptr of src/fat16.c one after another: what each finds is what is on the disk.
use rvos.Common.{ℕ, ◌≡◌, refl, sym, ap, ◌∙◌, inl, inr, none, some, Option-cases}
use mathlib.Core.Option.{some-injective, none-ne-some}
use rvos.Fat.{Volume}
use rvos.Fat.Slots.{Slot, slot_ptr, slot_at}
use rvos.Fat.Cached.{Coherent, slot_of, slot_seen, slot_of-recached, slot_ptr-Reads}

-- The volume after slot_ptr has found a slot.
pub record Seen (v : Volume) (dir i : ℕ) (d : Slot) : Type 0 where
  pub at : ℕ
  pub found : (slot_ptr v dir i).0 ≡ some at
  pub bytes : slot_at (slot_ptr v dir i).1 at ≡ d
  pub coherent : Coherent (slot_ptr v dir i).1
  pub same : (e j : ℕ) → slot_of (slot_ptr v dir i).1 e j ≡ slot_of v e j

pub seen :
    (v : Volume) (dir i : ℕ) (d : Slot) → Coherent v → slot_of v dir i ≡ some d → Seen v dir i d
seen v dir i d c e =
    let r = slot_ptr-Reads v dir i c in
    let w = (slot_ptr v dir i).1 in
    elim (Option-cases (slot_ptr v dir i).0) [
      | inl off ↦ absurd (none-ne-some d ((rw (slot_seen, off) at r.seen) ∙ e))
      | inr (at, on) ↦ record {
        at = at;
        found = on;
        bytes = some-injective _ _ ((rw (slot_seen, on) at r.seen) ∙ e);
        coherent = r.coherent;
        same = λ dir2 j.
            ap (λ x. slot_of x dir2 j) r.kept
            ∙ slot_of-recached v w.dcache_lba w.dcache w.dcache_ok dir2 j;
      }
    ]

-- Where there is no such slot, slot_ptr finds none.
pub unseen :
    (v : Volume) (dir i : ℕ) → Coherent v → slot_of v dir i ≡ none → (slot_ptr v dir i).0 ≡ none
unseen v dir i c e =
    let r = slot_ptr-Reads v dir i c in
    let found : (at : ℕ)
        → (slot_ptr v dir i).0 ≡ some at
        → slot_seen (slot_ptr v dir i) ≡ some (slot_at (slot_ptr v dir i).1 at) =
      λ at on. rw (slot_seen, on) refl in
    elim (Option-cases (slot_ptr v dir i).0) [
      | inl off ↦ off
      | inr (at, on) ↦ absurd (none-ne-some _ (sym e ∙ sym r.seen ∙ found at on))
    ]
