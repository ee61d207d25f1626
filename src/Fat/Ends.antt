-- ===== src/Fat/Ends.antt =====
-- The loop of dscan_next of src/fat16.c ends by itself where the chain of the directory does.
use rvos.Common.{ℕ, ◌*◌, ◌/◌, ◌≤◌, ◌≡◌, refl, ◌⊎◌, true, none, List, ◌∷◌, leb, arith}
use rvos.Fat.{Volume}
use rvos.Fat.Chain.{Linked}
use rvos.Fat.Slots.{slots_per_sec, dir_sector}
use rvos.Fat.Cached.{slot_of}
use rvos.Fat.Scan.{Scan}

-- There is no slot from `n` on.
abbrev pub EndsAt : Volume → ℕ → ℕ → Type 0
EndsAt v dir n = (i : ℕ) → n ≤ i → slot_of v dir i ≡ none

pub root-EndsAt : (v : Volume) → EndsAt v 0 (v.fs.root_sectors * 16)
unfolding dir_sector
root-EndsAt v i far =
    let past : leb v.fs.root_sectors (i / slots_per_sec) ≡ true = ground arith in
    let gone : dir_sector v 0 (i / slots_per_sec) ≡ none = rw (dir_sector, past) refl in
    rw (slot_of, gone) refl

-- The root, of at most 4096 sectors, or a directory whose clusters are a chain.
abbrev pub IsDir : Volume → ℕ → Type 0
IsDir v dir =
    ((dir ≡ 0) × (v.fs.root_sectors ≤ 4096))
    ⊎ ((x : ℕ) × (xs : List ℕ) × Linked v.fs v.disk dir (x ∷ xs))
