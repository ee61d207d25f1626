-- ===== src/Fat/Paths.antt =====
-- src/fat16.c: paths.
use rvos.Common.{
  ℕ, zero, suc, ◌-◌, ◌/◌, ◌%◌, Option, none, some, [], ◌∷◌, length, ◌==◌, if◌then◌else◌,
}
use rvos.Text.{Str}
use rvos.Fat.{Volume, rd16}
use rvos.Fat.Scan.{Found, fat_name_max, dir_lookup}

unfoldable pub skip_slashes : Str → Str
skip_slashes [] = []
skip_slashes (c ∷ p) = let rest = skip_slashes p in if c == b'/' then rest else c ∷ p

-- At most `room` bytes of a component, and the rest of the path.
unfoldable pub component : ℕ → Str → Str × Str
component zero p = ([], p)
component (suc room) [] = ([], [])
component (suc room) (c ∷ p) =
    let (comp, rest) = component room p in if c == b'/' then ([], c ∷ p) else (c ∷ comp, rest)

-- A directory's cluster, and the leaf where the path has one.
abbrev pub Place : Type 0
Place = ℕ × Option Str

-- Down into the directory that has been found.
unfoldable pub step_into :
    Option Found × Volume → (ℕ → Volume → Option Place × Volume) → Option Place × Volume
step_into (none, v) down = (none, v)
step_into (some f, v) down =
    let inside = down (rd16 f.ent 26) v in if f.ent 11 / 16 % 2 == 1 then inside else (none, v)

-- A component, and what of the path is behind it.
unfoldable pub at_component :
    Volume → ℕ → Str → Str → (ℕ → Volume → Option Place × Volume) → Option Place × Volume
at_component v dir comp [] down = (some (dir, some comp), v)
at_component v dir comp (c ∷ rest) down = step_into (dir_lookup v dir comp) down

-- By the rounds that are left: each takes a byte of the path at least.
unfoldable pub resolve_loop : ℕ → Volume → ℕ → Str → Option Place × Volume
resolve_loop zero v dir p = (some (dir, none), v)
resolve_loop (suc rounds) v dir [] = (some (dir, none), v)
resolve_loop (suc rounds) v dir (c ∷ p) =
    let (comp, more) = component (fat_name_max - 1) (c ∷ p) in
    let rest = skip_slashes more in
    at_component v dir comp rest (λ d w. resolve_loop rounds w d rest)

unfoldable pub resolve : Volume → Str → Option Place × Volume
resolve v path = if v.fs.ok then resolve_loop (length path) v 0 (skip_slashes path) else (none, v)

-- resolve, for the callers that want a leaf.
unfoldable pub resolve_leaf : Volume → Str → Option (ℕ × Str) × Volume
resolve_leaf v path =
    let (place, v1) = resolve v path in
    elim place [
      | none ↦ (none, v1)
      | some p ↦ (elim p.1 [ none ↦ none | some leaf ↦ some (p.0, leaf) ], v1)
    ]

pub as_dir : Volume → Str → Option ℕ × Volume
as_dir v path =
    let (place, v1) = resolve v path in
    elim place [
      | none ↦ (none, v1)
      | some p ↦ elim p.1 [
        | none ↦ (some p.0, v1)
        | some leaf ↦
            let (found, v2) = dir_lookup v1 p.0 leaf in
            elim found [
              | none ↦ (none, v2)
              | some f ↦ if f.ent 11 / 16 % 2 == 1 then (some (rd16 f.ent 26), v2) else (none, v2)
            ]
      ]
    ]
