-- ===== src/Vfs/Capacity.antt =====
-- The fixed size of a namespace: VFS_NMOUNT entries.
use rvos.Common.{
  ℕ, ◌≤◌, ◌<◌, ◌≡◌, refl, ap, ◌≢◌, ◌↔◌, ◌⊎◌, inl, inr, none, some, List, [], ◌∷◌, arith, ◌==◌,
  length, take, drop, length-append, Bool-cases, Option-cases, Option, none,
}
use rvos.Text.{Str, streq}
use rvos.Vfs.{
  Mount, repl, nmount, remove_named, place, insert_at, fill, make_room, mount, bind_name, unmount,
  server_entry, bind_entry,
}
use rvos.Vfs.Answers.{answers, take-append-drop}
use rvos.Vfs.Union.{fill-some}

abbrev pub IsValid : List Mount → Type 0
IsValid mnt = length mnt ≤ nmount

length-remove_named-le : (p : Str) (ms : List Mount) → length (remove_named p ms) ≤ length ms
unfolding remove_named
length-remove_named-le p [] = omega arith
length-remove_named-le p (m ∷ ms) = ground (arith, length-remove_named-le p ms)

remove_named_of_none : (p : Str) (ms : List Mount) → answers p ms ≡ [] → remove_named p ms ≡ ms
unfolding remove_named answers
remove_named_of_none p [] e = refl
remove_named_of_none p (m ∷ ms) e = ground (arith, remove_named_of_none p ms)

length-remove_named-lt :
    (p : Str) (ms : List Mount) → answers p ms ≢ [] → length (remove_named p ms) < length ms
unfolding remove_named answers
length-remove_named-lt p [] ne = absurd (ne refl)
length-remove_named-lt p (m ∷ ms) ne = elim (Bool-cases (streq m.prefix p)) [
  | inl e ↦ rw e (omega (arith, length-remove_named-le p ms))
  | inr e ↦ rw e (omega (arith, length-remove_named-lt p ms (λ h. ne (rw e h))))
]

insert_at-none :
    (mnt : List Mount) (p : Str) (flags : ℕ)
    → (insert_at mnt p flags ≡ none) ↔ (nmount ≤ length (make_room p flags mnt))
unfolding insert_at
insert_at-none mnt p flags = ground arith

List-cases : (xs : List Mount) → (xs ≡ []) ⊎ (xs ≢ [])
List-cases [] = inl refl
List-cases (x ∷ xs) = inr (λ h. cc)

make_room_cases :
    (p : Str) (flags : ℕ) (mnt : List Mount)
    → ((flags ≡ repl) × (make_room p flags mnt ≡ remove_named p mnt))
      ⊎ ((flags ≢ repl) × (make_room p flags mnt ≡ mnt))
unfolding make_room
make_room_cases p flags mnt = elim (Bool-cases (flags == repl)) [
  | inl e ↦ inl (ground arith, rw e)
  | inr e ↦ inr (ground arith, rw e)
]

no_room :
    (mnt : List Mount) (p : Str) (flags : ℕ)
    → IsValid mnt
    → nmount ≤ length (make_room p flags mnt)
    → (length mnt ≡ nmount) × ((flags ≢ repl) ⊎ (answers p mnt ≡ []))
no_room mnt p flags v h = elim (make_room_cases p flags mnt) [
  | inl (e, r) ↦ elim (List-cases (answers p mnt)) [
    | inl d ↦ (omega (arith, ap length r, length-remove_named-le p mnt), inr d)
    | inr d ↦ absurd (omega (arith, ap length r, length-remove_named-lt p mnt d))
  ]
  | inr (ne, r) ↦ (omega (arith, ap length r), inl ne)
]

still_full :
    (mnt : List Mount) (p : Str) (flags : ℕ)
    → length mnt ≡ nmount
    → (flags ≢ repl) ⊎ (answers p mnt ≡ [])
    → nmount ≤ length (make_room p flags mnt)
still_full mnt p flags full apart = elim (make_room_cases p flags mnt) [
  | inl (e, r) ↦ elim apart [
    | inl ne ↦ absurd (ne e)
    | inr d ↦ omega (arith, ap length r, ap length (remove_named_of_none p mnt d))
  ]
  | inr (ne, r) ↦ omega (arith, ap length r)
]

-- No entry can be added exactly when the table is full and, where the name is to be replaced,
-- there is nothing of that name to take out first.
insert_at_full :
    (mnt : List Mount) (p : Str) (flags : ℕ)
    → IsValid mnt
    → (insert_at mnt p flags ≡ none)
      ↔ ((length mnt ≡ nmount) × ((flags ≢ repl) ⊎ (answers p mnt ≡ [])))
insert_at_full mnt p flags v = (
  λ e. no_room mnt p flags v ((insert_at-none mnt p flags).0 e),
  λ h. (insert_at-none mnt p flags).1 (still_full mnt p flags h.0 h.1),
)

length-fill :
    (mnt mnt' : List Mount) (flags : ℕ) (m : Mount)
    → fill (insert_at mnt m.prefix flags) m ≡ some mnt'
    → length mnt' ≤ nmount
length-fill mnt mnt' flags m e =
    let ms = make_room m.prefix flags mnt in
    let i = place m.prefix flags ms in
    let (room, shape) = fill-some mnt mnt' flags m e in
    omega (
      arith,
      ap length shape,
      length-append (take i ms) (m ∷ drop i ms),
      length-append (take i ms) (drop i ms),
      ap length (take-append-drop i ms),
    )

-- The table that a call leaves behind: a call that fails leaves it as it was.
abbrev pub left_by : List Mount → Option (List Mount) → List Mount
left_by mnt none = mnt
left_by mnt (some mnt') = mnt'

left_by-IsValid :
    (mnt : List Mount) (flags : ℕ) (m : Mount)
    → IsValid mnt
    → IsValid (left_by mnt (fill (insert_at mnt m.prefix flags) m))
left_by-IsValid mnt flags m v = elim (Option-cases (fill (insert_at mnt m.prefix flags) m)) [
  | inl e ↦ rw e v
  | inr (mnt', e) ↦ rw e (length-fill mnt mnt' flags m e)
]

-- Mount, bind and unmount keep a table within its eight entries, whether they succeed or not.
pub operations-IsValid :
    (mnt : List Mount) (p q : Str) (server_task flags : ℕ)
    → IsValid mnt
    → IsValid (left_by mnt (mount mnt p server_task flags))
      × IsValid (left_by mnt (bind_name mnt q p flags))
      × IsValid (unmount mnt p).0
unfolding mount bind_name unmount
operations-IsValid mnt p q server_task flags v = (
  left_by-IsValid mnt flags (server_entry p server_task) v,
  left_by-IsValid mnt flags (bind_entry q p) v,
  omega (arith, length-remove_named-le p mnt),
)
