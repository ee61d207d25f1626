-- ===== src/Vfs/Union.antt =====
-- What mount, bind and unmount make of the names of a table.
use rvos.Common.{
  ℕ, ◌<◌, ◌≡◌, refl, ap, ◌∙◌, ◌≢◌, ◌↔◌, inl, inr, true, false, some, List, [], ◌∷◌, ◌++◌, arith,
  if◌then◌else◌, length, take, drop, Bool-cases,
}
use rvos.Text.{Str, streq}
use rvos.Text.Compare.{streq_refl, streq_eq}
use rvos.Vfs.{
  Mount, repl, nmount, place, insert_at, mount, bind_name, fill, make_room, server_entry,
  bind_entry, any_named, unmount,
}
use rvos.Vfs.Answers.{
  answers, joined, take-append-drop, answers-remove_named, answers-remove_named_ne, answers-hole_ne,
  answers-place,
}

-- `fill (insert_at ...)` is what both mount and bind do.
pub fill-some :
    (mnt mnt' : List Mount) (flags : ℕ) (m : Mount)
    → fill (insert_at mnt m.prefix flags) m ≡ some mnt'
    → let ms = make_room m.prefix flags mnt in
      let i = place m.prefix flags ms in
      (length ms < nmount) × (mnt' ≡ take i ms ++ (m ∷ drop i ms))
unfolding insert_at
fill-some mnt mnt' flags m e = ground arith

joined-make_room :
    (flags : ℕ) (m : Mount) (mnt : List Mount)
    → joined flags m (answers m.prefix (make_room m.prefix flags mnt))
      ≡ joined flags m (answers m.prefix mnt)
unfolding make_room
joined-make_room flags m mnt = ground arith

make_room-cleared :
    (flags : ℕ) (p : Str) (mnt : List Mount) → flags ≡ repl → answers p (make_room p flags mnt) ≡ []
unfolding make_room
make_room-cleared flags p mnt e = rw e (answers-remove_named p mnt)

answers-make_room_ne :
    (p q : Str) (flags : ℕ) (mnt : List Mount)
    → q ≢ p
    → answers q (make_room p flags mnt) ≡ answers q mnt
unfolding make_room
answers-make_room_ne p q flags mnt ne = ground (arith, answers-remove_named_ne p q mnt ne)

insert_at-answers :
    (mnt mnt' : List Mount) (flags : ℕ) (m : Mount) (q : Str)
    → fill (insert_at mnt m.prefix flags) m ≡ some mnt'
    → answers q mnt'
      ≡ (if streq q m.prefix then joined flags m (answers m.prefix mnt) else answers q mnt)
insert_at-answers mnt mnt' flags m q e = elim (Bool-cases (streq q m.prefix)) [
  | inl y ↦
      rw (y, streq_eq q m.prefix y, shape)
        (answers-place flags m ms (make_room-cleared flags m.prefix mnt)
          ∙ joined-make_room flags m mnt)
  | inr n ↦
      let ne : q ≢ m.prefix = λ h. ground (arith, n, streq_refl q, ap (streq q) h) in
      rw (n, shape, answers-hole_ne q m (take i ms) (drop i ms) ne, take-append-drop i ms)
        (answers-make_room_ne m.prefix q flags mnt ne)
]
  where
    ms : List Mount
    ms = make_room m.prefix flags mnt

    i : ℕ
    i = place m.prefix flags ms

    shape : mnt' ≡ take i ms ++ (m ∷ drop i ms)
    shape = (fill-some mnt mnt' flags m e).1

-- A mount that succeeds changes what its own name stands for, as the flags say (MREPL: the new
-- server alone; MBEFORE: first; MAFTER and any other: last), and no other name.
pub answers-mount :
    (mnt mnt' : List Mount) (p : Str) (server_task flags : ℕ) (q : Str)
    → mount mnt p server_task flags ≡ some mnt'
    → answers q mnt' ≡ (
        if streq q p
        then joined flags (server_entry p server_task) (answers p mnt)
        else answers q mnt)
unfolding mount
answers-mount mnt mnt' p server_task flags q =
    insert_at-answers mnt mnt' flags (server_entry p server_task) q

-- A bind that succeeds changes what its second name stands for, as the flags say, and no other
-- name: not even the first.
pub answers-bind_name :
    (mnt mnt' : List Mount) (old new : Str) (flags : ℕ) (q : Str)
    → bind_name mnt old new flags ≡ some mnt'
    → answers q mnt'
      ≡ (if streq q new then joined flags (bind_entry old new) (answers new mnt) else answers q mnt)
unfolding bind_name
answers-bind_name mnt mnt' old new flags q = insert_at-answers mnt mnt' flags (bind_entry old new) q

any_named-answers : (p : Str) (ms : List Mount) → any_named p ms ≡ false → answers p ms ≡ []
unfolding any_named answers
any_named-answers p [] e = refl
any_named-answers p (m ∷ ms) e = ground (arith, any_named-answers p ms)

any_named-answers_ne : (p : Str) (ms : List Mount) → any_named p ms ≡ true → answers p ms ≢ []
unfolding any_named answers
any_named-answers_ne p [] e h = ground arith
any_named-answers_ne p (m ∷ ms) e h = ground (arith, any_named-answers_ne p ms)

-- An unmount leaves its name with no answer at all and every other name with its own, in their
-- order; it reports success exactly when the name had an answer.
pub answers-unmount :
    (mnt : List Mount) (name q : Str)
    → (answers q (unmount mnt name).0 ≡ (if streq q name then [] else answers q mnt))
      × (((unmount mnt name).1 ≡ true) ↔ (answers name mnt ≢ []))
unfolding unmount
answers-unmount mnt name q = (
  elim (Bool-cases (streq q name)) [
    | inl y ↦ rw (y, streq_eq q name y) (answers-remove_named name mnt)
    | inr n ↦
        rw n (
          answers-remove_named_ne name q mnt (λ h. ground (arith, n, streq_refl q, ap (streq q) h)))
  ],
  (
    any_named-answers_ne name mnt,
    λ h. elim (Bool-cases (any_named name mnt)) [
      | inl e ↦ e
      | inr e ↦ absurd (h (any_named-answers name mnt e))
    ],
  ),
)
