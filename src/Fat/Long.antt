-- ===== src/Fat/Long.antt =====
-- src/fat16.c: the thirteen units of an entry of a long name.
use rvos.Common.{ℕ, ◌+◌, ◌*◌, ◌/◌, ◌%◌, List, [], ◌∷◌, update}
use rvos.Fat.Names.{Field}

abbrev pub lfn_chars : ℕ
lfn_chars = 13

abbrev pub lfn_off : List ℕ
lfn_off = 1 ∷ 3 ∷ 5 ∷ 7 ∷ 9 ∷ 14 ∷ 16 ∷ 18 ∷ 20 ∷ 22 ∷ 24 ∷ 28 ∷ 30 ∷ []

abbrev pub Units : Type 0
Units = ℕ → ℕ

-- Into `out` from `at` on; the index of the unit is `k`.
unfoldable pub get_loop : List ℕ → Field → Units → ℕ → Units
get_loop [] d out k = out
get_loop (off ∷ offs) d out k = get_loop offs d (update out k (d off + 0x100 * d (off + 1))) (k + 1)

unfoldable pub lfn_get : Field → Units → ℕ → Units
lfn_get d out at = get_loop lfn_off d out at

unfoldable pub put_loop : List ℕ → Field → Units → ℕ → Field
put_loop [] d units k = d
put_loop (off ∷ offs) d units k =
    put_loop offs (update (update d off (units k % 256)) (off + 1) (units k / 256 % 256)) units
      (k + 1)

unfoldable pub lfn_put : Field → Units → Field
lfn_put d units = put_loop lfn_off d units 0
