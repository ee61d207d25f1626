-- ===== src/Memory/Blocks.antt =====
-- What the two byte loops leave behind, address by address.
use rvos.Common.{ℕ, zero, suc, ◌+◌, ◌≡◌, ◌&&◌, arith, ltb, leb, if◌then◌else◌, update, ◌%◌}
use rvos.Memory.{Memory, memset}

pub memset_lem :
    (m : Memory) (d c n a : ℕ)
    → memset m d c n a ≡ (if leb d a && ltb a (d + n) then c % 256 else m a)
unfolding memset
memset_lem m d c zero a = ground arith
memset_lem m d c (suc n) a = ground (arith, memset_lem (update m d (c % 256)) (d + 1) c n a)
