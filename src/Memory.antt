-- ===== src/Memory.antt =====
-- Physical memory as the kernel sees it (RAM is identity-mapped): one byte for each address, with
-- the accesses that the kernel makes. memcpy and memset are those of src/util.c.
pub mod Words64
pub mod Blocks
use rvos.Common.{ℕ, zero, suc, ◌+◌, ◌*◌, ◌/◌, ◌%◌, update}

abbrev pub Memory : Type 0
Memory = ℕ → ℕ

-- Words, little end first. Addresses of words are aligned, so that they do not wrap.
unfoldable pub load32 : Memory → ℕ → ℕ
load32 m a = m a + 0x100 * m (a + 1) + 0x1_0000 * m (a + 2) + 0x100_0000 * m (a + 3)

unfoldable pub store32 : Memory → ℕ → ℕ → Memory
store32 m a v =
    update
      (update (update (update m a (v % 256)) (a + 1) (v / 0x100 % 256)) (a + 2)
        (v / 0x1_0000 % 256))
      (a + 3) (v / 0x100_0000 % 256)

unfoldable pub load64 : Memory → ℕ → ℕ
load64 m a = load32 m a + 0x1_0000_0000 * load32 m (a + 4)

unfoldable pub store64 : Memory → ℕ → ℕ → Memory
store64 m a v = store32 (store32 m a v) (a + 4) (v / 0x1_0000_0000)

-- `while (n--) *d++ = c`
pub memset : Memory → ℕ → ℕ → ℕ → Memory
memset m d c zero = m
memset m d c (suc n) = memset (update m d (c % 256)) (d + 1) c n

-- `while (n--) *d++ = *s++`
pub memcpy : Memory → ℕ → ℕ → ℕ → Memory
memcpy m d s zero = m
memcpy m d s (suc n) = memcpy (update m d (m s)) (d + 1) (s + 1) n
