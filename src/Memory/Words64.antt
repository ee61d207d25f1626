-- ===== src/Memory/Words64.antt =====
-- Words of pages, written and read.
use rvos.Common.{ℕ, ◌+◌, ◌/◌, ◌%◌, ◌^◌, ◌≤◌, ◌<◌, ◌≡◌, ◌⊎◌, inl, inr, arith}
use rvos.Memory.{Memory, load32, store32, load64, store64}

store32-at :
    (m : Memory) (a v : ℕ)
    → (store32 m a v a ≡ v % 256)
      × (store32 m a v (a + 1) ≡ v / 0x100 % 256)
      × (store32 m a v (a + 2) ≡ v / 0x1_0000 % 256)
      × (store32 m a v (a + 3) ≡ v / 0x100_0000 % 256)
unfolding store32
store32-at m a v = (ground arith, ground arith, ground arith, ground arith)

store32-out : (m : Memory) (a v b : ℕ) → (b < a) ⊎ (a + 4 ≤ b) → store32 m a v b ≡ m b
unfolding store32
store32-out m a v b h = ground arith

load32-store32 : (m : Memory) (a v : ℕ) → load32 (store32 m a v) a ≡ v % 2 ^ 32
unfolding load32
load32-store32 m a v = omega (arith, store32-at m a v)

load32-store32_ne :
    (m : Memory) (a v b : ℕ) → (b + 4 ≤ a) ⊎ (a + 4 ≤ b) → load32 (store32 m a v) b ≡ load32 m b
unfolding load32
load32-store32_ne m a v b (inl h) = rw (
  store32-out m a v b (inl (omega arith)),
  store32-out m a v (b + 1) (inl (omega arith)),
  store32-out m a v (b + 2) (inl (omega arith)),
  store32-out m a v (b + 3) (inl (omega arith)),
)
load32-store32_ne m a v b (inr h) = rw (
  store32-out m a v b (inr (omega arith)),
  store32-out m a v (b + 1) (inr (omega arith)),
  store32-out m a v (b + 2) (inr (omega arith)),
  store32-out m a v (b + 3) (inr (omega arith)),
)

pub load64-store64 : (m : Memory) (a v : ℕ) → v < 2 ^ 64 → load64 (store64 m a v) a ≡ v
unfolding load64 store64
load64-store64 m a v h = omega (
  arith,
  load32-store32 (store32 m a v) (a + 4) (v / 0x1_0000_0000),
  load32-store32_ne (store32 m a v) (a + 4) (v / 0x1_0000_0000) a (inl (omega arith)),
  load32-store32 m a v,
)

pub load64-store64_ne :
    (m : Memory) (a v b : ℕ) → (b + 8 ≤ a) ⊎ (a + 8 ≤ b) → load64 (store64 m a v) b ≡ load64 m b
unfolding load64 store64
load64-store64_ne m a v b h = omega (
  arith,
  load32-store32_ne (store32 m a v) (a + 4) (v / 0x1_0000_0000) b (omega arith),
  load32-store32_ne (store32 m a v) (a + 4) (v / 0x1_0000_0000) (b + 4) (omega arith),
  load32-store32_ne m a v b (omega arith),
  load32-store32_ne m a v (b + 4) (omega arith),
)

pub store64-out : (m : Memory) (a v b : ℕ) → (b < a) ⊎ (a + 8 ≤ b) → store64 m a v b ≡ m b
unfolding store64
store64-out m a v b h = omega (
  arith,
  store32-out (store32 m a v) (a + 4) (v / 0x1_0000_0000) b (omega arith),
  store32-out m a v b (omega arith),
)

-- A word depends on its own eight bytes.
pub load64-congr :
    (m m' : Memory) (a : ℕ) → ((b : ℕ) → a ≤ b → b < a + 8 → m' b ≡ m b) → load64 m' a ≡ load64 m a
unfolding load64 load32
load64-congr m m' a h = omega (
  arith,
  h a (omega arith) (omega arith),
  h (a + 1) (omega arith) (omega arith),
  h (a + 2) (omega arith) (omega arith),
  h (a + 3) (omega arith) (omega arith),
  h (a + 4) (omega arith) (omega arith),
  h (a + 4 + 1) (omega arith) (omega arith),
  h (a + 4 + 2) (omega arith) (omega arith),
  h (a + 4 + 3) (omega arith) (omega arith),
)
