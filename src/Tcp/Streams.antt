-- ===== src/Tcp/Streams.antt =====
-- Stretches of a stream of bytes, and 32-bit sequence numbers of its places.
use rvos.Common.{
  ℕ, zero, suc, ◌+◌, ◌-◌, ◌%◌, ◌^◌, ◌≤◌, ◌<◌, min, ◌≡◌, refl, ap, ◌∙◌, List, [], ◌∷◌, ◌++◌, length,
  take, drop, ltb, leb, arith,
}
use rvos.Tcp.{sub32, seq_lt, seq_le, seq_gt}

-- The `n` bytes of the stream from a place on.
abbrev pub slice : (ℕ → ℕ) → ℕ → ℕ → List ℕ
slice stream p zero = []
slice stream p (suc n) = stream p ∷ slice stream (p + 1) n

pub length-slice : (stream : ℕ → ℕ) (p n : ℕ) → length (slice stream p n) ≡ n
length-slice stream p zero = refl
length-slice stream p (suc n) = ap suc (length-slice stream (p + 1) n)

pub slice_eq : (stream : ℕ → ℕ) (p q m n : ℕ) → p ≡ q → m ≡ n → slice stream p m ≡ slice stream q n
slice_eq stream p q m n e f = ap (λ k. slice stream k m) e ∙ ap (slice stream q) f

pub slice_add :
    (stream : ℕ → ℕ) (p m n : ℕ)
    → slice stream p m ++ slice stream (p + m) n ≡ slice stream p (m + n)
slice_add stream p zero n = slice_eq stream (p + 0) p n (0 + n) (omega arith) (omega arith)
slice_add stream p (suc m) n =
    ap (λ l. stream p ∷ (slice stream (p + 1) m ++ l))
      (slice_eq stream (p + suc m) (p + 1 + m) n n (omega arith) refl)
    ∙ ap (λ l. stream p ∷ l) (slice_add stream (p + 1) m n)
    ∙ slice_eq stream p p (suc (m + n)) (suc m + n) refl (omega arith)

pub take-slice : (stream : ℕ → ℕ) (p n k : ℕ) → k ≤ n → take k (slice stream p n) ≡ slice stream p k
take-slice stream p n zero h = refl
take-slice stream p zero (suc k) h = absurd (omega arith)
take-slice stream p (suc n) (suc k) h =
    ap (λ l. stream p ∷ l) (take-slice stream (p + 1) n k (omega arith))

pub take-slice-min :
    (stream : ℕ → ℕ) (p n k : ℕ) → take k (slice stream p n) ≡ slice stream p (min k n)
take-slice-min stream p n zero = slice_eq stream p p 0 (min 0 n) refl (omega arith)
take-slice-min stream p zero (suc k) = slice_eq stream p p 0 (min (suc k) 0) refl (omega arith)
take-slice-min stream p (suc n) (suc k) =
    ap (λ l. stream p ∷ l) (take-slice-min stream (p + 1) n k)
    ∙ slice_eq stream p p (suc (min k n)) (min (suc k) (suc n)) refl (omega arith)

pub drop-slice :
    (stream : ℕ → ℕ) (p n k : ℕ) → k ≤ n → drop k (slice stream p n) ≡ slice stream (p + k) (n - k)
drop-slice stream p n zero h = slice_eq stream p (p + 0) n (n - 0) (omega arith) (omega arith)
drop-slice stream p zero (suc k) h = absurd (omega arith)
drop-slice stream p (suc n) (suc k) h =
    drop-slice stream (p + 1) n k (omega arith)
    ∙ slice_eq stream (p + 1 + k) (p + suc k) (n - k) (suc n - suc k) (omega arith) (omega arith)

-- Two places less than 2 ^ 31 apart are compared by their numbers.
module _ (p q : ℕ) (near : p < q + 2 ^ 31) (close : q < p + 2 ^ 31) where
  pub seq_lt-near : seq_lt (p % 2 ^ 32) (q % 2 ^ 32) ≡ ltb p q
  unfolding seq_lt
  seq_lt-near = ground arith

  pub seq_le-near : seq_le (p % 2 ^ 32) (q % 2 ^ 32) ≡ leb p q
  unfolding seq_le
  seq_le-near = ground arith

  pub seq_gt-near : seq_gt (p % 2 ^ 32) (q % 2 ^ 32) ≡ ltb q p
  unfolding seq_gt
  seq_gt-near = ground arith

  pub sub32-near : q ≤ p → sub32 (p % 2 ^ 32) (q % 2 ^ 32) ≡ p - q
  sub32-near h = omega arith
