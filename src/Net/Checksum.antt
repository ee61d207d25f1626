-- ===== src/Net/Checksum.antt =====
-- src/net_ip.c: what is sent with its checksum passes the test of the checksum.
use rvos.Common.{
  ℕ, zero, suc, ◌+◌, ◌-◌, ◌*◌, ◌%◌, ◌^◌, ◌≤◌, ◌<◌, ◌≡◌, refl, ap, ◌∙◌, sym, List, [], ◌∷◌, ◌++◌,
  length, arith, All, length-append,
}
use rvos.Net.{put16, sum16, fold_loop, fold, pseudo_header, l4_checksum}

-- Folding a 32-bit sum: below 2 ^ 16, the same modulo 2 ^ 16 - 1, and 0 only for 0.
fold_loop-small :
    (sum : ℕ)
    → sum < 2 ^ 32
    → (fold_loop 2 sum < 2 ^ 16)
      × (fold_loop 2 sum % 65535 ≡ sum % 65535)
      × (fold_loop 2 sum ≤ sum)
      × (0 < sum → 0 < fold_loop 2 sum)
unfolding fold_loop
fold_loop-small sum h = (ground arith, ground arith, ground arith, λ p. ground arith)

pub fold-fold : (sum : ℕ) → sum + 65535 < 2 ^ 32 → fold (sum + fold sum) ≡ 0
unfolding fold
fold-fold sum h =
    let a = fold_loop-small sum (omega arith) in
    let whole = sum + (2 ^ 16 - 1 - fold_loop 2 sum % 2 ^ 16) in
    let b = fold_loop-small whole (omega arith) in
    let some_sum : 0 < whole = omega (arith, a.0, a.1, a.2) in
    let high = b.3 some_sum in
    let all : fold_loop 2 whole ≡ 65535 = omega (arith, a.0, a.1, a.2, b.0, b.1, high) in
    ap (λ r. 2 ^ 16 - 1 - r % 2 ^ 16) all

-- Bytes, and what they can sum to.
abbrev pub AreBytes : List ℕ → Type 0
AreBytes p = All (λ b. b < 256) p

pub sum16_le : (p : List ℕ) (sum : ℕ) → AreBytes p → sum16 p sum ≤ sum + 65535 * (length p + 1)
unfolding sum16
sum16_le [] sum h = omega arith
sum16_le (a ∷ []) sum h = omega arith
sum16_le (a ∷ b ∷ p) sum h = omega (arith, sum16_le p ((sum + (a * 256 + b)) % 2 ^ 32) h.1.1)

-- A sum that starts higher is higher by as much, where it does not wrap.
pub sum16_add :
    (p : List ℕ) (sum more : ℕ)
    → AreBytes p
    → sum + more + 65535 * (length p + 1) < 2 ^ 32
    → sum16 p (sum + more) ≡ sum16 p sum + more
unfolding sum16
sum16_add [] sum more h small = refl
sum16_add (a ∷ []) sum more h small = omega arith
sum16_add (a ∷ b ∷ p) sum more h small =
    ap (sum16 p) (omega arith)
    ∙ sum16_add p (sum + (a * 256 + b)) more h.1.1 (omega arith)
    ∙ ap (λ s. sum16 p s + more) (omega arith)

-- A 16-bit field at an even place adds its value.
pub sum16-field :
    (words : ℕ) (p q : List ℕ) (sum v : ℕ)
    → length p ≡ words + words
    → AreBytes p
    → AreBytes q
    → v < 2 ^ 16
    → sum + 65535 * (length p + length q + 4) < 2 ^ 32
    → sum16 (p ++ (put16 v ++ q)) sum ≡ sum16 (p ++ (put16 0 ++ q)) sum + v
unfolding sum16 put16
sum16-field zero [] q sum v even hp hq word small =
    ap (sum16 q) (omega arith)
    ∙ sum16_add q sum v hq (omega arith)
    ∙ ap (λ s. sum16 q s + v) (omega arith)
sum16-field zero (a ∷ p) q sum v even hp hq word small = absurd (omega arith)
sum16-field (suc words) [] q sum v even hp hq word small = absurd (omega arith)
sum16-field (suc words) (a ∷ []) q sum v even hp hq word small = absurd (omega arith)
sum16-field (suc words) (a ∷ b ∷ p) q sum v even hp hq word small =
    sum16-field words p q ((sum + (a * 256 + b)) % 2 ^ 32) v (omega arith) hp.1.1 hq word
      (omega arith)

pub AreBytes-append : (p q : List ℕ) → AreBytes p → AreBytes q → AreBytes (p ++ q)
AreBytes-append [] q hp hq = hq
AreBytes-append (a ∷ p) q hp hq = (hp.0, AreBytes-append p q hp.1 hq)

pub put16-AreBytes : (v : ℕ) → AreBytes (put16 v)
unfolding put16
put16-AreBytes v = omega arith

length-field : (p q : List ℕ) (v : ℕ) → length (p ++ (put16 v ++ q)) ≡ length p + 2 + length q
unfolding put16
length-field p q v = omega (arith, length-append p (put16 v ++ q))

pseudo_header_lem :
    (proto : ℕ) (src dst : List ℕ) (len : ℕ)
    → AreBytes src
    → AreBytes dst
    → AreBytes (pseudo_header proto src dst len)
      × (length (pseudo_header proto src dst len) ≡ length src + length dst + 4)
unfolding pseudo_header put16
pseudo_header_lem proto src dst len hs hd =
    let rest = 0 ∷ (proto % 256) ∷ put16 len in
    (
      AreBytes-append src (dst ++ rest) hs (AreBytes-append dst rest hd (omega arith)),
      omega (arith, length-append src (dst ++ rest), length-append dst rest),
    )

-- A segment whose checksum field, at an even place, is filled by the checksum over itself with
-- zero there sums to zero with the same pseudo-header.
pub l4_checksum-verifies :
    (words proto : ℕ) (src dst p q : List ℕ)
    → length p ≡ words + words
    → AreBytes src
    → AreBytes dst
    → AreBytes p
    → AreBytes q
    → length src ≡ 4
    → length dst ≡ 4
    → length p + length q < 2 ^ 15
    → l4_checksum proto src dst
        (p ++ (put16 (l4_checksum proto src dst (p ++ (put16 0 ++ q))) ++ q))
      ≡ 0
unfolding l4_checksum
l4_checksum-verifies words proto src dst p q even hs hd hp hq four four' small =
    let zeroed = p ++ (put16 0 ++ q) in
    let len = length p + 2 + length q in
    let start = sum16 (pseudo_header proto src dst (length zeroed)) 0 in
    let base = sum16 zeroed start in
    let sum = fold base in
    let header = pseudo_header_lem proto src dst (length zeroed) hs hd in
    let low = sum16_le (pseudo_header proto src dst (length zeroed)) 0 header.0 in
    let bytes : AreBytes zeroed =
      AreBytes-append p (put16 0 ++ q) hp (AreBytes-append (put16 0) q (put16-AreBytes 0) hq) in
    let high = sum16_le zeroed start bytes in
    let size = length-field p q 0 in
    let same : length (p ++ (put16 sum ++ q)) ≡ length zeroed = length-field p q sum ∙ sym size in
    let word : sum < 2 ^ 16 = unfold fold in omega arith in
    ap (λ n. fold (sum16 (p ++ (put16 sum ++ q)) (sum16 (pseudo_header proto src dst n) 0))) same
    ∙ ap fold (sum16-field words p q start sum even hp hq word (omega (arith, low, header.1)))
    ∙ fold-fold base (omega (arith, low, high, header.1, size))
