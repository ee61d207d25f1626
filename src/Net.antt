-- ===== src/Net.antt =====
-- src/net_ip.c: bytes on the wire, checksums, and the frames of ARP, IPv4, ICMP, UDP and TCP.
pub mod Checksum
pub mod Frames
pub mod Build
pub mod Dns
pub mod Tests
use rvos.Common.{
  ℕ, zero, suc, ◌+◌, ◌-◌, ◌*◌, ◌/◌, ◌%◌, ◌^◌, List, [], ◌∷◌, ◌++◌, get_or, length, ltb,
  if◌then◌else◌,
}

-- The high byte first.
unfoldable pub put16 : ℕ → List ℕ
put16 v = (v / 256 % 256) ∷ (v % 256) ∷ []

unfoldable pub put32 : ℕ → List ℕ
put32 v = (v / 2 ^ 24 % 256) ∷ (v / 2 ^ 16 % 256) ∷ (v / 2 ^ 8 % 256) ∷ (v % 256) ∷ []

-- `get16(p + at)`
unfoldable pub get16 : List ℕ → ℕ → ℕ
get16 p at = get_or p at 0 * 256 + get_or p (at + 1) 0

unfoldable pub get32 : List ℕ → ℕ → ℕ
get32 p at =
    get_or p at 0 * 2 ^ 24
    + get_or p (at + 1) 0 * 2 ^ 16
    + get_or p (at + 2) 0 * 2 ^ 8
    + get_or p (at + 3) 0

unfoldable pub sum16 : List ℕ → ℕ → ℕ
sum16 [] sum = sum
sum16 (a ∷ []) sum = (sum + a * 256) % 2 ^ 32
sum16 (a ∷ b ∷ p) sum = sum16 p ((sum + (a * 256 + b)) % 2 ^ 32)

-- The carries of a 32-bit sum, which two rounds fold in.
unfoldable pub fold_loop : ℕ → ℕ → ℕ
fold_loop zero sum = sum
fold_loop (suc rounds) sum =
    let rest = fold_loop rounds (sum % 2 ^ 16 + sum / 2 ^ 16) in
    if ltb sum (2 ^ 16) then sum else rest

unfoldable pub fold : ℕ → ℕ
fold sum = 2 ^ 16 - 1 - fold_loop 2 sum % 2 ^ 16

-- The addresses, the protocol and the length, which are not on the wire.
unfoldable pub pseudo_header : ℕ → List ℕ → List ℕ → ℕ → List ℕ
pseudo_header proto src dst len = src ++ (dst ++ (0 ∷ (proto % 256) ∷ put16 len))

unfoldable pub l4_checksum : ℕ → List ℕ → List ℕ → List ℕ → ℕ
l4_checksum proto src dst seg =
    fold (sum16 seg (sum16 (pseudo_header proto src dst (length seg)) 0))
