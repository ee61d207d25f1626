-- ===== src/Net/Dns/Names.antt =====
-- src/net_ip.c: dns_skip on the names that dns_encode writes.
use rvos.Common.{
  ℕ, zero, suc, ◌+◌, ◌/◌, ◌%◌, ◌≤◌, ◌<◌, ◌≡◌, refl, ap, ◌∙◌, false, List, [], ◌∷◌, ◌++◌, length,
  ◌==◌, arith, All, append_assoc, drop-append, length-append,
}
use rvos.Net.Dns.{full_stop, label_of, after_label, encode_loop, dns_encode, skip_loop, dns_skip}

-- Labels with dots between them.
abbrev pub dotted : List (List ℕ) → List ℕ
dotted [] = []
dotted (l ∷ []) = l
dotted (l ∷ m ∷ ls) = l ++ (full_stop ∷ dotted (m ∷ ls))

-- A label has 1 to 63 bytes, none of them a dot.
abbrev pub IsLabel : List ℕ → Type 0
IsLabel l = (0 < length l) × (length l < 64) × All (λ b. (b == full_stop) ≡ false) l

label_of-append :
    (l rest : List ℕ)
    → All (λ b. (b == full_stop) ≡ false) l
    → (label_of (l ++ (full_stop ∷ rest)) ≡ l) × (after_label (l ++ (full_stop ∷ rest)) ≡ rest)
unfolding label_of after_label
label_of-append [] rest h = (refl, refl)
label_of-append (b ∷ l) rest h =
    let more = label_of-append l rest h.1 in rw h.0 (ap (λ k. b ∷ k) more.0, more.1)

label_of-all :
    (l : List ℕ) → All (λ b. (b == full_stop) ≡ false) l → (label_of l ≡ l) × (after_label l ≡ [])
unfolding label_of after_label
label_of-all [] h = (refl, refl)
label_of-all (b ∷ l) h = let more = label_of-all l h.1 in rw h.0 (ap (λ k. b ∷ k) more.0, more.1)

-- Stepping over a label goes on behind it.
skip-label :
    (left n : ℕ) (l rest : List ℕ)
    → n ≡ length l
    → 0 < n
    → n < 64
    → skip_loop (suc left) ((n % 256) ∷ (l ++ rest)) ≡ skip_loop left rest
unfolding skip_loop
skip-label left n l rest e low high =
    let same : n % 256 ≡ length l = omega (arith, e) in
    let no_pointer : (length l / 64 % 4 == 3) ≡ false = ground (arith, e) in
    let some_bytes : (length l == 0) ≡ false = ground (arith, e) in
    rw (same, no_pointer, some_bytes) (ap (skip_loop left) (drop-append l rest))

encode-label :
    (left : ℕ) (b : ℕ) (bs l next : List ℕ)
    → label_of (b ∷ bs) ≡ l
    → after_label (b ∷ bs) ≡ next
    → encode_loop (suc left) (b ∷ bs) ≡ (length l % 256) ∷ (l ++ encode_loop left next)
unfolding encode_loop
encode-label left b bs l next e f =
    ap (λ k. (length k % 256) ∷ (k ++ encode_loop left (after_label (b ∷ bs)))) e
    ∙ ap (λ k. (length l % 256) ∷ (l ++ encode_loop left k)) f

-- The loops of dns_skip and dns_encode, by bounds that the name leaves.
skip-encode :
    (left room : ℕ) (ls : List (List ℕ)) (rest : List ℕ)
    → All IsLabel ls
    → length (dotted ls) ≤ left
    → length (dotted ls) < room
    → skip_loop room (encode_loop left (dotted ls) ++ rest) ≡ rest
unfolding encode_loop skip_loop
skip-encode left zero ls rest h enough space = absurd (omega arith)
skip-encode zero (suc room) [] rest h enough space = refl
skip-encode (suc left) (suc room) [] rest h enough space = refl
skip-encode left (suc room) ([] ∷ ls) rest h enough space = absurd (omega (arith, h.0.0))
skip-encode zero (suc room) ((b ∷ bs) ∷ []) rest h enough space = absurd (omega arith)
skip-encode zero (suc room) ((b ∷ bs) ∷ m ∷ ls) rest h enough space = absurd (omega arith)
skip-encode (suc left) (suc room) ((b ∷ bs) ∷ []) rest h enough space =
    let l = b ∷ bs in
    let all = label_of-all l h.0.2 in
    let n = length l in
    ap (λ e. skip_loop (suc room) (e ++ rest)) (encode-label left b bs l [] all.0 all.1)
    ∙ ap (λ e. skip_loop (suc room) ((n % 256) ∷ e)) (append_assoc l (encode_loop left []) rest)
    ∙ skip-label room n l (encode_loop left [] ++ rest) refl h.0.0 h.0.1
    ∙ skip-encode left room [] rest tt (omega arith) (omega arith)
skip-encode (suc left) (suc room) ((b ∷ bs) ∷ m ∷ ls) rest h enough space =
    let l = b ∷ bs in
    let next = dotted (m ∷ ls) in
    let both = label_of-append l next h.0.2 in
    let n = length l in
    let size = length-append l (full_stop ∷ next) in
    ap (λ e. skip_loop (suc room) (e ++ rest))
      (encode-label left b (bs ++ (full_stop ∷ next)) l next both.0 both.1)
    ∙ ap (λ e. skip_loop (suc room) ((n % 256) ∷ e)) (append_assoc l (encode_loop left next) rest)
    ∙ skip-label room n l (encode_loop left next ++ rest) refl h.0.0 h.0.1
    ∙ skip-encode left room (m ∷ ls) rest h.1 (omega (arith, size)) (omega (arith, size))

split_le : (bs : List ℕ) → length bs ≤ length (label_of bs) + 1 + length (after_label bs)
unfolding label_of after_label
split_le [] = omega arith
split_le (b ∷ bs) = ground (arith, split_le bs)

after_le : (bs : List ℕ) → length (after_label bs) ≤ length bs
unfolding after_label
after_le [] = omega arith
after_le (b ∷ bs) = ground (arith, after_le bs)

after_lt : (b : ℕ) (bs : List ℕ) → length (after_label (b ∷ bs)) ≤ length bs
unfolding after_label
after_lt b bs = ground (arith, after_le bs)

length-encode :
    (left : ℕ) (name : List ℕ) → length name ≤ left → length name < length (encode_loop left name)
unfolding encode_loop
length-encode zero [] h = omega arith
length-encode zero (b ∷ bs) h = absurd (omega arith)
length-encode (suc left) [] h = omega arith
length-encode (suc left) (b ∷ bs) h =
    let next = after_label (b ∷ bs) in
    omega (
      arith,
      split_le (b ∷ bs),
      length-append (label_of (b ∷ bs)) (encode_loop left next),
      length-encode left next (omega (arith, after_lt b bs)),
    )

-- dns_skip steps over what dns_encode writes for a name of labels of 1 to 63 bytes, and over no more.
pub dns_skip-dns_encode :
    (ls : List (List ℕ)) (rest : List ℕ)
    → All IsLabel ls
    → dns_skip (dns_encode (dotted ls) ++ rest) ≡ rest
unfolding dns_skip dns_encode
dns_skip-dns_encode ls rest h =
    let name = dotted ls in
    let code = encode_loop (length name) name in
    skip-encode (length name) (length (code ++ rest)) ls rest h (omega arith)
      (omega (arith, length-append code rest, length-encode (length name) name (omega arith)))
