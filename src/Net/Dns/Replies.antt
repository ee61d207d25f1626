-- ===== src/Net/Dns/Replies.antt =====
-- src/net_ip.c: dns_input on a reply with an address.
use rvos.Common.{
  ℕ, ◌+◌, ◌*◌, ◌/◌, ◌%◌, ◌^◌, ◌<◌, ◌≡◌, refl, ap, ◌∙◌, false, ◌||◌, List, [], ◌∷◌, ◌++◌, length,
  drop, get_or, ltb, ◌==◌, ◌!=◌, if◌then◌else◌, arith, All, length-append,
}
use rvos.Net.{put16, get16}
use rvos.Net.Dns.{
  dns_encode, skip_loop, dns_skip, ignored, no_address, cut_off, address, skip_questions,
  read_answers, dns_input,
}
use rvos.Net.Dns.Names.{dotted, IsLabel, dns_skip-dns_encode}

-- What follows the name of the question: its type and class, and one record for a pointer to it.
abbrev pub record_of : List ℕ → ℕ → ℕ → ℕ → ℕ → List ℕ → List ℕ
record_of life a b c d more =
    0
    ∷ 1
    ∷ 0
    ∷ 1
    ∷ 0xc0
    ∷ 12
    ∷ 0
    ∷ 1
    ∷ 0
    ∷ 1
    ∷ get_or life 0 0
    ∷ get_or life 1 0
    ∷ get_or life 2 0
    ∷ get_or life 3 0
    ∷ 0
    ∷ 4
    ∷ a
    ∷ b
    ∷ c
    ∷ d
    ∷ more

abbrev pub reply_of : ℕ → ℕ → List (List ℕ) → List ℕ → List ℕ
reply_of id flags ls rest =
    put16 id ++ (put16 flags ++ (0 ∷ 1 ∷ 0 ∷ 1 ∷ 0 ∷ 0 ∷ 0 ∷ 0 ∷ (dns_encode (dotted ls) ++ rest)))

skip-pointer : (rest : List ℕ) → dns_skip (0xc0 ∷ 12 ∷ rest) ≡ rest
unfolding dns_skip skip_loop
skip-pointer rest = refl

-- The record for a pointer has its address in it.
read_answers-record :
    (life : List ℕ) (a b c d : ℕ) (more : List ℕ)
    → read_answers 1 (drop 4 (record_of life a b c d more)) ≡ address (a ∷ b ∷ c ∷ d ∷ [])
unfolding read_answers get16
read_answers-record life a b c d more =
    let rest =
      0
      ∷ 1
      ∷ 0
      ∷ 1
      ∷ get_or life 0 0
      ∷ get_or life 1 0
      ∷ get_or life 2 0
      ∷ get_or life 3 0
      ∷ 0
      ∷ 4
      ∷ a
      ∷ b
      ∷ c
      ∷ d
      ∷ more in
    let skipped : dns_skip (0xc0 ∷ 12 ∷ rest) ≡ rest = skip-pointer rest in
    let some : (length (0xc0 ∷ 12 ∷ rest) == 0) ≡ false = ground arith in
    let whole : ltb (length rest) 10 ≡ false = ground arith in
    let inside : ltb (length (drop 10 rest)) 4 ≡ false = ground arith in
    let found = address (a ∷ b ∷ c ∷ d ∷ []) in
    rw skipped (
      ap
        (λ t.
          if t
          then no_address
          else if ltb (length rest) 10 || ltb (length (drop 10 rest)) 4
          then cut_off
          else found)
        some
      ∙ ap (λ t. if t || ltb (length (drop 10 rest)) 4 then cut_off else found) whole
      ∙ ap (λ t. if t then cut_off else found) inside)

-- A reply with the identifier and no error, the question that dns_encode writes for a name of labels
-- of 1 to 63 bytes, and one address for a pointer to that name, is read as the address.
pub dns_input-address :
    (id flags : ℕ) (ls : List (List ℕ)) (life : List ℕ) (a b c d : ℕ) (more : List ℕ)
    → id < 2 ^ 16
    → flags < 2 ^ 16
    → flags % 16 ≡ 0
    → All IsLabel ls
    → dns_input id (reply_of id flags ls (record_of life a b c d more))
      ≡ address (a ∷ b ∷ c ∷ d ∷ [])
unfolding dns_input skip_questions put16 get16
dns_input-address id flags ls life a b c d more hi hf no_error h =
    let tail = record_of life a b c d more in
    let question = dns_encode (dotted ls) ++ tail in
    let skipped : dns_skip question ≡ tail = dns_skip-dns_encode ls tail h in
    let size : length question ≡ length (dns_encode (dotted ls)) + length tail =
      length-append (dns_encode (dotted ls)) tail in
    let same : (id / 256 % 256 * 256 + id % 256 != id) ≡ false = ground arith in
    let fine : ((flags / 256 % 256 * 256 + flags % 256) % 16 != 0) ≡ false = ground arith in
    let full : (length question == 0) ≡ false = ground (arith, size) in
    let long : ltb (length (reply_of id flags ls tail)) 12 ≡ false = ground arith in
    rw (same, fine, full, skipped)
      (ap (λ t. if t || false then ignored else read_answers 1 (drop 4 tail)) long
        ∙ read_answers-record life a b c d more)
