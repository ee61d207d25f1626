-- ===== src/Net/Dns.antt =====
-- src/net_ip.c: the question to the resolver and its answer, as lists of bytes.
pub mod Names
pub mod Replies
use rvos.Common.{
  ℕ, zero, suc, ◌+◌, ◌-◌, ◌*◌, ◌/◌, ◌%◌, ◌^◌, ◌≤◌, ◌<◌, ◌≡◌, refl, ap, ◌∙◌, sym, Bool, true, false,
  ◌&&◌, ◌||◌, List, [], ◌∷◌, ◌++◌, length, take, drop, get_or, ltb, ◌==◌, ◌!=◌, if◌then◌else◌,
  arith, All, append_assoc, drop-append, length-append,
}
use rvos.Net.{put16, get16}

abbrev pub full_stop : ℕ
full_stop = b'.'

-- The bytes before the first dot, and those behind it.
unfoldable pub label_of : List ℕ → List ℕ
label_of [] = []
label_of (b ∷ bs) = if b == full_stop then [] else b ∷ label_of bs

unfoldable pub after_label : List ℕ → List ℕ
after_label [] = []
after_label (b ∷ bs) = if b == full_stop then bs else after_label bs

-- By the bytes that are left of the name.
unfoldable pub encode_loop : ℕ → List ℕ → List ℕ
encode_loop zero name = 0 ∷ []
encode_loop (suc left) [] = 0 ∷ []
encode_loop (suc left) (b ∷ bs) =
    let label = label_of (b ∷ bs) in
    (length label % 256) ∷ (label ++ encode_loop left (after_label (b ∷ bs)))

unfoldable pub dns_encode : List ℕ → List ℕ
dns_encode name = encode_loop (length name) name

-- The message of dns_send.
unfoldable pub dns_query : ℕ → List ℕ → List ℕ
dns_query id name =
    put16 id
    ++ (put16 0x0100
        ++ (put16 1 ++ (0 ∷ 0 ∷ 0 ∷ 0 ∷ 0 ∷ 0 ∷ (dns_encode name ++ (put16 1 ++ put16 1)))))

-- What is behind a name, spelled out or a pointer. By the bytes that are left.
unfoldable pub skip_loop : ℕ → List ℕ → List ℕ
skip_loop zero p = []
skip_loop (suc left) [] = []
skip_loop (suc left) (b ∷ p) =
    let rest = skip_loop left (drop b p) in
    if b / 64 % 4 == 3 then drop 1 p else if b == 0 then p else rest

unfoldable pub dns_skip : List ℕ → List ℕ
dns_skip p = skip_loop (length p) p

-- What a reply says: it is not one, the resolver refuses, there is no address, it is cut off, or an
-- address.
pub data Answer : Type 0 where
  ignored : Answer
  refused : Answer
  no_address : Answer
  cut_off : Answer
  address : List ℕ → Answer

unfoldable pub skip_questions : ℕ → List ℕ → List ℕ
skip_questions zero p = p
skip_questions (suc n) p =
    let rest = skip_questions n (drop 4 (dns_skip p)) in if length p == 0 then p else rest

unfoldable pub read_answers : ℕ → List ℕ → Answer
read_answers zero p = no_address
read_answers (suc n) p =
    let at = dns_skip p in
    let size = get16 at 8 in
    let bytes = drop 10 at in
    let rest = read_answers n (drop size bytes) in
    if length p == 0
    then no_address
    else if ltb (length at) 10 || ltb (length bytes) size
    then cut_off
    else if (get16 at 0 == 1) && (size == 4)
    then address (take 4 bytes)
    else rest

-- dns_input, where a question with the identifier is pending.
unfoldable pub dns_input : ℕ → List ℕ → Answer
dns_input id m =
    if ltb (length m) 12 || (get16 m 0 != id)
    then ignored
    else if get16 m 2 % 16 != 0
    then refused
    else read_answers (get16 m 6) (skip_questions (get16 m 4) (drop 12 m))
