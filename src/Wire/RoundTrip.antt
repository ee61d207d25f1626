-- ===== src/Wire/RoundTrip.antt =====
-- What is encoded is decoded, whatever follows it on the stream.
use rvos.Common.{
  ℕ, ◌+◌, ◌*◌, ◌/◌, ◌%◌, ◌^◌, ◌≤◌, ◌<◌, ◌≡◌, refl, sym, ap, ◌∙◌, false, some, [], ◌∷◌, ◌++◌, length,
  take, drop, ltb, ◌!=◌, arith, length-append, drop-append, append_assoc, take_all,
}
use rvos.Text.{Str}
use rvos.Vfs.{path_max}
use rvos.Wire.{Message, hdr, data_max, max_msg, clamp, header, encode, fields, decode, whole, get32}

-- A message whose fields are of their widths and whose lengths are those of its arrays.
pub record Wellformed (m : Message) : Type 0 where
  pub tag_fits : m.tag < 2 ^ 16
  pub kind_fits : m.kind < 256
  pub op_fits : m.op < 256
  pub fd_fits : m.fd < 2 ^ 32
  pub count_fits : m.count < 2 ^ 32
  pub result_fits : m.result < 2 ^ 32
  pub ioctl_fits : m.ioctl < 2 ^ 64
  pub path_whole : m.pathlen ≡ length m.path
  pub data_whole : m.datalen ≡ length m.data_bytes
  pub path_fits : m.pathlen ≤ path_max
  pub data_fits : m.datalen ≤ data_max

take-append : (xs ys : Str) → take (length xs) (xs ++ ys) ≡ xs
take-append [] ys = refl
take-append (x ∷ xs) ys = ap (λ l. x ∷ l) (take-append xs ys)

clamp_inside : (most n : ℕ) → most < 2 ^ 31 → n ≤ most → clamp most n ≡ n
unfolding clamp
clamp_inside most n small inside = ground arith

abbrev on_wire : Message → Str → Str
on_wire m rest = header m m.pathlen m.datalen (m.path ++ (m.data_bytes ++ rest))

word16 : (v : ℕ) → v < 2 ^ 16 → v % 256 + 0x100 * (v / 0x100 % 256) ≡ v
word16 v h = omega arith

word32 :
    (v : ℕ)
    → v < 2 ^ 32
    → v % 256
        + 0x100 * (v / 0x100 % 256)
        + 0x1_0000 * (v / 0x1_0000 % 256)
        + 0x100_0000 * (v / 0x100_0000 % 256)
      ≡ v
word32 v h = omega arith

fields-header : (m : Message) (rest : Str) → Wellformed m → fields (on_wire m rest) ≡ m
unfolding fields header
fields-header m rest w =
    let path_taken : take m.pathlen (m.path ++ (m.data_bytes ++ rest)) ≡ m.path =
      ap (λ n. take n (m.path ++ (m.data_bytes ++ rest))) w.path_whole
      ∙ take-append m.path (m.data_bytes ++ rest) in
    let path_dropped : drop m.pathlen (m.path ++ (m.data_bytes ++ rest)) ≡ m.data_bytes ++ rest =
      ap (λ n. drop n (m.path ++ (m.data_bytes ++ rest))) w.path_whole
      ∙ drop-append m.path (m.data_bytes ++ rest) in
    let data_taken : take m.datalen (m.data_bytes ++ rest) ≡ m.data_bytes =
      ap (λ n. take n (m.data_bytes ++ rest)) w.data_whole ∙ take-append m.data_bytes rest in
    let kind_kept : m.kind % 256 ≡ m.kind = omega (arith, w.kind_fits) in
    let op_kept : m.op % 256 ≡ m.op = omega (arith, w.op_fits) in
    let halves : m.ioctl % 2 ^ 32 + 2 ^ 32 * (m.ioctl / 2 ^ 32) ≡ m.ioctl = omega arith in
    rw
      (
        word16 m.tag w.tag_fits,
        kind_kept,
        op_kept,
        word32 m.fd w.fd_fits,
        word32 m.count w.count_fits,
        word32 m.result w.result_fits,
        word32 (m.ioctl % 2 ^ 32) (omega arith),
        word32 (m.ioctl / 2 ^ 32) (omega (arith, w.ioctl_fits)),
        halves,
        word16 m.pathlen (omega (arith, w.path_fits)),
        word16 m.datalen (omega (arith, w.data_fits)),
        path_taken,
        path_dropped,
        data_taken,
      )
      refl

-- Where the lengths agree, the fields are the message.
decode_whole :
    (bytes : Str) (m : Message) (n : ℕ)
    → get32 bytes 0 ≡ n
    → fields bytes ≡ m
    → n ≡ hdr + m.pathlen + m.datalen
    → m.pathlen ≤ path_max
    → m.datalen ≤ data_max
    → n ≤ length bytes
    → decode bytes ≡ whole n m
unfolding decode
decode_whole bytes m n says has agree path_fits data_fits enough =
    let has_length : ltb (length bytes) 4 ≡ false = ground arith in
    let not_small : ltb n hdr ≡ false = ground arith in
    let not_large : ltb max_msg n ≡ false = ground arith in
    let all_there : ltb (length bytes) n ≡ false = ground arith in
    let path_in : ltb path_max m.pathlen ≡ false = ground arith in
    let data_in : ltb data_max m.datalen ≡ false = ground arith in
    let lengths : ((hdr + m.pathlen + m.datalen) != n) ≡ false = ground arith in
    rw (says, has, has_length, not_small, not_large, all_there, path_in, data_in, lengths) refl

length-on_wire :
    (m : Message) (rest : Str) → hdr + length m.path + length m.data_bytes ≤ length (on_wire m rest)
unfolding header
length-on_wire m rest =
    omega (arith, length-append m.path (m.data_bytes ++ rest), length-append m.data_bytes rest)

decode-header :
    (m : Message) (rest : Str)
    → Wellformed m
    → decode (on_wire m rest) ≡ whole (hdr + m.pathlen + m.datalen) m
unfolding header
decode-header m rest w =
    decode_whole (on_wire m rest) m (hdr + m.pathlen + m.datalen)
      (word32 (hdr + m.pathlen + m.datalen) (omega (arith, w.path_fits, w.data_fits)))
      (fields-header m rest w) refl w.path_fits w.data_fits
      (omega (arith, length-on_wire m rest, w.path_whole, w.data_whole))

encode-some :
    (m : Message) (cap : ℕ) (out : Str)
    → Wellformed m
    → encode m cap ≡ some out
    → out ≡ header m m.pathlen m.datalen (m.path ++ m.data_bytes)
unfolding encode
encode-some m cap out w e =
    let pl : clamp path_max m.pathlen ≡ m.pathlen =
      clamp_inside path_max m.pathlen (omega arith) w.path_fits in
    let dl : clamp data_max m.datalen ≡ m.datalen =
      clamp_inside data_max m.datalen (omega arith) w.data_fits in
    let all_path : take m.pathlen m.path ≡ m.path =
      take_all m.pathlen m.path (omega (arith, w.path_whole)) in
    let all_data : take m.datalen m.data_bytes ≡ m.data_bytes =
      take_all m.datalen m.data_bytes (omega (arith, w.data_whole)) in
    let plain = rw (pl, dl, all_path, all_data) at e in ground (arith, plain)

-- A message that is encoded, with anything after it on the stream, is decoded to itself and to the
-- number of bytes it took, provided that its fields are of their widths and its lengths are those of
-- its arrays.
pub decode-encode :
    (m : Message) (cap : ℕ) (out rest : Str)
    → Wellformed m
    → encode m cap ≡ some out
    → decode (out ++ rest) ≡ whole (length out) m
unfolding header
decode-encode m cap out rest w e =
    let written = encode-some m cap out w e in
    let size : length out ≡ hdr + m.pathlen + m.datalen =
      ap length written
      ∙ omega (arith, length-append m.path m.data_bytes, w.path_whole, w.data_whole) in
    let stream : out ++ rest ≡ on_wire m rest =
      ap (λ o. o ++ rest) written
      ∙ ap (header m m.pathlen m.datalen) (append_assoc m.path m.data_bytes rest) in
    ap decode stream ∙ decode-header m rest w ∙ ap (λ n. whole n m) (sym size)
