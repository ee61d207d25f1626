-- ===== src/Wire/Tests.antt =====
-- A write of three bytes to /d, with two bytes of the next message behind it.
use rvos.Common.{◌≡◌, refl, [], ◌∷◌, ◌++◌, length, arith}
use rvos.Text.{Str}
use rvos.Wire.{Message, clamp, header, encode, decode, whole}
use rvos.Wire.RoundTrip.{Wellformed, decode-encode}

abbrev message : Message
message = record {
  tag = 7;
  kind = 0;
  op = 3;
  fd = 2;
  count = 3;
  result = 0xffff_ffff;
  ioctl = 0x1234_5678_9abc;
  pathlen = 2;
  datalen = 3;
  path = b'/' ∷ b'd' ∷ [];
  data_bytes = 1 ∷ 2 ∷ 3 ∷ [];
}

message-Wellformed : Wellformed message
message-Wellformed = record {
  tag_fits = omega arith;
  kind_fits = omega arith;
  op_fits = omega arith;
  fd_fits = omega arith;
  count_fits = omega arith;
  result_fits = omega arith;
  ioctl_fits = omega arith;
  path_whole = refl;
  data_whole = refl;
  path_fits = omega arith;
  data_fits = omega arith;
}

abbrev sent : Str
sent = header message 2 3 (b'/' ∷ b'd' ∷ 1 ∷ 2 ∷ 3 ∷ [])

decode-encode_example : decode (sent ++ (37 ∷ 0 ∷ [])) ≡ whole (length sent) message
unfolding encode clamp
decode-encode_example = decode-encode message 64 sent (37 ∷ 0 ∷ []) message-Wellformed refl
