-- ===== src/Wire.antt =====
-- src/fsproto.h: the file protocol between two machines, field by field. A buffer is the list of the
-- bytes it has, and the arrays of a message are the lists of their bytes.
pub mod RoundTrip
pub mod Tests
use rvos.Common.{
  ℕ, ◌+◌, ◌*◌, ◌/◌, ◌%◌, ◌^◌, Bool, true, false, ◌||◌, Option, none, some, List, [], ◌∷◌, ◌++◌,
  length, take, drop, get_or, ltb, ◌!=◌, if◌then◌else◌,
}
use rvos.Common.Words.{slt}
use rvos.Text.{Str}
use rvos.Vfs.{path_max}

-- FS_HDR, VFS_DATA_MAX, FS_MAXMSG
abbrev pub hdr : ℕ
hdr = 32

abbrev pub data_max : ℕ
data_max = 512

abbrev pub max_msg : ℕ
max_msg = hdr + path_max + data_max

-- struct fs_msg
pub record Message : Type 0 where
  pub tag : ℕ
  pub kind : ℕ
  pub op : ℕ
  pub fd : ℕ
  pub count : ℕ
  pub result : ℕ
  pub ioctl : ℕ
  pub pathlen : ℕ
  pub datalen : ℕ
  pub path : Str
  pub data_bytes : Str

-- fs_put32 and fs_put16, in front of what follows.
abbrev pub put32 : ℕ → Str → Str
put32 v rest = (v % 256) ∷ (v / 0x100 % 256) ∷ (v / 0x1_0000 % 256) ∷ (v / 0x100_0000 % 256) ∷ rest

abbrev pub put16 : ℕ → Str → Str
put16 v rest = (v % 256) ∷ (v / 0x100 % 256) ∷ rest

abbrev pub byte_at : Str → ℕ → ℕ
byte_at bytes i = get_or bytes i 0

abbrev pub get32 : Str → ℕ → ℕ
get32 bytes i =
    byte_at bytes i
    + 0x100 * byte_at bytes (i + 1)
    + 0x1_0000 * byte_at bytes (i + 2)
    + 0x100_0000 * byte_at bytes (i + 3)

abbrev pub get16 : Str → ℕ → ℕ
get16 bytes i = byte_at bytes i + 0x100 * byte_at bytes (i + 1)

-- A length as an int, kept within 0 and `most`.
pub clamp : ℕ → ℕ → ℕ
clamp most n = if slt n 0 then 0 else if slt most n then most else n

pub header : Message → ℕ → ℕ → Str → Str
header m pl dl body = put32 (hdr + pl + dl) (
    put16 m.tag (
      (m.kind % 256)
      ∷ (m.op % 256)
      ∷ put32 m.fd (
          put32 m.count (
            put32 m.result
              (put32 (m.ioctl % 2 ^ 32) (put32 (m.ioctl / 2 ^ 32) (put16 pl (put16 dl body))))))))

pub encode : Message → ℕ → Option Str
encode m cap =
    let pl = clamp path_max m.pathlen in
    let dl = clamp data_max m.datalen in
    if slt cap (hdr + pl + dl)
    then none
    else some (header m pl dl (take pl m.path ++ take dl m.data_bytes))

-- Not yet a whole message (0), none at all (-1), or a message and how many bytes it took.
pub data Decoded : Type 0 where
  short broken : Decoded
  whole : ℕ → Message → Decoded

pub fields : Str → Message
fields bytes = record {
  tag = get16 bytes 4;
  kind = byte_at bytes 6;
  op = byte_at bytes 7;
  fd = get32 bytes 8;
  count = get32 bytes 12;
  result = get32 bytes 16;
  ioctl = get32 bytes 20 + 2 ^ 32 * get32 bytes 24;
  pathlen = get16 bytes 28;
  datalen = get16 bytes 30;
  path = take (get16 bytes 28) (drop hdr bytes);
  data_bytes = take (get16 bytes 30) (drop (get16 bytes 28) (drop hdr bytes));
}

pub decode : Str → Decoded
decode bytes =
    let len = get32 bytes 0 in
    let m = fields bytes in
    if ltb (length bytes) 4
    then short
    else if ltb len hdr || ltb max_msg len
    then broken
    else if ltb (length bytes) len
    then short
    else if ltb path_max m.pathlen
        || ltb data_max m.datalen
        || ((hdr + m.pathlen + m.datalen) != len)
    then broken
    else whole len m
