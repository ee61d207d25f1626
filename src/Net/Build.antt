-- ===== src/Net/Build.antt =====
-- src/net_ip.c: a segment that tcp_build makes is read back by tcp_segment.
use rvos.Common.{
  if_cases, ℕ, zero, suc, ◌+◌, ◌*◌, ◌/◌, ◌%◌, ◌^◌, ◌≤◌, ◌<◌, ◌≡◌, refl, ap, ◌∙◌, false, some, List,
  [], ◌∷◌, ◌++◌, length, take, drop, get_or, ltb, ◌==◌, if◌then◌else◌, arith, length-append,
  drop-append,
}
use rvos.Tcp.Input.{Incoming}
use rvos.Net.{put16, put32, get16, get32, l4_checksum}
use rvos.Net.Checksum.{AreBytes, l4_checksum-verifies}
use rvos.Net.Frames.{ip_tcp, tcp_head, tcp_tail, tcp_bytes, tcp_parse}

-- The one option that is sent.
abbrev pub options_of : ℕ → List ℕ
options_of mss = if mss == 0 then [] else 2 ∷ 4 ∷ put16 mss

-- The parts of a segment.
abbrev pub said : ℕ → ℕ → ℕ → ℕ → ℕ → List ℕ → Incoming
said seq ack flags wnd mss bytes = record {
  seq = seq;
  ack = ack;
  flags = flags;
  wnd = wnd;
  options = options_of mss;
  bytes = bytes;
}

length-put16 : (v : ℕ) → length (put16 v) ≡ 2
unfolding put16
length-put16 v = refl

tcp_head_lem :
    (sport dport seq ack flags wnd mss : ℕ)
    → let head = tcp_head sport dport seq ack flags wnd mss in (length head ≡ 16) × AreBytes head
unfolding tcp_head put16 put32
tcp_head_lem sport dport seq ack flags wnd mss = (omega arith, omega arith)

tcp_tail_lem :
    (mss : ℕ) (bytes : List ℕ)
    → AreBytes bytes
    → (length (tcp_tail mss bytes) ≡ 2 + length (options_of mss) + length bytes)
      × (length (options_of mss) ≤ 4)
      × AreBytes (tcp_tail mss bytes)
unfolding tcp_tail put16
tcp_tail_lem mss bytes h =
    let high : mss / 256 % 256 < 256 = omega arith in
    let low : mss % 256 < 256 = omega arith in
    let small : (n : ℕ) → n < 5 → n < 256 = λ n l. omega arith in
    let zero_byte = small 0 (omega arith) in
    if_cases
      (λ (o : List ℕ).
        (length (0 ∷ 0 ∷ (o ++ bytes)) ≡ 2 + length o + length bytes)
        × (length o ≤ 4)
        × AreBytes (0 ∷ 0 ∷ (o ++ bytes)))
      (mss == 0) _ _ (λ e. (omega arith, omega arith, (zero_byte, (zero_byte, h))))
      (λ e. (
        omega arith,
        omega arith,
        (
          zero_byte,
          (zero_byte, (small 2 (omega arith), (small 4 (omega arith), (high, (low, h))))),
        ),
      ))

-- The fields of a segment, whatever its checksum.
fields :
    (sport dport seq ack flags wnd mss sum : ℕ) (bytes : List ℕ)
    → sport < 2 ^ 16
    → dport < 2 ^ 16
    → seq < 2 ^ 32
    → ack < 2 ^ 32
    → flags < 2 ^ 8
    → wnd < 2 ^ 16
    → let t = tcp_head sport dport seq ack flags wnd mss ++ (put16 sum ++ tcp_tail mss bytes) in
      (get16 t 0 ≡ sport)
      × (get16 t 2 ≡ dport)
      × (get32 t 4 ≡ seq)
      × (get32 t 8 ≡ ack)
      × (get_or t 13 0 ≡ flags)
      × (get16 t 14 ≡ wnd)
      × (get_or t 12 0 / 16 * 4 ≡ 20 + length (options_of mss))
      × (drop 20 t ≡ options_of mss ++ bytes)
unfolding tcp_head tcp_tail put16 put32 get16 get32
fields sport dport seq ack flags wnd mss sum bytes hs hd hq ha hf hw = (
  omega arith,
  omega arith,
  omega arith,
  omega arith,
  omega arith,
  omega arith,
  ground arith,
  refl,
)

drop-drop : (n k : ℕ) (t : List ℕ) → drop (n + k) t ≡ drop k (drop n t)
drop-drop zero k t = ap (λ m. drop m t) (omega arith)
drop-drop (suc n) zero [] = ap (λ m. drop m []) {x = suc n + 0} {y = suc (n + 0)} (omega arith)
drop-drop (suc n) (suc k) [] =
    ap (λ m. drop m []) {x = suc n + suc k} {y = suc (n + suc k)} (omega arith)
drop-drop (suc n) k (x ∷ t) =
    ap (λ m. drop m (x ∷ t)) {x = suc n + k} {y = suc (n + k)} (omega arith) ∙ drop-drop n k t

drop-take : (n k : ℕ) (t : List ℕ) → drop n (take (n + k) t) ≡ take k (drop n t)
drop-take zero k t = ap (λ m. take m t) (omega arith)
drop-take (suc n) zero [] =
    ap (λ m. drop (suc n) (take m [])) {x = suc n + 0} {y = suc n} (omega arith)
drop-take (suc n) (suc k) [] =
    ap (λ m. drop (suc n) (take m [])) {x = suc n + suc k} {y = suc (n + suc k)} (omega arith)
drop-take (suc n) k (x ∷ t) =
    ap (λ m. drop (suc n) (take m (x ∷ t))) {x = suc n + k} {y = suc (n + k)} (omega arith)
    ∙ drop-take n k t

take-append : (o b : List ℕ) → take (length o) (o ++ b) ≡ o
take-append [] b = refl
take-append (x ∷ o) b = ap (λ l. x ∷ l) (take-append o b)

-- What is read of a segment, from what its bytes are.
parsed :
    (sip me t : List ℕ) (sport dport seq ack flags wnd mss : ℕ) (bytes : List ℕ)
    → let n = 20 + length (options_of mss) in
      (get16 t 0 ≡ sport)
      → (get16 t 2 ≡ dport)
      → (get32 t 4 ≡ seq)
      → (get32 t 8 ≡ ack)
      → (get_or t 13 0 ≡ flags)
      → (get16 t 14 ≡ wnd)
      → (get_or t 12 0 / 16 * 4 ≡ n)
      → (drop 20 (take n t) ≡ options_of mss)
      → (drop n t ≡ bytes)
      → (ltb (length t) n ≡ false)
      → (l4_checksum ip_tcp sip me t ≡ 0)
      → tcp_parse sip me t ≡ some (sport, dport, said seq ack flags wnd mss bytes)
unfolding tcp_parse
parsed sip me t sport dport seq ack flags wnd mss bytes hs hd hq ha hf hw hn ho hb fits checked =
    let enough : ltb (20 + length (options_of mss)) 20 ≡ false = ground arith in
    rw (hn, enough, fits, checked) cc

-- A segment that tcp_build makes for the address `dip` passes the checksum at that address, and
-- says there what it was made from: the ports, the numbers, the flags, the window, the one option
-- and the bytes.
pub tcp_parse-tcp_bytes :
    (me dip : List ℕ) (sport dport seq ack flags wnd mss : ℕ) (bytes : List ℕ)
    → AreBytes me
    → length me ≡ 4
    → AreBytes dip
    → length dip ≡ 4
    → AreBytes bytes
    → length bytes < 2 ^ 14
    → sport < 2 ^ 16
    → dport < 2 ^ 16
    → seq < 2 ^ 32
    → ack < 2 ^ 32
    → flags < 2 ^ 8
    → wnd < 2 ^ 16
    → tcp_parse me dip (tcp_bytes me dip sport dport seq ack flags wnd bytes mss)
      ≡ some (sport, dport, said seq ack flags wnd mss bytes)
unfolding tcp_parse tcp_bytes
tcp_parse-tcp_bytes me dip sport dport seq ack flags wnd mss bytes hm fm hi fi hb small hs hd hq ha
      hf hw =
    let head = tcp_head sport dport seq ack flags wnd mss in
    let tail = tcp_tail mss bytes in
    let sum = l4_checksum ip_tcp me dip (head ++ (put16 0 ++ tail)) in
    let t = head ++ (put16 sum ++ tail) in
    let o = options_of mss in
    let g = fields sport dport seq ack flags wnd mss sum bytes hs hd hq ha hf hw in
    let h = tcp_head_lem sport dport seq ack flags wnd mss in
    let e = tcp_tail_lem mss bytes hb in
    let checked : l4_checksum ip_tcp me dip t ≡ 0 =
      l4_checksum-verifies 8 ip_tcp me dip head tail (omega (arith, h.0)) hm hi h.1 e.2 fm fi
        (omega (arith, h.0, e.0, e.1)) in
    let opts : drop 20 (take (20 + length o) t) ≡ o =
      drop-take 20 (length o) t ∙ ap (take (length o)) g.7 ∙ take-append o bytes in
    let rest : drop (20 + length o) t ≡ bytes =
      drop-drop 20 (length o) t ∙ ap (drop (length o)) g.7 ∙ drop-append o bytes in
    let size : length t ≡ 20 + length o + length bytes = omega (
      arith,
      length-append head (put16 sum ++ tail),
      length-append (put16 sum) tail,
      length-put16 sum,
      h.0,
      e.0,
    ) in
    parsed me dip t sport dport seq ack flags wnd mss bytes g.0 g.1 g.2 g.3 g.4 g.5 g.6 opts rest
      (ground (arith, size)) checked
