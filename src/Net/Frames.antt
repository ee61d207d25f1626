-- ===== src/Net/Frames.antt =====
-- src/net_ip.c: the ARP cache, and frames built and taken apart.
use rvos.Common.{
  ℕ, zero, suc, ◌+◌, ◌-◌, ◌*◌, ◌/◌, ◌%◌, ◌^◌, Bool, true, false, ◌&&◌, ◌||◌, not, Option, none,
  some, List, [], ◌∷◌, ◌++◌, length, take, drop, get_or, ltb, ◌==◌, ◌!=◌, if◌then◌else◌,
}
use rvos.Tcp.Input.{Incoming}
use rvos.Net.{put16, put32, get16, get32, sum16, fold, l4_checksum}

-- The first `n` bytes are the same.
unfoldable pub same_bytes : ℕ → List ℕ → List ℕ → Bool
same_bytes zero a b = true
same_bytes (suc n) a b = (get_or a 0 0 == get_or b 0 0) && same_bytes n (drop 1 a) (drop 1 b)

abbrev pub ip_eq : List ℕ → List ℕ → Bool
ip_eq a b = same_bytes 4 a b

-- The mask is 255.255.255.0.
unfoldable pub on_link : List ℕ → List ℕ → Bool
on_link me ip = same_bytes 3 ip me

abbrev pub eth_arp : ℕ
eth_arp = 0x0806

abbrev pub eth_ipv4 : ℕ
eth_ipv4 = 0x0800

abbrev pub ip_icmp : ℕ
ip_icmp = 1

abbrev pub ip_tcp : ℕ
ip_tcp = 6

abbrev pub ip_udp : ℕ
ip_udp = 17

abbrev pub arp_max : ℕ
arp_max = 4

-- What the stack knows: its addresses, the entries in use of the ARP cache, the next identifier of a
-- packet, and the frames that it transmitted.
pub record Net : Type 0 where
  pub mac : List ℕ
  pub me : List ℕ
  pub gateway : List ℕ
  pub cache : List (List ℕ × List ℕ)
  pub ip_id : ℕ
  pub frames : List (List ℕ)

unfoldable pub arp_lookup : List (List ℕ × List ℕ) → List ℕ → Option (List ℕ)
arp_lookup [] ip = none
arp_lookup ((known, mac) ∷ cache) ip = if ip_eq known ip then some mac else arp_lookup cache ip

-- The entry for the address, with the new hardware address, where there is one.
unfoldable pub arp_refresh :
    List (List ℕ × List ℕ) → List ℕ → List ℕ → Option (List (List ℕ × List ℕ))
arp_refresh [] ip mac = none
arp_refresh ((known, old) ∷ cache) ip mac =
    let rest : Option (List (List ℕ × List ℕ)) = elim (arp_refresh cache ip mac) [
      | none ↦ none
      | some more ↦ some ((known, old) ∷ more)
    ] in
    if ip_eq known ip then some ((known, take 6 mac) ∷ cache) else rest

unfoldable pub arp_learn : List (List ℕ × List ℕ) → List ℕ → List ℕ → List (List ℕ × List ℕ)
arp_learn cache ip mac = elim (arp_refresh cache ip mac) [
  | some fresh ↦ fresh
  | none ↦ if ltb (length cache) arp_max then cache ++ ((take 4 ip, take 6 mac) ∷ []) else cache
]

unfoldable pub eth_hdr : Net → List ℕ → ℕ → List ℕ
eth_hdr n dst type = take 6 dst ++ (take 6 n.mac ++ put16 type)

unfoldable pub transmit : Net → List ℕ → Net
transmit n frame = record n { frames = n.frames ++ (frame ∷ []) }

-- The packet of ARP, for a request (1) or a reply (2).
unfoldable pub arp_packet : Net → ℕ → List ℕ → List ℕ → List ℕ
arp_packet n op tmac tip =
    put16 1 ++ (put16 eth_ipv4 ++ (6 ∷ 4 ∷ (put16 op ++ (n.mac ++ (n.me ++ (tmac ++ tip))))))

abbrev pub broadcast : List ℕ
broadcast = 0xff ∷ 0xff ∷ 0xff ∷ 0xff ∷ 0xff ∷ 0xff ∷ []

unfoldable pub arp_request : Net → List ℕ → Net
arp_request n target =
    transmit n
      (eth_hdr n broadcast eth_arp ++ arp_packet n 1 (0 ∷ 0 ∷ 0 ∷ 0 ∷ 0 ∷ 0 ∷ []) (take 4 target))

unfoldable pub arp_reply : Net → List ℕ → List ℕ → Net
arp_reply n tip tmac =
    transmit n (eth_hdr n tmac eth_arp ++ arp_packet n 2 (take 6 tmac) (take 4 tip))

-- The header of a packet, whose checksum covers it alone.
unfoldable pub ip_header : ℕ → ℕ → List ℕ → List ℕ → ℕ → List ℕ
ip_header proto id me dst len =
    let head =
      0x45 ∷ 0 ∷ (put16 (20 + len) ++ (put16 id ++ (put16 0 ++ (64 ∷ (proto % 256) ∷ [])))) in
    let ends = take 4 me ++ take 4 dst in
    head ++ (put16 (fold (sum16 (head ++ (put16 0 ++ ends)) 0)) ++ ends)

-- The frame up to the payload, or `none` where the hardware address of the next hop is asked for.
unfoldable pub ip_begin : Net → List ℕ → ℕ → ℕ → Option (List ℕ) × Net
ip_begin n dst proto len =
    let hop = if on_link n.me dst then dst else n.gateway in
    elim (arp_lookup n.cache hop) [
      | none ↦ (none, arp_request n hop)
      | some mac ↦ (
        some (eth_hdr n mac eth_ipv4 ++ ip_header proto n.ip_id n.me dst len),
        record n { ip_id = (n.ip_id + 1) % 2 ^ 32 },
      )
    ]

-- A payload behind its header, where the frame could be begun.
unfoldable pub send_packet : Net → List ℕ → ℕ → List ℕ → Bool × Net
send_packet n dst proto payload =
    let (begun, n1) = ip_begin n dst proto (length payload) in
    elim begun [ none ↦ (false, n1) | some head ↦ (true, transmit n1 (head ++ payload)) ]

-- A message of ICMP: an echo request is answered with its bytes, as a reply.
unfoldable pub icmp_input : Net → List ℕ → List ℕ → Net
icmp_input n src ic =
    let rest = drop 4 ic in
    let reply =
      0
      ∷ get_or ic 1 0
      ∷ (put16 (fold (sum16 (0 ∷ get_or ic 1 0 ∷ (put16 0 ++ rest)) 0)) ++ rest) in
    if ltb (length ic) 8 || (get_or ic 0 0 != 8) then n else (send_packet n src ip_icmp reply).1

unfoldable pub udp_datagram : List ℕ → List ℕ → ℕ → ℕ → List ℕ → List ℕ
udp_datagram me dst sport dport bytes =
    let head = put16 sport ++ (put16 dport ++ put16 (8 + length bytes)) in
    head ++ (put16 (l4_checksum ip_udp me dst (head ++ (put16 0 ++ bytes))) ++ bytes)

unfoldable pub udp_send : Net → List ℕ → ℕ → ℕ → List ℕ → Bool × Net
udp_send n dst sport dport bytes =
    send_packet n dst ip_udp (udp_datagram n.me dst sport dport bytes)

-- The header of a segment before its checksum and behind it: an option only where `mss` is not 0.
unfoldable pub tcp_head : ℕ → ℕ → ℕ → ℕ → ℕ → ℕ → ℕ → List ℕ
tcp_head sport dport seq ack flags wnd mss =
    let hlen = if mss == 0 then 20 else 24 in
    put16 sport
    ++ (put16 dport
        ++ (put32 seq ++ (put32 ack ++ ((hlen / 4 * 16 % 256) ∷ (flags % 256) ∷ put16 wnd))))

unfoldable pub tcp_tail : ℕ → List ℕ → List ℕ
tcp_tail mss bytes = put16 0 ++ ((if mss == 0 then [] else 2 ∷ 4 ∷ put16 mss) ++ bytes)

unfoldable pub tcp_bytes : List ℕ → List ℕ → ℕ → ℕ → ℕ → ℕ → ℕ → ℕ → List ℕ → ℕ → List ℕ
tcp_bytes me dip sport dport seq ack flags wnd bytes mss =
    let head = tcp_head sport dport seq ack flags wnd mss in
    let tail = tcp_tail mss bytes in
    head ++ (put16 (l4_checksum ip_tcp me dip (head ++ (put16 0 ++ tail))) ++ tail)

-- The beginning of tcp_segment: the two ports and what the segment says, unless its header is bad or
-- its checksum.
unfoldable pub tcp_parse : List ℕ → List ℕ → List ℕ → Option (ℕ × ℕ × Incoming)
tcp_parse sip me t =
    let hlen = get_or t 12 0 / 16 * 4 in
    let seg : Incoming = record {
      seq = get32 t 4;
      ack = get32 t 8;
      flags = get_or t 13 0;
      wnd = get16 t 14;
      options = drop 20 (take hlen t);
      bytes = drop hlen t;
    } in
    if ltb hlen 20 || ltb (length t) hlen
    then none
    else if l4_checksum ip_tcp sip me t != 0
    then none
    else some (get16 t 0, get16 t 2, seg)

-- A packet of ARP: who asks for this machine is remembered and told, a reply is remembered.
unfoldable pub arp_input : Net → List ℕ → Net
arp_input n a =
    let op = get16 a 6 in
    let sha = take 6 (drop 8 a) in
    let spa = take 4 (drop 14 a) in
    let learnt = record n { cache = arp_learn n.cache spa sha } in
    if ltb (length a) 28 || (get16 a 0 != 1) || (get16 a 2 != eth_ipv4)
    then n
    else if (op == 1) && ip_eq (drop 24 a) n.me
    then arp_reply learnt spa sha
    else if op == 2
    then learnt
    else n

-- What a frame that arrived is: nothing, ARP, or a packet with its protocol, its source and its payload.
pub data Arrived : Type 0 where
  dropped : Arrived
  arp : List ℕ → Arrived
  packet : ℕ → List ℕ → List ℕ → Arrived

unfoldable pub net_input : List ℕ → List ℕ → Arrived
net_input me f =
    let type = get16 f 12 in
    let ip = drop 14 f in
    let ihl = get_or ip 0 0 % 16 * 4 in
    let tot = get16 ip 2 in
    if ltb (length f) 14
    then dropped
    else if type == eth_arp
    then arp ip
    else if (type != eth_ipv4) || ltb (length f) 34
    then dropped
    else if ltb ihl 20 || ltb tot ihl || ltb (length f - 14) tot
    then dropped
    else if (fold (sum16 (take ihl ip) 0) != 0) || not (ip_eq (drop 16 ip) me)
    then dropped
    else packet (get_or ip 9 0) (take 4 (drop 12 ip)) (drop ihl (take tot ip))
