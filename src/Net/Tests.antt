-- ===== src/Net/Tests.antt =====
-- A segment of two bytes between two machines, and the answer to a question for "ab.c".
use rvos.Common.{ℕ, ◌≡◌, refl, some, List, [], ◌∷◌, arith}
use rvos.Net.Frames.{tcp_bytes, tcp_parse}
use rvos.Net.Dns.{dns_input, address}
use rvos.Net.Dns.Replies.{reply_of, record_of, dns_input-address}
use rvos.Net.Build.{said, tcp_parse-tcp_bytes}

abbrev me : List ℕ
me = 10 ∷ 0 ∷ 2 ∷ 15 ∷ []

abbrev peer : List ℕ
peer = 10 ∷ 0 ∷ 2 ∷ 2 ∷ []

tcp_parse-tcp_bytes_example :
    tcp_parse me peer (tcp_bytes me peer 40001 9998 4294967295 7 24 2048 (104 ∷ 105 ∷ []) 1024)
    ≡ some (40001, 9998, said 4294967295 7 24 2048 1024 (104 ∷ 105 ∷ []))
tcp_parse-tcp_bytes_example =
    tcp_parse-tcp_bytes me peer 40001 9998 4294967295 7 24 2048 1024 (104 ∷ 105 ∷ []) (omega arith)
      refl (omega arith) refl (omega arith) (omega arith) (omega arith) (omega arith) (omega arith)
      (omega arith) (omega arith) (omega arith)

dns_input-address_example :
    dns_input 4660
      (reply_of 4660 0x8180 ((97 ∷ 98 ∷ []) ∷ (99 ∷ []) ∷ []) (record_of [] 93 184 216 34 (7 ∷ [])))
    ≡ address (93 ∷ 184 ∷ 216 ∷ 34 ∷ [])
dns_input-address_example =
    dns_input-address 4660 0x8180 ((97 ∷ 98 ∷ []) ∷ (99 ∷ []) ∷ []) [] 93 184 216 34 (7 ∷ [])
      (omega arith) (omega arith) refl
      ((omega arith, omega arith, (refl, (refl, tt))), ((omega arith, omega arith, (refl, tt)), tt))
