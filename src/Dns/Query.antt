-- ===== src/Dns/Query.antt =====
-- src/getaddrinfo.c: the query for a name. `fault` is a write past the message array.
pub mod Encoding
use nucleo_tests.Base.{
  ℕ, zero, suc, ◌+◌, ◌%◌, ◌^◌, bit_or, List, [], ◌∷◌, ◌++◌, length, ltb, ◌==◌, if◌then◌else◌,
}
use nucleo_tests.Base.Bytes.{bytes16}
use nucleo_tests.Base.Run.{Run, done, fault}
use nucleo_tests.Base.Int.{ℤ, pos, ltb_ℤ}
use nucleo_tests.Inet.{htons}
use nucleo_tests.Socket.{Net}

abbrev pub dns_msg_len : ℕ
dns_msg_len = 512

abbrev pub eai_fail : ℤ
eai_fail = pos 3

abbrev pub eai_family : ℤ
eai_family = pos 4

abbrev pub eai_noname : ℤ
eai_noname = pos 6

abbrev pub eai_socktype : ℤ
eai_socktype = pos 8

abbrev pub eai_system : ℤ
eai_system = pos 9

abbrev pub dns_query_append16 : ℕ → List ℕ
dns_query_append16 hval = bytes16 (htons hval)

-- A label with its length, which is stored in one byte.
abbrev pub close_label : List ℕ → List ℕ
close_label label = (length label % 256) ∷ label

-- The loops that build QNAME, in a label with the characters so far; the name's NUL is its end. No
-- label follows a dot at the end.
unfoldable pub qname_from : List ℕ → List ℕ → List ℕ
qname_from label [] = close_label label
qname_from label (c ∷ []) = if c == b'.' then close_label label else close_label (label ++ c ∷ [])
qname_from label (c ∷ d ∷ name) =
    let ended = close_label label ++ qname_from [] (d ∷ name) in
    let longer = qname_from (label ++ c ∷ []) (d ∷ name) in if c == b'.' then ended else longer

unfoldable pub qname : List ℕ → List ℕ
unfolding qname_from
qname [] = []
qname (c ∷ name) = qname_from [] (c ∷ name)

abbrev pub query_header : ℕ → List ℕ
query_header id =
    dns_query_append16 id
    ++ 1 ∷ 0 ∷ dns_query_append16 1
    ++ dns_query_append16 0
    ++ dns_query_append16 0
    ++ dns_query_append16 0

-- The header, the name with its end, and the type and the class asked for.
unfoldable pub dns_query : ℕ → List ℕ → List ℕ
dns_query id nodename =
    query_header id ++ (qname nodename ++ 0 ∷ (dns_query_append16 1 ++ dns_query_append16 1))

module _ {W : Type 0} (net : Net W) where
  -- What is written to `*id` comes second.
  unfoldable pub send_dns_query : ℤ → List ℕ → W → Run (ℤ × ℕ × W)
  send_dns_query sock nodename w =
      let (r, w1) = net.rand w in
      let id = r % 2 ^ 16 in
      let query = dns_query id nodename in
      let (sent, w2) = net.send sock query w1 in
      if ltb dns_msg_len (length query)
      then fault
      else done ((if ltb_ℤ sent (pos 0) then eai_system else pos 0), id, w2)
