-- ===== src/Dns/Query/Encoding.antt =====
-- The name of a query is that of the caller, and a long one overruns the message.
use mathlib.Core.List.{append_assoc, append-nil}
use nucleo_tests.Base.{
  ℕ, ◌+◌, ◌%◌, ◌^◌, ◌<◌, ◌≤◌, ◌≡◌, ◌≢◌, arith, refl, ap, sym, ◌∙◌, true, false, some, List, [], ◌∷◌,
  ◌++◌, length, length-append, All, ltb, ◌==◌, Bool-cases, inl, inr,
}
use nucleo_tests.Base.Run.{done, fault}
use nucleo_tests.Base.Int.{ℤ}
use nucleo_tests.Socket.{Net}
use nucleo_tests.Dns.Name.{new_name}
use nucleo_tests.Dns.Name.Labels.{IsLabel, encode_labels, dotted, new_name-encode}
use nucleo_tests.Dns.Query.{
  close_label, qname_from, qname, dns_query, dns_query_append16, send_dns_query, dns_msg_len,
}

-- A label that holds no dot.
abbrev pub IsPlain : List ℕ → Type 0
IsPlain l = IsLabel l × All (λ c. c ≢ b'.') l

no_dot : (c : ℕ) → c ≢ b'.' → (c == b'.') ≡ false
no_dot c h = ground arith

qname_from-last :
    (label l : List ℕ) → All (λ c. c ≢ b'.') l → qname_from label l ≡ close_label (label ++ l)
unfolding qname_from
qname_from-last label [] h = ap close_label (sym (append-nil label))
qname_from-last label (c ∷ []) h = rw (no_dot c h.0)
qname_from-last label (c ∷ d ∷ l) h = rw (no_dot c h.0) (
    qname_from-last (label ++ c ∷ []) (d ∷ l) h.1
    ∙ ap close_label (append_assoc label (c ∷ []) (d ∷ l)))

qname_from-dot :
    (label l : List ℕ) (d : ℕ) (name : List ℕ)
    → All (λ c. c ≢ b'.') l
    → qname_from label (l ++ b'.' ∷ d ∷ name) ≡ close_label (label ++ l) ++ qname_from [] (d ∷ name)
unfolding qname_from
qname_from-dot label [] d name h =
    ap (λ x. close_label x ++ qname_from [] (d ∷ name)) (sym (append-nil label))
qname_from-dot label (c ∷ []) d name h = rw (no_dot c h.0)
qname_from-dot label (c ∷ e ∷ l) d name h = rw (no_dot c h.0) (
    qname_from-dot (label ++ c ∷ []) (e ∷ l) d name h.1
    ∙ ap (λ x. close_label x ++ qname_from [] (d ∷ name)) (append_assoc label (c ∷ []) (e ∷ l)))

dotted-cons :
    (l : List ℕ) (ls : List (List ℕ))
    → IsLabel l
    → (d : ℕ) × (name : List ℕ) × (dotted (l ∷ ls) ≡ d ∷ name)
dotted-cons [] ls h = absurd (omega arith)
dotted-cons (c ∷ l) [] h = (c, l, refl)
dotted-cons (c ∷ l) (m ∷ ls) h = (c, l ++ b'.' ∷ dotted (m ∷ ls), refl)

close_label-lem : (l : List ℕ) → IsLabel l → close_label l ≡ length l ∷ l
close_label-lem l h = let e : length l % 256 ≡ length l = omega arith in rw e

qname_from-dotted :
    (l : List ℕ) (ls : List (List ℕ)) (rest : List ℕ)
    → IsPlain l
    → All IsPlain ls
    → qname_from [] (dotted (l ∷ ls)) ++ 0 ∷ rest ≡ encode_labels (l ∷ ls) ++ rest
qname_from-dotted l [] rest h k =
    ap (λ q. q ++ 0 ∷ rest) (qname_from-last [] l h.1 ∙ close_label-lem l h.0)
    ∙ sym (append_assoc (length l ∷ l) (0 ∷ []) rest)
qname_from-dotted l (m ∷ ls) rest h k =
    let (d, name, e) = dotted-cons m ls k.0.0 in
    let first_part : qname_from [] (l ++ b'.' ∷ dotted (m ∷ ls))
        ≡ (length l ∷ l) ++ qname_from [] (dotted (m ∷ ls)) =
      rw e (
        qname_from-dot [] l d name h.1
        ∙ ap (λ q. q ++ qname_from [] (d ∷ name)) (close_label-lem l h.0)) in
    ap (λ q. q ++ 0 ∷ rest) first_part
    ∙ (append_assoc (length l ∷ l) (qname_from [] (dotted (m ∷ ls))) (0 ∷ rest)
        ∙ (ap (λ q. (length l ∷ l) ++ q) (qname_from-dotted m ls rest k.0 k.1)
            ∙ sym (append_assoc (length l ∷ l) (encode_labels (m ∷ ls)) rest)))

qname-dotted :
    (l : List ℕ) (ls : List (List ℕ))
    → IsPlain l
    → qname (dotted (l ∷ ls)) ≡ qname_from [] (dotted (l ∷ ls))
unfolding qname
qname-dotted l ls h = let (d, name, e) = dotted-cons l ls h.0 in rw e

IsPlain-IsLabel : (ls : List (List ℕ)) → All IsPlain ls → All IsLabel ls
IsPlain-IsLabel [] h = tt
IsPlain-IsLabel (l ∷ ls) h = (h.0.0, IsPlain-IsLabel ls h.1)

-- The name in the query for a host name of plain labels, of 1 to 63 bytes each, read the way the names
-- of a response are read, is that host name.
pub dns_query-new_name :
    (l : List ℕ) (ls : List (List ℕ)) (id rounds : ℕ)
    → IsPlain l
    → All IsPlain ls
    → length (l ∷ ls) < rounds
    → length (dotted (l ∷ ls)) + 1 < 2 ^ 16
    → new_name rounds (dns_query id (dotted (l ∷ ls))) 12 ≡ done (some (dotted (l ∷ ls) ++ 0 ∷ []))
unfolding dns_query
dns_query-new_name l ls id rounds h k enough small =
    let tail = dns_query_append16 1 ++ dns_query_append16 1 in
    (new_name-encode (l ∷ ls) rounds 12 (dns_query id (dotted (l ∷ ls))) tail
      (h.0, IsPlain-IsLabel ls k) enough small
      (ap (λ q. q ++ 0 ∷ tail) (qname-dotted l ls h) ∙ qname_from-dotted l ls tail h k)).0

length-qname_from :
    (label name : List ℕ) → length label + length name ≤ length (qname_from label name)
unfolding qname_from
length-qname_from label [] = omega arith
length-qname_from label (c ∷ []) = elim (Bool-cases (c == b'.')) [
  | inl e ↦ rw e (omega arith)
  | inr e ↦ rw e (omega (arith, length-append {0} label (c ∷ [])))
]
length-qname_from label (c ∷ d ∷ name) = elim (Bool-cases (c == b'.')) [
  | inl e ↦ rw e (
      omega (
        arith,
        length-append {0} (close_label label) (qname_from [] (d ∷ name)),
        length-qname_from [] (d ∷ name),
      ))
  | inr e ↦ rw e (
      omega
        (arith, length-append {0} label (c ∷ []), length-qname_from (label ++ c ∷ []) (d ∷ name)))
]

length-qname : (name : List ℕ) → length name ≤ length (qname name)
unfolding qname
length-qname [] = omega arith
length-qname (c ∷ name) = omega (arith, length-qname_from [] (c ∷ name))

length-dns_query :
    (id : ℕ) (name : List ℕ) → length (dns_query id name) ≡ 12 + (length (qname name) + 5)
unfolding dns_query
length-dns_query id name =
    omega
      (arith, length-append {0} (qname name) (0 ∷ (dns_query_append16 1 ++ dns_query_append16 1)))

-- A host name of 496 bytes or more makes `send_dns_query` write past the message: its length is not
-- tested.
pub send_dns_query-overrun :
    {W : Type 0} (net : Net W) (sock : ℤ) (name : List ℕ) (w : W)
    → 496 ≤ length name
    → send_dns_query net sock name w ≡ fault
unfolding send_dns_query
send_dns_query-overrun net sock name w h =
    let id = (net.rand w).0 % 2 ^ 16 in
    let big : ltb dns_msg_len (length (dns_query id name)) ≡ true =
      ground (arith, length-dns_query id name, length-qname name) in
    rw big
