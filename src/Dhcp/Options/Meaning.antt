-- ===== src/Dhcp/Options/Meaning.antt =====
-- What the parser makes of the options that a server writes, by their meaning.
use mathlib.Core.List.{append_assoc}
use nucleo_tests.Base.{
  ℕ, zero, suc, ◌+◌, ◌-◌, ◌*◌, ◌%◌, ◌≤◌, ◌≡◌, ◌≢◌, arith, refl, ap, ◌∙◌, List, [], ◌∷◌, ◌++◌,
  length, length-append, drop, drop-length-append, All, Bool, true, false, not, ◌||◌, ◌==◌,
}
use nucleo_tests.Base.Bytes.{word32}
use nucleo_tests.Base.Run.{done}
use nucleo_tests.Socket.{Net}
use nucleo_tests.Inet.{ntohl}
use nucleo_tests.Dhcp.Options.{
  Parsed, opt_end, store_option, parse_from, dhcp_parse_options, set_lease,
}

-- The four bytes of an address.
abbrev pub Address : Type 0
Address = ℕ × ℕ × ℕ × ℕ

-- The options of RFC 2132 that the client reads, where those with several addresses have their
-- first one apart; one that it does not, and padding.
pub data ServerOption : Type 0 where
  pad : ServerOption
  message_type : ℕ → ServerOption
  server_identifier lease_time subnet_mask : ℕ → ℕ → ℕ → ℕ → ServerOption
  router name_server : ℕ → ℕ → ℕ → ℕ → List Address → ServerOption
  other : ℕ → List ℕ → ServerOption

abbrev pub addresses : List Address → List ℕ
addresses [] = []
addresses ((a, b, c, d) ∷ more) = a ∷ b ∷ c ∷ d ∷ addresses more

-- How each lies in the message: a code, a length and a value.
abbrev pub encode : ServerOption → List ℕ
encode pad = 0 ∷ []
encode (message_type t) = 53 ∷ 1 ∷ t ∷ []
encode (server_identifier a b c d) = 54 ∷ 4 ∷ a ∷ b ∷ c ∷ d ∷ []
encode (lease_time a b c d) = 51 ∷ 4 ∷ a ∷ b ∷ c ∷ d ∷ []
encode (subnet_mask a b c d) = 1 ∷ 4 ∷ a ∷ b ∷ c ∷ d ∷ []
encode (router a b c d more) = 3 ∷ (4 + length (addresses more)) ∷ a ∷ b ∷ c ∷ d ∷ addresses more
encode (name_server a b c d more) =
    6 ∷ (4 + length (addresses more)) ∷ a ∷ b ∷ c ∷ d ∷ addresses more
encode (other code value) = code ∷ length value ∷ value

abbrev pub encode_all : List ServerOption → List ℕ
encode_all [] = []
encode_all (o ∷ os) = encode o ++ encode_all os

-- An option of another kind has a code of its own.
abbrev pub IsOther : ServerOption → Type 0
IsOther (other code value) =
    (code ≢ 0)
    × (code ≢ 255)
    × (code ≢ 53)
    × (code ≢ 54)
    × (code ≢ 51)
    × (code ≢ 1)
    × (code ≢ 3)
    × (code ≢ 6)
IsOther _ = Unit

abbrev pub is_one : List Address → Bool
is_one [] = true
is_one (_ ∷ _) = false

length-addresses : (more : List Address) → length (addresses more) ≡ length more * 4
length-addresses [] = omega arith
length-addresses (_ ∷ more) = omega (arith, length-addresses more)

-- The two tests of a length, on that of a list of addresses.
one_test : (more : List Address) → (4 + length (addresses more) == 4) ≡ is_one more
one_test [] = refl
one_test (_ ∷ more) = ground arith

whole_test : (more : List Address) → ((4 + length (addresses more)) % 4 == 0) ≡ true
whole_test more = ground (arith, length-addresses more)

past_addresses :
    (a b c d : ℕ) (more : List Address) (rest : List ℕ)
    → drop (4 + length (addresses more)) (a ∷ b ∷ c ∷ d ∷ (addresses more ++ rest)) ≡ rest
past_addresses a b c d more rest =
    let four : 4 + length (addresses more) ≡ length (a ∷ b ∷ c ∷ d ∷ addresses more) =
      omega arith in
    rw four (drop-length-append (a ∷ b ∷ c ∷ d ∷ addresses more) rest)

or_false : (b : Bool) → (b || false) ≡ b
or_false true = refl
or_false false = refl

ne_test : (a b : ℕ) → a ≢ b → (a == b) ≡ false
ne_test a b h = ground arith

encode-pos : (o : ServerOption) → 1 ≤ length (encode o)
encode-pos pad = omega arith
encode-pos (message_type t) = omega arith
encode-pos (server_identifier a b c d) = omega arith
encode-pos (lease_time a b c d) = omega arith
encode-pos (subnet_mask a b c d) = omega arith
encode-pos (router a b c d more) = omega arith
encode-pos (name_server a b c d more) = omega arith
encode-pos (other code value) = omega arith

pub length-le-encode_all : (os : List ServerOption) → length os ≤ length (encode_all os)
length-le-encode_all [] = omega arith
length-le-encode_all (o ∷ os) =
    omega
      (arith, length-le-encode_all os, encode-pos o, length-append {0} (encode o) (encode_all os))

module _ {W : Type 0} (net : Net W) where
  -- What an option tells the client: more than one router is an error of length.
  abbrev pub tell : ServerOption → Parsed → W → Parsed × W
  tell pad r w = (r, w)
  tell (message_type t) r w = (record r { type = t }, w)
  tell (server_identifier a b c d) r w =
      (record r { options = record r.options { dhcp_server = word32 a b c d } }, w)
  tell (lease_time a b c d) r w = set_lease net (ntohl (word32 a b c d)) r w
  tell (subnet_mask a b c d) r w =
      (record r { options = record r.options { subnet = word32 a b c d } }, w)
  tell (router a b c d more) r w = (
    record r {
      options = record r.options { gateway = word32 a b c d };
      len_error = r.len_error || not (is_one more);
    },
    w,
  )
  tell (name_server a b c d more) r w =
      (record r { options = record r.options { dns_server = word32 a b c d } }, w)
  tell (other code value) r w = (r, w)

  abbrev pub tell_all : List ServerOption → Parsed → W → Parsed × W
  tell_all [] r w = (r, w)
  tell_all (o ∷ os) r w = let s = tell o r w in tell_all os s.0 s.1

  -- One turn of the loop reads one option.
  parse-encode :
      (o : ServerOption)
      → IsOther o
      → (rounds : ℕ) (rest : List ℕ) (l n : ℕ) (r : Parsed) (w : W) → suc l ≡ length (encode o) + n
      → parse_from net (suc rounds) (encode o ++ rest) (suc l) r w
        ≡ parse_from net rounds rest n (tell o r w).0 (tell o r w).1
  unfolding parse_from store_option
  parse-encode pad h rounds rest l n r w e = let e' : l ≡ n = omega arith in rw e'
  parse-encode (message_type t) h rounds rest l n r w e =
      let e' : l - 1 - 1 ≡ n = omega arith in rw (e', or_false r.len_error)
  parse-encode (server_identifier a b c d) h rounds rest l n r w e =
      let e' : l - 1 - 4 ≡ n = omega arith in rw (e', or_false r.len_error)
  parse-encode (lease_time a b c d) h rounds rest l n r w e =
      let e' : l - 1 - 4 ≡ n = omega arith in rw (e', or_false r.len_error)
  parse-encode (subnet_mask a b c d) h rounds rest l n r w e =
      let e' : l - 1 - 4 ≡ n = omega arith in rw (e', or_false r.len_error)
  parse-encode (router a b c d more) h rounds rest l n r w e =
      let e' : l - 1 - (4 + length (addresses more)) ≡ n = omega arith in
      rw (e', one_test more, past_addresses a b c d more rest)
  parse-encode (name_server a b c d more) h rounds rest l n r w e =
      let e' : l - 1 - (4 + length (addresses more)) ≡ n = omega arith in
      rw (e', whole_test more, or_false r.len_error, past_addresses a b c d more rest)
  parse-encode (other code value) (p0, pe, p53, p54, p51, p1, p3, p6) rounds rest l n r w e =
      let e' : l - 1 - length value ≡ n = omega arith in
      rw (
        ne_test code 0 p0,
        ne_test code 255 pe,
        ne_test code 53 p53,
        ne_test code 54 p54,
        ne_test code 51 p51,
        ne_test code 1 p1,
        ne_test code 3 p3,
        ne_test code 6 p6,
        drop-length-append value rest,
        e',
      )

  pub parse-encode_all :
      (os : List ServerOption)
      → All IsOther os
      → (rounds k : ℕ) (rest : List ℕ) (l n : ℕ) (r : Parsed) (w : W) → rounds ≡ length os + k
      → l ≡ length (encode_all os) + n
      → parse_from net rounds (encode_all os ++ rest) l r w
        ≡ parse_from net k rest n (tell_all os r w).0 (tell_all os r w).1
  parse-encode_all [] h rounds k rest l n r w e f =
      let e' : rounds ≡ k = omega arith in let f' : l ≡ n = omega arith in rw (e', f')
  parse-encode_all (o ∷ os) h zero k rest l n r w e f = absurd (omega arith)
  parse-encode_all (o ∷ os) h (suc rounds) k rest zero n r w e f =
      absurd (omega (arith, encode-pos o, length-append {0} (encode o) (encode_all os)))
  parse-encode_all (o ∷ os) h (suc rounds) k rest (suc l) n r w e f =
      ap (λ b. parse_from net (suc rounds) b (suc l) r w)
        (append_assoc (encode o) (encode_all os) rest)
      ∙ (parse-encode o h.0 rounds (encode_all os ++ rest) l (length (encode_all os) + n) r w
            (omega (arith, length-append {0} (encode o) (encode_all os)))
          ∙ parse-encode_all os h.1 rounds k rest (length (encode_all os) + n) n (tell o r w).0
              (tell o r w).1 (omega arith) refl)

  -- With any options that a server writes with their lengths, the routers and the name servers with
  -- one address or several, in any order, and an end after them, the parser holds what the options
  -- tell, each overriding those before it, of several addresses the first. It reports an error of
  -- length exactly if one was reported before or an option has several routers. Whatever lies behind
  -- the end is not looked at.
  pub parse_options-encode :
      (os : List ServerOption)
      → All IsOther os
      → (rest : List ℕ) (n : ℕ) (r : Parsed) (w : W)
      → dhcp_parse_options net
          (encode_all os ++ opt_end ∷ rest)
          (length (encode_all os) + suc n)
          r
          w
        ≡ done (tell_all os r w)
  unfolding dhcp_parse_options parse_from
  parse_options-encode os h rest n r w =
      let size = length (encode_all os) + suc n in
      parse-encode_all os h (suc size) (suc (size - length os)) (opt_end ∷ rest) size (suc n) r w
        (omega (arith, length-le-encode_all os)) refl
