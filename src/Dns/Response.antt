-- ===== src/Dns/Response.antt =====
-- src/getaddrinfo.c: the response to a query, and `getaddrinfo`. A response is the whole message
-- array after it was received. `steps` are the rounds for the loops over a name.
pub mod Answers
use nucleo_tests.Base.{
  ℕ, zero, suc, ◌+◌, bit_and, Bool, true, false, ◌&&◌, ◌||◌, Option, none, some, List, [], ◌∷◌,
  ◌++◌, ◌==◌, if◌then◌else◌,
}
use nucleo_tests.Base.Bytes.{word32}
use nucleo_tests.Base.Run.{Run, done, fault, more, ◌>>=◌}
use nucleo_tests.Base.Int.{ℤ, pos, ltb_ℤ, eqb_ℤ, minus_one}
use nucleo_tests.Timespec.{Timeval}
use nucleo_tests.Inet.{htons}
use nucleo_tests.Socket.{Net, so_rcvtimeo, so_sndtimeo}
use nucleo_tests.Dns.Name.{byte_at, dns_response_get16, skip_labels, new_name}
use nucleo_tests.Dns.Query.{
  dns_msg_len, eai_fail, eai_family, eai_noname, eai_socktype, eai_system, send_dns_query,
}

-- The members that differ from one result to the next: the address and the name.
pub record AddrInfo : Type 0 where
  pub ai_addr : ℕ
  pub ai_canonname : List ℕ

abbrev pub or_null {ℓ} : {A : Type ℓ} → Option ℕ → (ℕ → Run (Option A)) → Run (Option A)
or_null none next = done none
or_null (some at) next = next at

-- The loop of `skip_questions` with the questions left; `none` is NULL.
unfoldable pub skip_questions_from : ℕ → ℕ → List ℕ → ℕ → Run (Option ℕ)
skip_questions_from steps zero msg presp = done (some presp)
skip_questions_from steps (suc left) msg presp = skip_labels steps msg presp >>= λ at.
    or_null at (λ p. skip_questions_from steps left msg (p + 4))

unfoldable pub skip_questions : ℕ → List ℕ → Run (Option ℕ)
skip_questions steps msg =
    dns_response_get16 msg 4 >>= λ qdcount. skip_questions_from steps qdcount msg 12

abbrev pub address_at : List ℕ → ℕ → Run ℕ
address_at msg at = byte_at msg at >>= λ a. byte_at msg (at + 1) >>= λ b.
    byte_at msg (at + 2) >>= λ c. byte_at msg (at + 3) >>= λ d. done (word32 a b c d)

-- The results so far with those of an entry whose fixed part is at `presp`, and where the next one is.
unfoldable pub read_entry : List ℕ → List ℕ → ℕ → List AddrInfo → Run (List AddrInfo × ℕ)
read_entry msg name presp found = dns_response_get16 msg presp >>= λ type.
    dns_response_get16 msg (presp + 2) >>= λ class.
    dns_response_get16 msg (presp + 8) >>= λ rdlength.
    if type == 1 && class == 1
    then (address_at msg (presp + 10) >>= λ addr.
        done
          (found ++ (record { ai_addr = addr; ai_canonname = name }) ∷ [], presp + (10 + rdlength)))
    else done (found, presp + (10 + rdlength))

abbrev pub skipped : Option ℕ → Run ℕ
skipped none = fault
skipped (some at) = done at

abbrev pub or_malformed {ℓ} :
    {A : Type ℓ} → Option A → (A → Run (Option (List AddrInfo))) → Run (Option (List AddrInfo))
or_malformed none next = done none
or_malformed (some a) next = next a

-- The loop over the answers, with those left; `none` where a name is malformed.
unfoldable pub answers_from : ℕ → ℕ → List ℕ → ℕ → List AddrInfo → Run (Option (List AddrInfo))
answers_from steps zero msg presp found = done (some found)
answers_from steps (suc left) msg presp found = new_name steps msg presp >>= λ name.
    or_malformed name (λ text. skip_labels steps msg presp >>= λ at.
    skipped at >>= λ p. read_entry msg text p found >>= λ r. answers_from steps left msg r.1 r.0)

-- The outcome of a response with the right identifier, and what is stored at `*res`, if anything is.
abbrev pub Outcome : Type 0
Outcome = ℤ × Option (List AddrInfo)

abbrev pub outcome_of : Option (List AddrInfo) → Outcome
outcome_of none = (eai_fail, none)
outcome_of (some found) = (pos 0, some found)

abbrev pub answers_after : ℕ → List ℕ → Option ℕ → Run Outcome
answers_after steps msg none = done (eai_fail, none)
answers_after steps msg (some presp) = dns_response_get16 msg 6 >>= λ ancount.
    answers_from steps ancount msg presp [] >>= λ found. done (outcome_of found)

unfoldable pub read_response : ℕ → List ℕ → Run Outcome
read_response steps msg = byte_at msg 3 >>= λ flags.
    let rcode = bit_and flags 0x0f in
    if rcode == 3
    then done (eai_noname, none)
    else if rcode == 0
    then (skip_questions steps msg >>= answers_after steps msg)
    else done (eai_fail, none)

abbrev pub one_second : Timeval
one_second = record { sec = pos 1; usec = pos 0 }

abbrev pub dns_port : ℕ
dns_port = 53

-- What `getaddrinfo` looks at in its hints.
pub record Hints : Type 0 where
  pub ai_family : ℕ
  pub ai_socktype : ℕ

abbrev pub family_supported : Hints → Bool
family_supported h = h.ai_family == 4 || h.ai_family == 1 || h.ai_family == 0

abbrev pub socktype_supported : Hints → Bool
socktype_supported h = h.ai_socktype == 2 || h.ai_socktype == 1 || h.ai_socktype == 0

abbrev pub hints_error : Option Hints → Option ℤ
hints_error none = none
hints_error (some h) =
    if family_supported h
    then (if socktype_supported h then none else some eai_socktype)
    else some eai_family

abbrev pub is_null : Option (List ℕ) → Bool
is_null none = true
is_null (some s) = false

module _ {W : Type 0} (net : Net W) where
  abbrev pub or_close : ℤ → ℤ × W → (W → ℤ × W) → ℤ × W
  or_close sock (ret, w) next =
      if eqb_ℤ ret minus_one then (minus_one, net.close sock w) else next w

  unfoldable pub create_socket : ℕ → W → ℤ × W
  create_socket dns_server w =
      let (sock, w1) = net.socket w in
      if eqb_ℤ sock minus_one
      then (minus_one, w1)
      else or_close sock (net.setsockopt sock (so_rcvtimeo one_second) w1) (λ w2.
        or_close sock (net.setsockopt sock (so_sndtimeo one_second) w2) (λ w3.
          or_close sock (net.connect sock dns_server (htons dns_port) w3) (λ w4. (sock, w4))))

  -- The loop, with a number of rounds; `steps` is for the loops over names.
  unfoldable pub recv_dns_response : ℕ → ℕ → ℤ → ℕ → W → Run (Outcome × W)
  recv_dns_response steps zero sock id w = more
  recv_dns_response steps (suc rounds) sock id w =
      let (len, msg, w') = net.recv sock dns_msg_len w in
      let again = recv_dns_response steps rounds sock id w' in
      if ltb_ℤ len (pos 0)
      then done ((eai_system, none), w')
      else if ltb_ℤ len (pos 12)
      then again
      else (dns_response_get16 msg 0 >>= λ got.
          if got == id then (read_response steps msg >>= λ r. done (r, w')) else again)

  abbrev pub closing : ℤ → Outcome × W → Outcome × W
  closing sock (r, w) = (r, net.close sock w)

  abbrev pub recv_if_sent : ℕ → ℕ → ℤ → ℤ × ℕ × W → Run (Outcome × W)
  recv_if_sent steps rounds sock (ret, id, w) =
      if eqb_ℤ ret (pos 0)
      then (recv_dns_response steps rounds sock id w >>= λ r. done (closing sock r))
      else done (closing sock ((ret, none), w))

  -- A name that is not given, where a service is, is read as a string: the null pointer is followed.
  abbrev pub query_for : ℤ → Option (List ℕ) → W → Run (ℤ × ℕ × W)
  query_for sock none w = fault
  query_for sock (some nodename) w = send_dns_query net sock nodename w

  abbrev pub resolve : ℕ → ℕ → ℕ → Option (List ℕ) → W → Run (Outcome × W)
  resolve steps rounds dns_server nodename w =
      let (sock, w1) = create_socket dns_server w in
      if eqb_ℤ sock minus_one
      then done ((eai_system, none), w1)
      else (query_for sock nodename w1 >>= recv_if_sent steps rounds sock)

  abbrev pub unless_refused : Option ℤ → W → (Unit {0} → Run (Outcome × W)) → Run (Outcome × W)
  unless_refused none w next = next tt
  unless_refused (some ret) w next = done ((ret, none), w)

  unfoldable pub getaddrinfo :
      ℕ → ℕ → ℕ → Option (List ℕ) → Option (List ℕ) → Option Hints → W → Run (Outcome × W)
  getaddrinfo steps rounds dns_server nodename servname hints w =
      if is_null nodename && is_null servname
      then done ((eai_noname, none), w)
      else unless_refused (hints_error hints) w (λ u. resolve steps rounds dns_server nodename w)
