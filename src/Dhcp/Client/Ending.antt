-- ===== src/Dhcp/Client/Ending.antt =====
-- A step of the client ends, on a network that falls silent.
use nucleo_tests.Base.{
  ℕ, zero, suc, ◌-◌, ◌<◌, ◌≤◌, ◌≡◌, arith, false, List, drop, leb, Bool-cases, inl, inr,
}
use nucleo_tests.Base.Run.{Run, Ends, Ends->>=, Ends-if}
use nucleo_tests.Base.Int.{ℤ, pos, pos_part, ltb_ℤ, eqb_ℤ, minus_one}
use nucleo_tests.Socket.{Net, SockOpt, so_rcvtimeo, so_sndtimeo, so_broadcast}
use nucleo_tests.Inet.{htons}
use nucleo_tests.Dhcp.State.{Binding, selecting, bound, same_state}
use nucleo_tests.Dhcp.Options.{Parsed, dhcp_parse_options}
use nucleo_tests.Dhcp.Options.Ending.{dhcp_parse_options-Ends}
use nucleo_tests.Dhcp.Message.{
  gen_xid, send_bootp_request, request_message, with_xid, offset_options, dhcp_message_len_max,
}
use nucleo_tests.Dhcp.Reply.{recv_bootp_reply, with_parsed, blank, bootp_check_reply}
use nucleo_tests.Dhcp.Client.{
  attempt, attempts, bootp_transaction, bootp_socket_create, get_dhcp_next_event, dhcp_step,
  dhcp_discover_retries, or_close, connect_to, set_server, bind_client, set_sndtimeo, one_second,
  inaddr_broadcast,
}

-- The network falls silent: by some measure, each message received brings it down, and no call
-- brings it up.
pub record FallsSilent {W : Type 0} (net : Net W) (left : W → ℕ) : Type 0 where
  pub received :
      (sock : ℤ) (size : ℕ) (w : W)
      → ltb_ℤ (net.recv sock size w).0 (pos 0) ≡ false
      → left (net.recv sock size w).2 < left w
  pub timed_out : (sock : ℤ) (size : ℕ) (w : W) → left (net.recv sock size w).2 ≤ left w
  pub made : (w : W) → left (net.socket w).1 ≤ left w
  pub opted : (sock : ℤ) (opt : SockOpt) (w : W) → left (net.setsockopt sock opt w).1 ≤ left w
  pub bound_to : (sock : ℤ) (addr port : ℕ) (w : W) → left (net.bind sock addr port w).1 ≤ left w
  pub connected :
      (sock : ℤ) (addr port : ℕ) (w : W) → left (net.connect sock addr port w).1 ≤ left w
  pub closed : (sock : ℤ) (w : W) → left (net.close sock w) ≤ left w
  pub sent : (sock : ℤ) (msg : List ℕ) (w : W) → left (net.send sock msg w).1 ≤ left w
  pub clocked : (w : W) → left (net.clock_realtime w).1 ≤ left w
  pub drawn : (w : W) → left (net.rand w).1 ≤ left w

module _ {W : Type 0} (net : Net W) (left : W → ℕ) (silent : FallsSilent net left) where
  abbrev Within : ℕ → ℤ × Binding × W → Type 0
  Within n r = left r.2 ≤ n

  with_parsed-Ends :
      (again : W → Run (ℤ × Binding × W)) (msg : List ℕ) (b : Binding) (n : ℕ) (s : Parsed × W)
      → Ends (Within n) (again s.1)
      → left s.1 ≤ n
      → Ends (Within n) (with_parsed again msg b s)
  with_parsed-Ends again msg b n (r, w) h k = Ends-if (Within n) r.len_error _ _ (λ _. h) (λ _. k)

  recv-Ends :
      (rounds n : ℕ) (sock : ℤ) (b : Binding) (w : W)
      → left w < rounds
      → left w ≤ n
      → Ends (Within n) (recv_bootp_reply net rounds sock b w)
  unfolding recv_bootp_reply
  recv-Ends zero n sock b w h k = absurd (omega arith)
  recv-Ends (suc rounds) n sock b w h k =
      let (size, msg, w1) = net.recv sock dhcp_message_len_max w in
      let late = silent.timed_out sock dhcp_message_len_max w in
      Ends-if (Within n) (ltb_ℤ size (pos 0)) _ _ (λ _. omega arith)
        (λ got.
          let fewer = silent.received sock dhcp_message_len_max w got in
          Ends-if (Within n) (eqb_ℤ size (pos 0)) _ _
            (λ _. recv-Ends rounds n sock b w1 (omega arith) (omega arith))
            (λ _.
              Ends-if (Within n) (leb (bootp_check_reply msg b.mac_addr b.xid) offset_options) _ _
                (λ _. recv-Ends rounds n sock b w1 (omega arith) (omega arith))
                (λ _.
                  Ends->>= (λ s. left s.1 ≤ left w1) (Within n)
                    (dhcp_parse_options net (drop 240 msg) (pos_part size - 240) blank w1) _
                    (dhcp_parse_options-Ends net (λ v. left v ≤ left w1)
                      (λ v q. omega (arith, silent.clocked v)) (drop 240 msg) (pos_part size - 240)
                      blank w1 (omega arith))
                    (λ s _ q.
                      with_parsed-Ends (recv_bootp_reply net rounds sock b) msg b n s
                        (recv-Ends rounds n sock b s.1 (omega arith) (omega arith))
                        (omega arith)))))

  with_xid-left : (b : Binding) (w : W) → left (with_xid net b w).1 ≤ left w
  unfolding gen_xid
  with_xid-left b w = elim (Bool-cases (same_state b.state selecting)) [
    | inl e ↦ rw e (omega arith)
    | inr e ↦ rw e (silent.drawn w)
  ]

  send-left :
      (sock : ℤ) (junk : List ℕ) (b : Binding) (w : W)
      → left (send_bootp_request net sock junk b w).2 ≤ left w
  unfolding send_bootp_request
  send-left sock junk b w =
      let (b1, w1) = with_xid net b w in
      let l : left (net.send sock (request_message b1 junk) w1).1 ≤ left w =
        omega (arith, with_xid-left b w, silent.sent sock (request_message b1 junk) w1) in
      elim (Bool-cases (ltb_ℤ (net.send sock (request_message b1 junk) w1).0 (pos 0))) [
        | inl e ↦ rw e l
        | inr e ↦ rw e l
      ]

  attempt-Ends :
      (junk : List ℕ) (rounds n : ℕ) (sock : ℤ) (b : Binding) (w : W)
      → left w < rounds
      → left w ≤ n
      → Ends (Within n) (attempt net junk rounds sock b w)
  unfolding attempt
  attempt-Ends junk rounds n sock b w h k =
      let (ret, b1, w1) = send_bootp_request net sock junk b w in
      let l = send-left sock junk b w in
      Ends-if (Within n) (eqb_ℤ ret (pos 0)) _ _
        (λ _.
          Ends->>= (Within n) (Within n) (recv_bootp_reply net rounds sock b1 w1) _
            (recv-Ends rounds n sock b1 w1 (omega arith) (omega arith))
            (λ r _ q. Ends-if (Within n) (eqb_ℤ r.0 (pos 0)) _ _ (λ _. q) (λ _. q)))
        (λ _. omega arith)

  attempts-Ends :
      (junk : List ℕ) (rounds n : ℕ) (tries : ℕ) (ret sock : ℤ) (b : Binding) (w : W)
      → n < rounds
      → left w ≤ n
      → Ends (Within n) (attempts net junk rounds tries ret sock b w)
  unfolding attempts
  attempts-Ends junk rounds n zero ret sock b w h k = k
  attempts-Ends junk rounds n (suc tries) ret sock b w h k =
      Ends->>= (Within n) (Within n) (attempt net junk rounds sock b w) _
        (attempt-Ends junk rounds n sock b w (omega arith) k)
        (λ r _ q.
          Ends-if (Within n) (eqb_ℤ r.0 (pos 0)) _ _ (λ _. q)
            (λ _. attempts-Ends junk rounds n tries r.0 sock r.1 r.2 h q))

  or_close-left :
      (sock : ℤ) (r : ℤ × W) (next : W → ℤ × W) (n : ℕ)
      → left r.1 ≤ n
      → ((w : W) → left w ≤ n → left (next w).1 ≤ n)
      → left (or_close net sock r next).1 ≤ n
  or_close-left sock r next n h k = elim (Bool-cases (eqb_ℤ r.0 minus_one)) [
    | inl e ↦ rw e (omega (arith, silent.closed sock r.1))
    | inr e ↦ rw e (k r.1 h)
  ]

  connect_to-left :
      (sock : ℤ) (server n : ℕ) (w : W) → left w ≤ n → left (connect_to net sock server w).1 ≤ n
  connect_to-left sock server n w h =
      or_close-left sock (net.connect sock server (htons 67) w) (λ w'. (sock, w')) n
        (omega (arith, silent.connected sock server (htons 67) w)) (λ v q. q)

  set_server-left :
      (b : Binding) (sock : ℤ) (n : ℕ) (w : W) → left w ≤ n → left (set_server net sock b w).1 ≤ n
  set_server-left b sock n w q = elim (Bool-cases (same_state b.state bound)) [
    | inl e ↦ rw e (connect_to-left sock b.dhcp_server n w q)
    | inr e ↦ rw e (
        or_close-left sock (net.setsockopt sock (so_broadcast (pos 1)) w)
          (connect_to net sock inaddr_broadcast) n
          (omega (arith, silent.opted sock (so_broadcast (pos 1)) w))
          (connect_to-left sock inaddr_broadcast n))
  ]

  bind_client-left :
      (b : Binding) (sock : ℤ) (n : ℕ) (w : W) → left w ≤ n → left (bind_client net sock b w).1 ≤ n
  bind_client-left b sock n w q =
      or_close-left sock (net.bind sock b.client (htons 68) w) (set_server net sock b) n
        (omega (arith, silent.bound_to sock b.client (htons 68) w)) (set_server-left b sock n)

  set_sndtimeo-left :
      (b : Binding) (sock : ℤ) (n : ℕ) (w : W) → left w ≤ n → left (set_sndtimeo net sock b w).1 ≤ n
  set_sndtimeo-left b sock n w q =
      or_close-left sock (net.setsockopt sock (so_sndtimeo one_second) w) (bind_client net sock b) n
        (omega (arith, silent.opted sock (so_sndtimeo one_second) w)) (bind_client-left b sock n)

  create-left :
      (b : Binding) (n : ℕ) (w : W) → left w ≤ n → left (bootp_socket_create net b w).1 ≤ n
  unfolding bootp_socket_create
  create-left b n w h =
      let (sock, w1) = net.socket w in
      let m = silent.made w in
      elim (Bool-cases (eqb_ℤ sock minus_one)) [
        | inl e ↦ rw e (omega arith)
        | inr e ↦ rw e (
            or_close-left sock (net.setsockopt sock (so_rcvtimeo one_second) w1)
              (set_sndtimeo net sock b) n
              (omega (arith, silent.opted sock (so_rcvtimeo one_second) w1))
              (set_sndtimeo-left b sock n))
      ]

  next_event-left : (b : Binding) (w : W) → left (get_dhcp_next_event net b w).1 ≤ left w
  unfolding get_dhcp_next_event
  next_event-left b w = ground (arith, silent.clocked w)

  -- On a network that falls silent, with one round more than its measure, a step of the client ends:
  -- in at most three attempts, each of which discards a finite number of messages.
  pub dhcp_step-Ends :
      (junk : List ℕ) (rounds : ℕ) (b : Binding) (w : W)
      → left w < rounds
      → Ends (λ r. Unit) (dhcp_step net junk rounds b w)
  unfolding dhcp_step bootp_transaction
  dhcp_step-Ends junk rounds b w h =
      let (due, w1) = get_dhcp_next_event net b w in
      let (sock, w2) = bootp_socket_create net b w1 in
      let l = create-left b (left w) w1 (next_event-left b w) in
      Ends-if (λ r. Unit) (eqb_ℤ due (pos 0)) _ _
        (λ _.
          Ends->>= (λ r. Unit) (λ r. Unit) (bootp_transaction net junk rounds b w1) _
            (Ends-if (λ r. Unit) (ltb_ℤ sock (pos 0)) _ _ (λ _. tt)
              (λ _.
                Ends->>= (Within (left w)) (λ r. Unit)
                  (attempts net junk rounds dhcp_discover_retries (pos 0) sock b w2) _
                  (attempts-Ends junk rounds (left w) dhcp_discover_retries (pos 0) sock b w2 h l)
                  (λ r _ _. tt)))
            (λ r _ _. tt))
        (λ _. tt)
