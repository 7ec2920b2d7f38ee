-- ===== src/Dhcp/Client/Rule.antt =====
-- A relation that sending, receiving and giving up each respect holds across a step of the client.
use nucleo_tests.Base.{
  ℕ, zero, suc, ◌-◌, ◌≡◌, List, drop, true, false, leb, Bool-cases, inl, inr, ◌⊎◌,
}
use nucleo_tests.Base.Run.{Run, done, fault, more, Post, Post->>=, Post-if, Post-weaken}
use nucleo_tests.Base.Int.{ℤ, pos, pos_part, ltb_ℤ, eqb_ℤ, eqb_ℤ_iff}
use nucleo_tests.Socket.{Net}
use nucleo_tests.Dhcp.State.{
  Binding, selecting, same_state, dhcp_update_state, dhcp_update_state_noresp,
}
use nucleo_tests.Dhcp.Options.{Parsed, dhcp_parse_options}
use nucleo_tests.Dhcp.Message.{
  send_bootp_request, type_for, request_message, with_xid, gen_xid, offset_options,
  dhcp_message_len_max,
}
use nucleo_tests.Dhcp.Reply.{
  recv_bootp_reply, accept, with_parsed, word_at, blank, bootp_check_reply,
}
use nucleo_tests.Dhcp.Client.{
  attempt, attempts, bootp_transaction, bootp_socket_create, get_dhcp_next_event, dhcp_step,
  dhcp_discover_retries, after_transaction,
}

-- What accepting a reply has to respect.
abbrev pub RespectsReplies : (Binding → Binding → Type 0) → Type 0
RespectsReplies R =
    (type yiaddr : ℕ) (options b : Binding)
    → (accept type yiaddr options b).0 ≡ pos 0
    → R b (accept type yiaddr options b).1

-- What a relation between the bindings before and after has to respect.
pub record IsRespected (R : Binding → Binding → Type 0) : Type 0 where
  pub same : (b : Binding) → R b b
  pub then_ : (a b c : Binding) → R a b → R b c → R a c
  pub new_xid : (b : Binding) (xid : ℕ) → R b (record b { xid = xid })
  pub sent : (b : Binding) → R b (dhcp_update_state b (type_for b.state))
  pub gave_up : (b c : Binding) → R b (dhcp_update_state_noresp c)
  pub accepted : RespectsReplies R

module _ {W : Type 0} (net : Net W) (R : Binding → Binding → Type 0)
    (accepted : RespectsReplies R) where
  with_parsed-respects :
      (again : W → Run (ℤ × Binding × W)) (msg : List ℕ) (b : Binding) (s : Parsed × W)
      → Post (λ r. r.0 ≡ pos 0 → R b r.1) (again s.1)
      → Post (λ r. r.0 ≡ pos 0 → R b r.1) (with_parsed again msg b s)
  with_parsed-respects again msg b (r, w) h =
      Post-if (λ r. r.0 ≡ pos 0 → R b r.1) r.len_error _ _ (λ _. h)
        (λ _. accepted r.type (word_at msg 16) r.options b)

  pub recv-respects :
      (rounds : ℕ) (sock : ℤ) (b : Binding) (w : W)
      → Post (λ r. r.0 ≡ pos 0 → R b r.1) (recv_bootp_reply net rounds sock b w)
  unfolding recv_bootp_reply
  recv-respects zero sock b w = tt
  recv-respects (suc rounds) sock b w =
      let (size, msg, w1) = net.recv sock dhcp_message_len_max w in
      Post-if (λ r. r.0 ≡ pos 0 → R b r.1) (ltb_ℤ size (pos 0)) _ _ (λ _ e. absurd (cc))
        (λ _.
          Post-if (λ r. r.0 ≡ pos 0 → R b r.1) (eqb_ℤ size (pos 0)) _ _
            (λ _. recv-respects rounds sock b w1)
            (λ _.
              Post-if (λ r. r.0 ≡ pos 0 → R b r.1)
                (leb (bootp_check_reply msg b.mac_addr b.xid) offset_options) _ _
                (λ _. recv-respects rounds sock b w1)
                (λ _.
                  Post->>= (λ s. Unit {0}) (λ r. r.0 ≡ pos 0 → R b r.1)
                    (dhcp_parse_options net (drop 240 msg) (pos_part size - 240) blank w1) _
                    (anything
                      (dhcp_parse_options net (drop 240 msg) (pos_part size - 240) blank w1))
                    (λ s _.
                      with_parsed-respects (recv_bootp_reply net rounds sock b) msg b s
                        (recv-respects rounds sock b s.1)))))
    where
      anything : (m : Run (Parsed × W)) → Post (λ s. Unit {0}) m
      anything (done s) = tt
      anything fault = tt
      anything more = tt

module _ {W : Type 0} (net : Net W) (R : Binding → Binding → Type 0) (law : IsRespected R) where
  open law use {same, then_, new_xid, sent, gave_up, accepted}

  with_xid-respects : (b : Binding) (w : W) → R b (with_xid net b w).0
  with_xid-respects b w = elim (Bool-cases (same_state b.state selecting)) [
    | inl e ↦ rw e (same b)
    | inr e ↦ rw e (new_xid b (gen_xid net b.mac_addr w).0)
  ]

  send-respects :
      (sock : ℤ) (junk : List ℕ) (b : Binding) (w : W)
      → R b (send_bootp_request net sock junk b w).1
  unfolding send_bootp_request
  send-respects sock junk b w =
      let (b1, w1) = with_xid net b w in
      elim (Bool-cases (ltb_ℤ (net.send sock (request_message b1 junk) w1).0 (pos 0))) [
        | inl e ↦ rw e (with_xid-respects b w)
        | inr e ↦ rw e (
            then_ b b1 (dhcp_update_state b1 (type_for b1.state)) (with_xid-respects b w) (sent b1))
      ]

  module _ (junk : List ℕ) (rounds : ℕ) (sock : ℤ) where
    attempt-respects :
        (b : Binding) (w : W) → Post (λ r. R b r.1) (attempt net junk rounds sock b w)
    unfolding attempt
    attempt-respects b w =
        let (ret, b1, w1) = send_bootp_request net sock junk b w in
        Post-if (λ r. R b r.1) (eqb_ℤ ret (pos 0)) _ _
          (λ _.
            Post->>= (λ r. r.0 ≡ pos 0 → R b1 r.1) (λ r. R b r.1)
              (recv_bootp_reply net rounds sock b1 w1) _
              (recv-respects net R accepted rounds sock b1 w1)
              (λ r h.
                Post-if (λ r. R b r.1) (eqb_ℤ r.0 (pos 0)) _ _
                  (λ z.
                    then_ b b1 r.1 (send-respects sock junk b w) (h ((eqb_ℤ_iff r.0 (pos 0)).0 z)))
                  (λ _. gave_up b r.1)))
          (λ _. send-respects sock junk b w)

    attempts-respects :
        (left : ℕ) (ret : ℤ) (b : Binding) (w : W)
        → Post (λ r. R b r.1) (attempts net junk rounds left ret sock b w)
    unfolding attempts
    attempts-respects zero ret b w = same b
    attempts-respects (suc left) ret b w =
        Post->>= (λ r. R b r.1) (λ r. R b r.1) (attempt net junk rounds sock b w) _
          (attempt-respects b w)
          (λ r h.
            Post-if (λ r. R b r.1) (eqb_ℤ r.0 (pos 0)) _ _ (λ _. h)
              (λ _.
                Post-weaken (λ t. R r.1 t.1) (λ t. R b t.1)
                  (attempts net junk rounds left r.0 sock r.1 r.2) (λ t k. then_ b r.1 t.1 h k)
                  (attempts-respects left r.0 r.1 r.2)))

  bootp_transaction-respects :
      (junk : List ℕ) (rounds : ℕ) (b : Binding) (w : W)
      → Post (λ r. R b r.1) (bootp_transaction net junk rounds b w)
  unfolding bootp_transaction
  bootp_transaction-respects junk rounds b w =
      let (sock, w1) = bootp_socket_create net b w in
      Post-if (λ r. R b r.1) (ltb_ℤ sock (pos 0)) _ _ (λ _. same b)
        (λ _.
          Post->>= (λ r. R b r.1) (λ r. R b r.1)
            (attempts net junk rounds dhcp_discover_retries (pos 0) sock b w1) _
            (attempts-respects junk rounds sock dhcp_discover_retries (pos 0) b w1) (λ r h. h))

  pub dhcp_step-respects :
      (junk : List ℕ) (rounds : ℕ) (b : Binding) (w : W)
      → Post (λ r. R b r.1) (dhcp_step net junk rounds b w)
  unfolding dhcp_step
  dhcp_step-respects junk rounds b w =
      let (due, w1) = get_dhcp_next_event net b w in
      Post-if (λ r. R b r.1) (eqb_ℤ due (pos 0)) _ _
        (λ _.
          Post->>= (λ r. R b r.1) (λ r. R b r.1) (bootp_transaction net junk rounds b w1) _
            (bootp_transaction-respects junk rounds b w1)
            (λ r h. kept r h (Bool-cases (eqb_ℤ r.0 (pos 0)))))
        (λ _. same b)
    where
      kept :
          (r : ℤ × Binding × W)
          → R b r.1
          → (eqb_ℤ r.0 (pos 0) ≡ true) ⊎ (eqb_ℤ r.0 (pos 0) ≡ false)
          → R b (after_transaction net r).1
      kept r h (inl e) = rw e h
      kept r h (inr e) = rw e h
