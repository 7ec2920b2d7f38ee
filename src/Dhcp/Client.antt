-- ===== src/Dhcp/Client.antt =====
-- src/dhcp_client.c: the exchange of a request and a reply, and the steps of the client.
-- `junk` is what the message array of a request holds before it is written.
pub mod Rule
pub mod Moves
pub mod Configured
pub mod Ending
use nucleo_tests.Base.{ℕ, zero, suc, Bool, ◌||◌, List, not, if◌then◌else◌}
use nucleo_tests.Base.Run.{Run, done, fault, more, ◌>>=◌}
use nucleo_tests.Base.Int.{ℤ, pos, leb_ℤ, ltb_ℤ, eqb_ℤ, minus_one}
use nucleo_tests.Timespec.{Timespec, Timeval, timespec_diff, diff_of}
use nucleo_tests.Socket.{Net, so_rcvtimeo, so_sndtimeo, so_broadcast}
use nucleo_tests.Inet.{htons}
use nucleo_tests.Dhcp.State.{
  Binding, bound, renewing, same_state, esyscall, dhcp_update_state_noresp, dhcp_isbound,
}
use nucleo_tests.Dhcp.Message.{send_bootp_request}
use nucleo_tests.Dhcp.Reply.{recv_bootp_reply}

abbrev pub one_second : Timeval
one_second = record { sec = pos 1; usec = pos 0 }

abbrev pub inaddr_broadcast : ℕ
inaddr_broadcast = 0xffffffff

abbrev pub dhcp_discover_retries : ℕ
dhcp_discover_retries = 3

module _ {W : Type 0} (net : Net W) where
  -- A call that must not return -1; where it does, the socket is closed.
  abbrev pub or_close : ℤ → ℤ × W → (W → ℤ × W) → ℤ × W
  or_close sock (ret, w) next = if eqb_ℤ ret minus_one then (esyscall, net.close sock w) else next w

  abbrev pub connect_to : ℤ → ℕ → W → ℤ × W
  connect_to sock server w = or_close sock (net.connect sock server (htons 67) w) (λ w'. (sock, w'))

  abbrev pub set_server : ℤ → Binding → W → ℤ × W
  set_server sock b w =
      if same_state b.state bound
      then connect_to sock b.dhcp_server w
      else or_close sock (net.setsockopt sock (so_broadcast (pos 1)) w)
          (connect_to sock inaddr_broadcast)

  abbrev pub bind_client : ℤ → Binding → W → ℤ × W
  bind_client sock b w = or_close sock (net.bind sock b.client (htons 68) w) (set_server sock b)

  abbrev pub set_sndtimeo : ℤ → Binding → W → ℤ × W
  set_sndtimeo sock b w =
      or_close sock (net.setsockopt sock (so_sndtimeo one_second) w) (bind_client sock b)

  unfoldable pub bootp_socket_create : Binding → W → ℤ × W
  bootp_socket_create b w =
      let (sock, w1) = net.socket w in
      if eqb_ℤ sock minus_one
      then (esyscall, w1)
      else or_close sock (net.setsockopt sock (so_rcvtimeo one_second) w1) (set_sndtimeo sock b)

  abbrev pub closing : ℤ → ℤ × Binding × W → ℤ × Binding × W
  closing sock (ret, b, w) = (ret, b, net.close sock w)

  -- The seconds until the lease has to be renewed, by the state.
  unfoldable pub get_dhcp_next_event : Binding → W → ℤ × W
  get_dhcp_next_event b w =
      if same_state b.state bound || same_state b.state renewing
      then (let (now, w') = net.clock_realtime w in
          let lease = if same_state b.state bound then b.lease_t1 else b.lease_t2 in
          if leb_ℤ (timespec_diff lease now) (pos 0)
          then (pos 0, w')
          else ((diff_of lease now).sec, w'))
      else (pos 0, w)

  abbrev pub after_transaction : ℤ × Binding × W → ℤ × Binding × W
  after_transaction (ret, b, w) =
      if eqb_ℤ ret (pos 0)
      then (let (next, w') = get_dhcp_next_event b w in (next, b, w'))
      else (ret, b, w)

  module _ (junk : List ℕ) where
    -- One attempt, and whether its outcome was 0; otherwise the binding to try again with.
    unfoldable pub attempt : ℕ → ℤ → Binding → W → Run (ℤ × Binding × W)
    attempt rounds sock b w =
        let (sent, b1, w1) = send_bootp_request net sock junk b w in
        if eqb_ℤ sent (pos 0)
        then (recv_bootp_reply net rounds sock b1 w1 >>= λ r.
            if eqb_ℤ r.0 (pos 0) then done r else done (r.0, dhcp_update_state_noresp r.1, r.2))
        else done (sent, b1, w1)

    -- The loop, with the attempts left and the value to return when there are none.
    unfoldable pub attempts : ℕ → ℕ → ℤ → ℤ → Binding → W → Run (ℤ × Binding × W)
    attempts rounds zero ret sock b w = done (ret, b, w)
    attempts rounds (suc left) ret sock b w = attempt rounds sock b w >>= λ r.
        if eqb_ℤ r.0 (pos 0) then done r else attempts rounds left r.0 sock r.1 r.2

    unfoldable pub bootp_transaction : ℕ → Binding → W → Run (ℤ × Binding × W)
    bootp_transaction rounds b w =
        let (sock, w1) = bootp_socket_create b w in
        if ltb_ℤ sock (pos 0)
        then done (sock, b, w1)
        else (attempts rounds dhcp_discover_retries (pos 0) sock b w1 >>= λ r.
            done (closing sock r))

    unfoldable pub dhcp_step : ℕ → Binding → W → Run (ℤ × Binding × W)
    dhcp_step rounds b w =
        let (next, w1) = get_dhcp_next_event b w in
        if eqb_ℤ next (pos 0)
        then (bootp_transaction rounds b w1 >>= λ r. done (after_transaction r))
        else done (next, b, w1)

    -- The loop, with a number of steps.
    unfoldable pub dhcp_bind : ℕ → ℕ → Binding → W → Run (ℤ × Binding × W)
    dhcp_bind rounds zero b w = more
    dhcp_bind rounds (suc steps) b w = dhcp_step rounds b w >>= λ r.
        if dhcp_isbound r.1 then done r else dhcp_bind rounds steps r.1 r.2
