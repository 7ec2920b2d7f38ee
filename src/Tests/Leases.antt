-- ===== src/Tests/Leases.antt =====
-- A client that is offered a lease of a hundred seconds, and its messages.
use nucleo_tests.Base.{
  ℕ, zero, suc, ◌+◌, ◌≤◌, ◌<◌, false, ◌≡◌, arith, refl, List, [], ◌∷◌, ◌++◌, length, replicate, All,
}
use nucleo_tests.Base.Run.{done, fault, Ends}
use nucleo_tests.Base.Int.{pos, i32, ltb_ℤ, ◌+ℤ◌, ◌-ℤ◌}
use nucleo_tests.Timespec.{Timespec, timespec_add, timespec_diff, diff_of}
use nucleo_tests.Socket.{Net}
use nucleo_tests.Inet.{htonl, ntohl}
use nucleo_tests.Dhcp.State.{
  Binding, selecting, bound, zero_binding, dhcp_update_state, dhcp_isbound,
}
use nucleo_tests.Dhcp.Options.{
  dhcp_parse_options, parse_from, store_option, set_lease, dhcp_check_options,
}
use nucleo_tests.Dhcp.Options.Meaning.{
  subnet_mask, pad, name_server, router, message_type, encode_all, tell_all, parse_options-encode,
  ServerOption,
}
use nucleo_tests.Dhcp.Options.Overrun.{parse_options-overrun}
use nucleo_tests.Dhcp.Message.{
  send_bootp_request, request_message, request_writes, dhcp_message_len_max, apply_writes, write_at,
  options_of,
}
use nucleo_tests.Dhcp.Message.Filled.{request_message-filled}
use nucleo_tests.Dhcp.Reply.{blank, recv_bootp_reply, bootp_check_reply, accept, take_reply}
use nucleo_tests.Dhcp.Client.{
  dhcp_step, get_dhcp_next_event, bootp_transaction, bootp_socket_create, attempts, attempt,
}
use nucleo_tests.Dhcp.Client.Configured.{IsBinding, dhcp_step-IsBinding}
use nucleo_tests.Dhcp.Client.Ending.{FallsSilent, dhcp_step-Ends}
use nucleo_tests.Tests.Network.{answering, received}

abbrev mac : List ℕ
mac = 2 ∷ 0 ∷ 0 ∷ 0 ∷ 0 ∷ 1 ∷ []

-- An acknowledgement from 192.168.0.1, of the address 192.168.0.9.
abbrev ack : List ℕ
ack =
    2 ∷ 1 ∷ 6 ∷ 0 ∷ 1 ∷ 2 ∷ 3 ∷ 4 ∷ replicate 8 0
    ++ 192 ∷ 168 ∷ 0 ∷ 9 ∷ replicate 8 0
    ++ mac
    ++ replicate 202 0
    ++ 0x63 ∷ 0x82 ∷ 0x53 ∷ 0x63 ∷ 53 ∷ 1 ∷ 5 ∷ 54 ∷ 4 ∷ 192 ∷ 168 ∷ 0 ∷ 1 ∷ 51 ∷ 4 ∷ 0 ∷ 0 ∷ 0
      ∷ 100 ∷ 1 ∷ 4 ∷ 255 ∷ 255 ∷ 255 ∷ 0 ∷ 3 ∷ 4 ∷ 192 ∷ 168 ∷ 0 ∷ 1 ∷ 255 ∷ []

abbrev ten : Timespec
ten = record { sec = pos 10; nsec = pos 0 }

abbrev net : Net ℕ
net = answering ack ten

abbrev offered : Binding
offered = record zero_binding {
  state = selecting;
  mac_addr = mac;
  client = 0x0900a8c0;
  dhcp_server = 0x0100a8c0;
  xid = 0x04030201;
}

abbrev leased : Binding
leased = record offered {
  state = bound;
  gateway = 0x0100a8c0;
  subnet = 0x00ffffff;
  lease_t1 = record { sec = pos 60; nsec = pos 0 };
  lease_t2 = record { sec = pos 98; nsec = pos 0 };
}

leases : dhcp_step net [] 1 offered 1 ≡ done (pos 50, leased, 0)
unfolding dhcp_step get_dhcp_next_event bootp_transaction bootp_socket_create attempts attempt
    send_bootp_request dhcp_update_state recv_bootp_reply bootp_check_reply dhcp_parse_options
    parse_from store_option set_lease accept take_reply dhcp_check_options timespec_add
    timespec_diff diff_of htonl ntohl i32 ◌+ℤ◌ ◌-ℤ◌ request_message apply_writes request_writes
    write_at options_of
leases = refl

offered-IsBinding : IsBinding offered
unfolding dhcp_isbound
offered-IsBinding h = absurd (cc)

dhcp_step-IsBinding_example : IsBinding leased
dhcp_step-IsBinding_example =
    dhcp_step-IsBinding net [] 1 offered 1 (pos 50, leased, 0) offered-IsBinding leases

fewer : (w : ℕ) → ltb_ℤ (received ack w).0 (pos 0) ≡ false → (received ack w).2 < w
fewer zero h = absurd (cc)
fewer (suc w) h = omega arith

no_more : (w : ℕ) → (received ack w).2 ≤ w
no_more zero = omega arith
no_more (suc w) = omega arith

silent : FallsSilent net (λ w. w)
silent = record {
  received = λ sock size w h. fewer w h;
  timed_out = λ sock size w. no_more w;
  made = λ w. omega arith;
  opted = λ sock opt w. omega arith;
  bound_to = λ sock addr port w. omega arith;
  connected = λ sock addr port w. omega arith;
  closed = λ sock w. omega arith;
  sent = λ sock msg w. omega arith;
  clocked = λ w. omega arith;
  drawn = λ w. omega arith;
}

dhcp_step-Ends_example : Ends (λ r. Unit) (dhcp_step net [] 3 offered 2)
dhcp_step-Ends_example = dhcp_step-Ends net (λ w. w) silent [] 3 offered 2 (omega arith)

abbrev sent : List ServerOption
sent =
    subnet_mask 255 255 255 0
    ∷ pad
    ∷ name_server 10 0 0 1 ((10, 0, 0, 2) ∷ [])
    ∷ router 10 0 0 3 ((10, 0, 0, 4) ∷ [])
    ∷ message_type 2
    ∷ []

parse_options-encode_example :
    dhcp_parse_options net (encode_all sent ++ 255 ∷ 7 ∷ []) (length (encode_all sent) + 2) blank 0
    ≡ done (tell_all net sent blank 0)
parse_options-encode_example =
    parse_options-encode net sent (tt, (tt, (tt, (tt, (tt, tt))))) (7 ∷ []) 1 blank 0

parse_options-overrun_example :
    dhcp_parse_options net (encode_all sent ++ 53 ∷ []) (length (encode_all sent) + 1) blank 0
    ≡ fault
parse_options-overrun_example =
    parse_options-overrun net sent 53 blank 0 (tt, (tt, (tt, (tt, (tt, tt))))) (omega arith)
      (omega arith)

request_message-filled_example :
    (request_message offered (replicate 548 0) ≡ request_message offered (replicate 548 7))
    × (length (request_message offered (replicate 548 0)) ≡ dhcp_message_len_max)
    × All (λ w. w.offset + length w.bytes ≤ dhcp_message_len_max) (request_writes offered)
request_message-filled_example =
    request_message-filled offered (replicate 548 0) (replicate 548 7) refl refl refl
