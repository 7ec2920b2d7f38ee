-- ===== src/Dhcp/Reply.antt =====
-- src/dhcp_client.c: receiving a reply. A buffer is the whole message array after `recvfrom`.
use nucleo_tests.Base.{
  ℕ, zero, suc, ◌-◌, Bool, true, false, not, ◌&&◌, ◌||◌, List, [], ◌∷◌, take, drop, get_or, leb,
  ◌==◌, if◌then◌else◌,
}
use nucleo_tests.Base.Bytes.{word32}
use nucleo_tests.Base.Run.{Run, done, more, ◌>>=◌}
use nucleo_tests.Base.Int.{ℤ, pos, pos_part, ltb_ℤ, eqb_ℤ}
use nucleo_tests.Socket.{Net}
use nucleo_tests.Inet.{htonl}
use nucleo_tests.Dhcp.State.{
  Binding, selecting, requesting, renewing, rebinding, rebooting, same_state, mac_addr_len,
  zero_binding, esyscall, dhcpoffer, dhcpack, dhcpnak, dhcp_update_state,
}
use nucleo_tests.Dhcp.Options.{Parsed, dhcp_parse_options, dhcp_check_options}
use nucleo_tests.Dhcp.Message.{offset_options, dhcp_message_len_max}

-- The word at an offset of a message.
abbrev pub word_at : List ℕ → ℕ → ℕ
word_at msg i =
    let byte = λ (k : ℕ). get_or (drop i msg) k 0 in word32 (byte 0) (byte 1) (byte 2) (byte 3)

-- `memcmp` of as many bytes.
abbrev pub same_bytes : List ℕ → List ℕ → Bool
same_bytes [] [] = true
same_bytes (x ∷ xs) (y ∷ ys) = x == y && same_bytes xs ys
same_bytes [] (_ ∷ _) = false
same_bytes (_ ∷ _) [] = false

-- The offset of the first field that is not as expected.
unfoldable pub bootp_check_reply : List ℕ → List ℕ → ℕ → ℕ
bootp_check_reply msg mac_addr xid =
    if not (get_or msg 0 0 == 2)
    then 0
    else if not (get_or msg 1 0 == 1)
    then 1
    else if not (get_or msg 2 0 == mac_addr_len)
    then 2
    else if not (word_at msg 4 == xid)
    then 4
    else if not (same_bytes (take mac_addr_len (drop 28 msg)) (take mac_addr_len mac_addr))
    then 28
    else if not (word_at msg offset_options == htonl 0x63825363)
    then offset_options
    else 240

abbrev pub awaits_ack : Binding → Bool
awaits_ack b =
    same_state b.state requesting
    || same_state b.state renewing
    || same_state b.state rebinding
    || same_state b.state rebooting

abbrev pub take_ack : ℕ → ℤ × Binding → Binding → ℤ × Binding
take_ack yiaddr (ret, options) b = (
  ret,
  record b {
    client = yiaddr;
    dhcp_server = options.dhcp_server;
    gateway = options.gateway;
    subnet = options.subnet;
    dns_server = options.dns_server;
    lease_t1 = options.lease_t1;
    lease_t2 = options.lease_t2;
  },
)

abbrev pub take_offer : ℕ → ℤ × Binding → Binding → ℤ × Binding
take_offer yiaddr (ret, options) b = (
  ret,
  (if eqb_ℤ ret (pos 0)
      then record b { client = yiaddr; dhcp_server = options.dhcp_server }
      else b),
)

-- What a reply of some type does to the binding, before its state changes.
unfoldable pub take_reply : ℕ → ℕ → Binding → Binding → ℤ × Binding
take_reply type yiaddr options b =
    if type == dhcpoffer && same_state b.state selecting
    then take_offer yiaddr (dhcp_check_options options) b
    else if awaits_ack b
    then (if type == dhcpack
        then take_ack yiaddr (dhcp_check_options options) b
        else if type == dhcpnak
        then (pos 0, record b { client = 0; dhcp_server = 0 })
        else (pos 0, b))
    else (pos 0, b)

abbrev pub update_if_ok : ℕ → ℤ × Binding → ℤ × Binding
update_if_ok type (ret, b) = (ret, (if eqb_ℤ ret (pos 0) then dhcp_update_state b type else b))

unfoldable pub accept : ℕ → ℕ → Binding → Binding → ℤ × Binding
accept type yiaddr options b = update_if_ok type (take_reply type yiaddr options b)

abbrev pub blank : Parsed
blank = record { type = 0; options = zero_binding; len_error = false }

-- A message for this client: the options are parsed, up to the size received, and if their lengths
-- are right the reply is accepted. `again` is the rest of the loop.
abbrev pub with_parsed :
    {W : Type 0}
    → (W → Run (ℤ × Binding × W))
    → List ℕ
    → Binding
    → Parsed × W
    → Run (ℤ × Binding × W)
with_parsed again msg b (r, w) =
    if r.len_error
    then again w
    else (let (ret, b') = accept r.type (word_at msg 16) r.options b in done (ret, b', w))

module _ {W : Type 0} (net : Net W) where
  -- The loop, with rounds. `p_end` lies before the options where the size is below 240.
  unfoldable pub recv_bootp_reply : ℕ → ℤ → Binding → W → Run (ℤ × Binding × W)
  recv_bootp_reply zero sock b w = more
  recv_bootp_reply (suc rounds) sock b w =
      let (size, msg, w1) = net.recv sock dhcp_message_len_max w in
      let again = recv_bootp_reply rounds sock b w1 in
      if ltb_ℤ size (pos 0)
      then done (esyscall, b, w1)
      else if eqb_ℤ size (pos 0)
      then again
      else if leb (bootp_check_reply msg b.mac_addr b.xid) offset_options
      then again
      else (dhcp_parse_options net (drop 240 msg) (pos_part size - 240) blank w1
          >>= with_parsed (recv_bootp_reply rounds sock b) msg b)
