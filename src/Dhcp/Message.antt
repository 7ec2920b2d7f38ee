-- ===== src/Dhcp/Message.antt =====
-- src/dhcp_client.c: building and sending a request.
-- The message is a local array that nothing is written to at first: `junk` is what it holds. Each
-- assignment, `memcpy` and `memset` into it is a `Write`.
pub mod Filled
use Prim.Native.Nat.{bit_xor}
use nucleo_tests.Base.{
  ℕ, zero, suc, ◌+◌, ◌-◌, ◌*◌, ◌%◌, ◌^◌, Bool, ◌||◌, not, List, [], ◌∷◌, ◌++◌, length, replicate,
  take, if◌then◌else◌,
}
use nucleo_tests.Base.Bytes.{bytes32, bytes16}
use nucleo_tests.Base.Int.{ℤ, pos, ltb_ℤ}
use nucleo_tests.Socket.{Net}
use nucleo_tests.Inet.{htonl, htons}
use nucleo_tests.Dhcp.State.{
  Binding, DhcpState, init, selecting, bound, renewing, rebinding, requesting, init_reboot,
  rebooting, same_state, mac_addr_len, esyscall, dhcpdiscover, dhcprequest, dhcp_update_state,
}
use nucleo_tests.Dhcp.Options.{
  opt_end, opt_router, opt_subnet, opt_domain_name_server, opt_ip_address_lease_time,
  opt_dhcp_message_type, opt_server_identifier,
}

abbrev pub opt_requested_ip_address : ℕ
opt_requested_ip_address = 50

abbrev pub opt_parameter_request_list : ℕ
opt_parameter_request_list = 55

abbrev pub offset_options : ℕ
offset_options = 236

abbrev pub dhcp_message_len_max : ℕ
dhcp_message_len_max = offset_options + 312

pub record Write : Type 0 where
  pub offset : ℕ
  pub bytes : List ℕ

-- A byte written past the end of the buffer is lost here, where C leaves it undefined.
unfoldable pub overwrite : List ℕ → List ℕ → List ℕ
overwrite [] buf = buf
overwrite (b ∷ bytes) [] = []
overwrite (b ∷ bytes) (x ∷ buf) = b ∷ overwrite bytes buf

unfoldable pub write_at : ℕ → List ℕ → List ℕ → List ℕ
unfolding overwrite
write_at zero bytes buf = overwrite bytes buf
write_at (suc n) bytes [] = []
write_at (suc n) bytes (x ∷ buf) = x ∷ write_at n bytes buf

unfoldable pub apply_writes : List Write → List ℕ → List ℕ
apply_writes [] buf = buf
apply_writes (w ∷ ws) buf = apply_writes ws (write_at w.offset w.bytes buf)

-- The loop of `gen_xid`.
abbrev pub mix_mac : List ℕ → ℕ → ℕ
mix_mac [] xid = xid
mix_mac (m ∷ mac) xid = mix_mac mac ((xid * m % 2 ^ 32 + m) % 2 ^ 32)

unfoldable pub gen_xid : {W : Type 0} → Net W → List ℕ → W → ℕ × W
gen_xid net mac_addr w =
    let (r, w') = net.rand w in
    (bit_xor (mix_mac (take mac_addr_len mac_addr) (htonl 0xdeadbee0)) r, w')

unfoldable pub fill_bootp_request : List Write
fill_bootp_request =
    (record { offset = 0; bytes = 1 ∷ [] })
    ∷ (record { offset = 1; bytes = 1 ∷ [] })
    ∷ (record { offset = 2; bytes = mac_addr_len ∷ [] })
    ∷ (record { offset = 3; bytes = 0 ∷ [] })
    ∷ (record { offset = 8; bytes = bytes16 0 })
    ∷ (record { offset = 10; bytes = bytes16 (htons 0x8000) })
    ∷ (record { offset = 16; bytes = bytes32 0 })
    ∷ (record { offset = 20; bytes = bytes32 0 })
    ∷ (record { offset = 24; bytes = bytes32 0 })
    ∷ (record { offset = 34; bytes = replicate 202 0 })
    ∷ (record { offset = offset_options; bytes = bytes32 (htonl 0x63825363) })
    ∷ []

unfoldable pub dhcp_append_option32 : ℕ → ℕ → List ℕ
dhcp_append_option32 opt val = opt ∷ 4 ∷ bytes32 val

unfoldable pub dhcp_append_common_options : ℕ → List ℕ
unfolding dhcp_append_option32
dhcp_append_common_options type =
    opt_dhcp_message_type
    ∷ 1
    ∷ type
    ∷ opt_parameter_request_list
    ∷ 3
    ∷ opt_router
    ∷ opt_subnet
    ∷ opt_domain_name_server
    ∷ dhcp_append_option32 opt_ip_address_lease_time 0xffffffff

-- The message type to send in a state.
abbrev pub type_for : DhcpState → ℕ
type_for init = dhcpdiscover
type_for selecting = dhcprequest
type_for bound = dhcprequest
type_for renewing = dhcprequest
type_for requesting = dhcprequest
type_for init_reboot = dhcprequest
type_for rebooting = dhcprequest
type_for rebinding = dhcprequest

abbrev pub ciaddr_of : Binding → ℕ
ciaddr_of b =
    if same_state b.state bound || same_state b.state renewing || same_state b.state rebinding
    then b.client
    else 0

-- The options, with the end.
unfoldable pub options_of : Binding → List ℕ
unfolding dhcp_append_common_options dhcp_append_option32
options_of b =
    dhcp_append_common_options (type_for b.state)
    ++ (if same_state b.state selecting
        then dhcp_append_option32 opt_server_identifier b.dhcp_server
          ++ (dhcp_append_option32 opt_requested_ip_address b.client ++ opt_end ∷ [])
        else opt_end ∷ [])

-- The rest of the message after the options is cleared.
unfoldable pub request_writes : Binding → List Write
unfolding fill_bootp_request
request_writes b =
    (record { offset = 4; bytes = bytes32 b.xid })
    ∷ (record { offset = 12; bytes = bytes32 (ciaddr_of b) })
    ∷ (record { offset = 28; bytes = take mac_addr_len b.mac_addr })
    ∷ (fill_bootp_request
        ++ (record { offset = 240; bytes = options_of b })
          ∷ (record {
            offset = 240 + length (options_of b);
            bytes = replicate (dhcp_message_len_max - (240 + length (options_of b))) 0;
          })
          ∷ [])

unfoldable pub request_message : Binding → List ℕ → List ℕ
request_message b junk = apply_writes (request_writes b) junk

module _ {W : Type 0} (net : Net W) where
  abbrev pub with_xid : Binding → W → Binding × W
  with_xid b w =
      if not (same_state b.state selecting)
      then (let (xid, w') = gen_xid net b.mac_addr w in (record b { xid = xid }, w'))
      else (b, w)

  unfoldable pub send_bootp_request : ℤ → List ℕ → Binding → W → ℤ × Binding × W
  send_bootp_request sock junk binding w =
      let (b, w1) = with_xid binding w in
      let (sent, w2) = net.send sock (request_message b junk) w1 in
      if ltb_ℤ sent (pos 0)
      then (esyscall, b, w2)
      else (pos 0, dhcp_update_state b (type_for b.state), w2)
