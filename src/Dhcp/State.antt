-- ===== src/Dhcp/State.antt =====
-- src/dhcp_client.c and include/dhcp_client.h: the binding, and how messages change its state.
use nucleo_tests.Base.{ℕ, Bool, ◌||◌, List, replicate, ◌==◌, if◌then◌else◌}
use nucleo_tests.Base.Int.{ℤ, negsuc}
use nucleo_tests.Timespec.{Timespec, timespec_zero}

pub data DhcpState : Type 0 where
  init selecting requesting bound init_reboot rebooting renewing rebinding : DhcpState

-- The values of `enum dhcp_state`.
abbrev pub number : DhcpState → ℕ
number init = 0
number selecting = 1
number requesting = 2
number bound = 3
number init_reboot = 4
number rebooting = 5
number renewing = 6
number rebinding = 7

abbrev pub same_state : DhcpState → DhcpState → Bool
same_state a b = number a == number b

-- Addresses are the words that hold them in memory.
pub record Binding : Type 0 where
  pub state : DhcpState
  pub mac_addr : List ℕ
  pub client : ℕ
  pub dhcp_server : ℕ
  pub gateway : ℕ
  pub subnet : ℕ
  pub dns_server : ℕ
  pub xid : ℕ
  pub lease_t1 : Timespec
  pub lease_t2 : Timespec

abbrev pub mac_addr_len : ℕ
mac_addr_len = 6

-- `memset(&binding, 0, sizeof(binding))`
abbrev pub zero_binding : Binding
zero_binding = record {
  state = init;
  mac_addr = replicate 6 0;
  client = 0;
  dhcp_server = 0;
  gateway = 0;
  subnet = 0;
  dns_server = 0;
  xid = 0;
  lease_t1 = timespec_zero;
  lease_t2 = timespec_zero;
}

abbrev pub esyscall : ℤ
esyscall = negsuc 1

abbrev pub enoserverid : ℤ
enoserverid = negsuc 4

abbrev pub enogateway : ℤ
enogateway = negsuc 5

abbrev pub enosubnet : ℤ
enosubnet = negsuc 6

-- DHCP message types.
abbrev pub dhcpdiscover : ℕ
dhcpdiscover = 1

abbrev pub dhcpoffer : ℕ
dhcpoffer = 2

abbrev pub dhcprequest : ℕ
dhcprequest = 3

abbrev pub dhcpack : ℕ
dhcpack = 5

abbrev pub dhcpnak : ℕ
dhcpnak = 6

-- The state after a message, sent or received, of some type.
abbrev pub ack_or_nak : DhcpState → ℕ → DhcpState
ack_or_nak state type = if type == dhcpack then bound else if type == dhcpnak then init else state

abbrev pub newstate : DhcpState → ℕ → DhcpState
newstate init type = if type == dhcpdiscover then selecting else init
newstate selecting type = if type == dhcprequest then requesting else selecting
newstate requesting type = ack_or_nak requesting type
newstate rebinding type = ack_or_nak rebinding type
newstate renewing type = ack_or_nak renewing type
newstate rebooting type = ack_or_nak rebooting type
newstate bound type = if type == dhcprequest then renewing else bound
newstate init_reboot type = if type == dhcprequest then rebooting else init_reboot

unfoldable pub dhcp_update_state : Binding → ℕ → Binding
dhcp_update_state binding type = record binding { state = newstate binding.state type }

unfoldable pub dhcp_update_state_noresp : Binding → Binding
dhcp_update_state_noresp binding = record binding { state = init }

unfoldable pub dhcp_init : List ℕ → Binding
dhcp_init mac_addr = record zero_binding { mac_addr = mac_addr }

unfoldable pub dhcp_isbound : Binding → Bool
dhcp_isbound b =
    same_state b.state bound || same_state b.state renewing || same_state b.state rebinding
