-- ===== src/Dhcp/Client/Configured.antt =====
-- A client that is bound knows its server, its gateway and its subnet.
use nucleo_tests.Base.{ℕ, zero, suc, ◌≡◌, ◌≢◌, arith, refl, true, List}
use nucleo_tests.Base.Run.{done, Post, Post->>=, Post-if, Post-done}
use nucleo_tests.Base.Int.{ℤ, pos}
use nucleo_tests.Socket.{Net}
use nucleo_tests.Dhcp.State.{
  DhcpState, init, selecting, requesting, bound, init_reboot, rebooting, renewing, rebinding,
  Binding, dhcp_update_state, dhcp_update_state_noresp, dhcp_isbound, dhcp_init,
}
use nucleo_tests.Dhcp.Options.{dhcp_check_options}
use nucleo_tests.Dhcp.Message.{type_for}
use nucleo_tests.Dhcp.Reply.{accept, take_reply}
use nucleo_tests.Dhcp.Client.{dhcp_step, dhcp_bind}
use nucleo_tests.Dhcp.Client.Rule.{IsRespected, dhcp_step-respects}

pub record IsConfigured (b : Binding) : Type 0 where
  pub server : b.dhcp_server ≢ 0
  pub router : b.gateway ≢ 0
  pub mask : b.subnet ≢ 0

abbrev pub IsBinding : Binding → Type 0
IsBinding b = dhcp_isbound b ≡ true → IsConfigured b

check-configured :
    (options : Binding)
    → (dhcp_check_options options).0 ≡ pos 0
    → let o = (dhcp_check_options options).1 in
      (o.dhcp_server ≢ 0) × (o.gateway ≢ 0) × (o.subnet ≢ 0)
unfolding dhcp_check_options
check-configured options z = ground arith

-- An accepted reply, for each state.
accept-IsBinding :
    (s : DhcpState) (type yiaddr : ℕ) (options b : Binding)
    → let r = accept type yiaddr options (record b { state = s }) in
      (r.0 ≡ pos 0) → IsBinding (record b { state = s }) → IsBinding r.1
unfolding accept take_reply dhcp_update_state dhcp_isbound
accept-IsBinding init type yiaddr options b z h k = ground arith
accept-IsBinding selecting type yiaddr options b z h k = ground (arith, check-configured options)
accept-IsBinding requesting type yiaddr options b z h k = ground (arith, check-configured options)
accept-IsBinding bound type yiaddr options b z h k = ground (arith, h refl)
accept-IsBinding init_reboot type yiaddr options b z h k = ground (arith, check-configured options)
accept-IsBinding rebooting type yiaddr options b z h k = ground (arith, check-configured options)
accept-IsBinding renewing type yiaddr options b z h k =
    ground (arith, h refl, check-configured options)
accept-IsBinding rebinding type yiaddr options b z h k =
    ground (arith, h refl, check-configured options)

-- A request sent, for each state.
sent-IsBinding :
    (s : DhcpState) (b : Binding)
    → IsBinding (record b { state = s })
    → IsBinding (dhcp_update_state (record b { state = s }) (type_for s))
unfolding dhcp_update_state dhcp_isbound
sent-IsBinding init b h k = absurd (cc)
sent-IsBinding selecting b h k = absurd (cc)
sent-IsBinding requesting b h k = absurd (cc)
sent-IsBinding bound b h k = ground (arith, h refl)
sent-IsBinding init_reboot b h k = absurd (cc)
sent-IsBinding rebooting b h k = absurd (cc)
sent-IsBinding renewing b h k = ground (arith, h refl)
sent-IsBinding rebinding b h k = ground (arith, h refl)

abbrev Keeps : Binding → Binding → Type 0
Keeps b c = IsBinding b → IsBinding c

Keeps-IsRespected : IsRespected Keeps
unfolding dhcp_update_state_noresp dhcp_isbound
Keeps-IsRespected = record {
  same = λ b h. h;
  then_ = λ a b c f g h. g (f h);
  new_xid = λ b xid h k. ground (arith, h k);
  sent = λ b. sent-IsBinding b.state b;
  gave_up = λ b c h k. absurd (cc);
  accepted = λ type yiaddr options b. accept-IsBinding b.state type yiaddr options b;
}

module _ {W : Type 0} (net : Net W) (junk : List ℕ) (rounds : ℕ) where
  -- Whatever the network does, a step of the client keeps this: where it is bound, the addresses of
  -- its server and its gateway and its subnet mask are not 0.
  pub dhcp_step-IsBinding :
      (b : Binding) (w : W) (out : ℤ × Binding × W)
      → IsBinding b
      → dhcp_step net junk rounds b w ≡ done out
      → IsBinding out.1
  dhcp_step-IsBinding b w out h e =
      Post-done (λ r. Keeps b r.1) out
        (dhcp_step-respects net Keeps Keeps-IsRespected junk rounds b w) e h

  bind-IsConfigured :
      (steps : ℕ) (b : Binding) (w : W)
      → IsBinding b
      → Post
          (λ r. (dhcp_isbound r.1 ≡ true) × IsConfigured r.1)
          (dhcp_bind net junk rounds steps b w)
  unfolding dhcp_bind
  bind-IsConfigured zero b w h = tt
  bind-IsConfigured (suc steps) b w h =
      Post->>= (λ r. Keeps b r.1) (λ r. (dhcp_isbound r.1 ≡ true) × IsConfigured r.1)
        (dhcp_step net junk rounds b w) _
        (dhcp_step-respects net Keeps Keeps-IsRespected junk rounds b w)
        (λ r k.
          Post-if (λ r. (dhcp_isbound r.1 ≡ true) × IsConfigured r.1) (dhcp_isbound r.1) _ _
            (λ yes_bound. (yes_bound, k h yes_bound)) (λ _. bind-IsConfigured steps r.1 r.2 (k h)))

  -- `dhcp_bind` from a fresh binding returns only with a client that is bound, and whose server,
  -- gateway and subnet mask are known.
  pub dhcp_bind-IsConfigured :
      (steps : ℕ) (mac_addr : List ℕ) (w : W) (out : ℤ × Binding × W)
      → dhcp_bind net junk rounds steps (dhcp_init mac_addr) w ≡ done out
      → (dhcp_isbound out.1 ≡ true) × IsConfigured out.1
  unfolding dhcp_init dhcp_isbound
  dhcp_bind-IsConfigured steps mac_addr w out e =
      Post-done (λ r. (dhcp_isbound r.1 ≡ true) × IsConfigured r.1) out
        (bind-IsConfigured steps (dhcp_init mac_addr) w (λ k. absurd (cc))) e
