-- ===== src/Dhcp/Client/Moves.antt =====
-- How a step changes the client's state: at most one reply is accepted in it.
use nucleo_tests.Base.{ℕ, ◌≡◌, ◌⊎◌, false}
use nucleo_tests.Base.Run.{Run}
use nucleo_tests.Base.Int.{ℤ, pos, eqb_ℤ}
use nucleo_tests.Dhcp.State.{
  DhcpState, init, selecting, requesting, bound, init_reboot, rebooting, renewing, rebinding,
  Binding, newstate,
}

-- The states before a request and after the reply to it. A client that has no address discovers:
-- the reply leaves it selecting, unless the reply calls itself a request. One that is selecting,
-- requesting, bound or renewing requests: an acknowledgement binds it, a refusal sends it back, and
-- any other reply leaves it waiting.
pub data Answered : DhcpState → DhcpState → Type 0 where
  offered : Answered init selecting
  echoed : Answered init requesting
  acknowledged : Answered selecting bound
  refused : Answered selecting init
  waiting : Answered selecting requesting
  acknowledged_again : Answered requesting bound
  refused_again : Answered requesting init
  waiting_again : Answered requesting requesting
  renewed : Answered bound bound
  not_renewed : Answered bound init
  renewing_now : Answered bound renewing
  renewed_again : Answered renewing bound
  not_renewed_again : Answered renewing init
  renewing_again : Answered renewing renewing

-- The states before and after a step. Where attempts fail, the client has nothing sent and stays as
-- it was, or it is without an address; then the answer is to what it sends from there.
pub data Step (s : DhcpState) : DhcpState → Type 0 where
  unchanged : Step s s
  lost : Step s init
  answered : {t : DhcpState} → Answered s t → Step s t
  answered_anew : {t : DhcpState} → Answered init t → Step s t

-- The states that the client can be in: it never enters the others.
abbrev pub InUse : DhcpState → Type 0
InUse init = Unit
InUse selecting = Unit
InUse requesting = Unit
InUse bound = Unit
InUse renewing = Unit
InUse init_reboot = ⊥
InUse rebooting = ⊥
InUse rebinding = ⊥

-- A reply moves the state by its type.
abbrev Replied : Binding → Binding → Type 0
Replied b c = (type : ℕ) × (c.state ≡ newstate b.state type)

-- Where an attempt that fails leaves the client.
abbrev IsBack : DhcpState → DhcpState → Type 0
IsBack s t = (t ≡ s) ⊎ (t ≡ init)

-- An attempt that began in a state: its outcome, and the state after it.
data Attempted (s : DhcpState) (ret : ℤ) (t : DhcpState) : Type 0 where
  succeeded : ret ≡ pos 0 → Answered s t → Attempted s ret t
  failed : eqb_ℤ ret (pos 0) ≡ false → IsBack s t → Attempted s ret t
