-- ===== src/Signal/Deliver.antt =====
-- src/signal.c: `pend_sv_handler`, which runs the actions of the pending signals.
-- What is not in the repository is a parameter: the numbers that the toolchain's <signal.h> gives
-- to SIG_DFL, SIG_IGN and the signals with a default action of their own, and the handlers that
-- the application installs. `W` is the state outside src/signal.c.
pub mod Drain
use nucleo_tests.Base.{
  ℕ, zero, suc, Bool, true, false, not, ◌||◌, Option, none, some, get_elem?, bit_and, ◌==◌,
  if◌then◌else◌,
}
use nucleo_tests.Base.Int.{ℤ, pos, negsuc, eqb_ℤ}
use nucleo_tests.Signal.State.{Siginfo, Sigaction, Signals, sa_siginfo}
use nucleo_tests.Signal.Queue.{signal_dequeue_procmask}

pub record Env (W : Type 0) : Type 0 where
  pub wild_shift : ℤ → ℕ
  pub sig_dfl : ℕ
  pub sig_ign : ℕ
  pub sigchld : ℤ
  pub sigurg : ℤ
  pub sigstop : ℤ
  pub sigtstp : ℤ
  pub sigttin : ℤ
  pub sigttou : ℤ
  pub sigcont : ℤ
  -- A handler called with the signal's number only, and one called with the information too.
  pub sa_handler : ℕ → ℤ → Signals × W → Signals × W
  pub sa_sigaction : ℕ → ℤ → Siginfo → Signals × W → Signals × W

-- `_exit` does not return; `wild` is an access outside the table of actions.
pub data Delivery (A : Type 0) : Type 0 where
  returned : A → Delivery A
  exited : Delivery A
  wild : Delivery A
  running : Delivery A

-- The action of `signal_actions[sig]`, if the index lies in the table.
abbrev pub action_of : Signals → ℤ → Option Sigaction
action_of s (pos sig) = get_elem? s.actions sig
action_of s (negsuc _) = none

module _ {W : Type 0} (env : Env W) where
  open env use {
    wild_shift, sig_dfl, sig_ign, sigchld, sigurg, sigstop, sigtstp, sigttin, sigttou, sigcont,
    sa_handler, sa_sigaction,
  }

  -- The signals that the default action ignores, or would stop and continue on.
  unfoldable pub is_harmless : ℤ → Bool
  is_harmless sig =
      eqb_ℤ sig sigchld
      || eqb_ℤ sig sigurg
      || eqb_ℤ sig sigstop
      || eqb_ℤ sig sigtstp
      || eqb_ℤ sig sigttin
      || eqb_ℤ sig sigttou
      || eqb_ℤ sig sigcont

  unfoldable pub signal_act_default : Siginfo → Signals × W → Delivery (Signals × W)
  signal_act_default info st = if is_harmless info.si_signo then returned st else exited

  abbrev pub run_action : Option Sigaction → Siginfo → Signals × W → Delivery (Signals × W)
  run_action none info st = wild
  run_action (some act) info st =
      if act.sa_handler == sig_ign
      then returned st
      else (if act.sa_handler == sig_dfl
          then signal_act_default info st
          else (if not (bit_and act.sa_flags sa_siginfo == 0)
              then returned (sa_sigaction act.sa_handler info.si_signo info st)
              else returned (sa_handler act.sa_handler info.si_signo st)))

  unfoldable pub signal_act : Siginfo → Signals × W → Delivery (Signals × W)
  signal_act info st = run_action (action_of st.0 info.si_signo) info st

  abbrev pub and_then :
      Delivery (Signals × W) → (Signals × W → Delivery (Signals × W)) → Delivery (Signals × W)
  and_then (returned st) k = k st
  and_then exited k = exited
  and_then wild k = wild
  and_then running k = running

  -- One turn of the loop with the outcome of the dequeue.
  abbrev pub act_on :
      Option Siginfo → Signals × W → (Signals × W → Delivery (Signals × W)) → Delivery (Signals × W)
  act_on none st k = returned st
  act_on (some info) st k = and_then (signal_act info st) k

  -- The loop, with rounds.
  unfoldable pub pend_sv_handler : ℕ → Signals × W → Delivery (Signals × W)
  pend_sv_handler zero st = running
  pend_sv_handler (suc rounds) (s, w) =
      let (taken, s') = signal_dequeue_procmask wild_shift s in
      act_on taken (s', w) (pend_sv_handler rounds)
