-- ===== src/Signal/Action.antt =====
-- src/signal.c: the actions for the signals from 0 to `SIGNAL_MAX`.
pub mod Table
use nucleo_tests.Base.{
  ℕ, Bool, true, false, ◌||◌, Option, none, some, get_or, set, bit_and, bit_or, ltb, if◌then◌else◌,
}
use nucleo_tests.Base.Bits.{complement}
use nucleo_tests.Base.Int.{ℤ, pos, negsuc, ltb_ℤ, minus_one}
use nucleo_tests.Signal.State.{Sigaction, Signals, einval, signal_max, sa_restart}

abbrev pub no_action : Sigaction
no_action = record { sa_handler = 0; sa_flags = 0; sa_mask = 0 }

-- `signal_actions[sig]` for a `sig` that was tested.
abbrev pub action_at : Signals → ℤ → Sigaction
action_at s (pos sig) = get_or s.actions sig no_action
action_at s (negsuc _) = no_action

abbrev pub set_action : Signals → ℤ → Sigaction → Signals
set_action s (pos sig) act = record s { actions = set s.actions sig act }
set_action s (negsuc _) act = s

abbrev pub install : Option Sigaction → ℤ → Signals → Signals
install none sig s = s
install (some act) sig s = set_action s sig act

-- What is written to `*oact` comes second, `none` where nothing is.
unfoldable pub sigaction : ℤ → Option Sigaction → Signals → ℤ × Option Sigaction × Signals
sigaction sig act s =
    if ltb_ℤ (pos signal_max) sig || ltb_ℤ sig (pos 0)
    then (minus_one, none, record s { errno = einval })
    else (pos 0, some (action_at s sig), install act sig s)

abbrev pub or_junk : Option Sigaction → Sigaction → Sigaction
or_junk none junk = junk
or_junk (some act) junk = act

-- `junk` is what the local `act` holds where `sigaction` fails.
unfoldable pub siginterrupt : Sigaction → ℤ → Bool → Signals → ℤ × Signals
siginterrupt junk sig flag s =
    let (_, oact, s1) = sigaction sig none s in
    let act = or_junk oact junk in
    let flags =
      if flag
      then bit_and act.sa_flags (complement 32 sa_restart)
      else bit_or act.sa_flags sa_restart in
    let (ret, _, s2) = sigaction sig (some (record act { sa_flags = flags })) s1 in (ret, s2)

-- `sig_ign` is the toolchain's SIG_IGN.
unfoldable pub sigignore : ℕ → Sigaction → ℤ → Signals → ℤ × Signals
sigignore sig_ign junk sig s =
    let (_, oact, s1) = sigaction sig none s in
    let act = or_junk oact junk in
    let (ret, _, s2) = sigaction sig (some (record act { sa_handler = sig_ign })) s1 in (ret, s2)
