-- ===== src/Signal/Wait.antt =====
-- src/signal.c: waiting for a signal. `W` is the state outside src/signal.c, and `clock` is
-- `clock_gettime(CLOCK_MONOTONIC, _)`: interrupts may queue signals while it runs, so it takes the
-- whole state. `junk` is what the local `ret` of `sigtimedwait` holds before anything is assigned.
pub mod Timeout
use nucleo_tests.Base.{ℕ, zero, suc, Option, none, some, if◌then◌else◌}
use nucleo_tests.Base.Int.{ℤ, pos, leb_ℤ, eqb_ℤ, minus_one}
use nucleo_tests.Timespec.{Timespec, timespec_diff, diff_of, timespec_infinity}
use nucleo_tests.Poll.{Clock}
use nucleo_tests.Signal.State.{Siginfo, Signals, eagain}
use nucleo_tests.Signal.Queue.{signal_dequeue}

-- What a wait returns, what it writes to `*info`, and the state after it.
pub record Waited (W : Type 0) : Type 0 where
  pub ret : ℤ
  pub info : Option Siginfo
  pub state : Signals × W

module _ {W : Type 0} (wild_shift : ℤ → ℕ) (junk : ℤ) (clock : Clock (Signals × W)) where
  -- The loop from `start` on; `none` when the rounds do not suffice.
  unfoldable pub wait_from : ℕ → ℕ → Timespec → Timespec → Signals × W → Option (Waited W)
  wait_from zero set timeout start st = none
  wait_from (suc rounds) set timeout start (s, w) =
      let (taken, s') = signal_dequeue wild_shift set s in
      let (_, now, (s2, w2)) = clock (s', w) in
      let again = wait_from rounds set timeout start (s2, w2) in
      elim taken [
        | some info ↦ some (record { ret = junk; info = some info; state = (s', w) })
        | none ↦
            if leb_ℤ (timespec_diff timeout (diff_of now start)) (pos 0)
            then some (record {
              ret = minus_one;
              info = none;
              state = (record s2 { errno = eagain }, w2);
            })
            else again
      ]

  unfoldable pub sigtimedwait : ℕ → ℕ → Timespec → Signals × W → Option (Waited W)
  sigtimedwait rounds set timeout st =
      let (_, start, st') = clock st in wait_from rounds set timeout start st'

  unfoldable pub sigwaitinfo : ℕ → ℕ → Signals × W → Option (Waited W)
  sigwaitinfo rounds set st = sigtimedwait rounds set timespec_infinity st

  -- What is written to `*sig`, where something is, comes second.
  unfoldable pub sigwait : ℕ → ℕ → Signals × W → Option (ℤ × Option ℤ × (Signals × W))
  sigwait rounds set st = elim (sigwaitinfo rounds set st) [
    | none ↦ none
    | some r ↦ some (r.ret, (if eqb_ℤ r.ret (pos 0) then signo r.info else none), r.state)
  ]
    where
      signo : Option Siginfo → Option ℤ
      signo none = none
      signo (some info) = some info.si_signo
