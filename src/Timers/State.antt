-- ===== src/Timers/State.antt =====
-- src/timers.c: `struct sys_timer` and the table of them.
-- `W` is the state outside src/timers.c. The clocks, the signal queue and the functions that the
-- application has called on expiry are parameters; the latter may use the timers themselves.
use nucleo_tests.Base.{ℕ, zero, suc, Bool, Option, none, List, get_elem?, get_or, ◌==◌, not}
use nucleo_tests.Base.Int.{ℤ, pos}
use nucleo_tests.Timespec.{Timespec, timespec_zero}
use nucleo_tests.Signal.State.{Siginfo, Errno}

pub data ClockId : Type 0 where
  clock_monotonic clock_realtime : ClockId
  other : ℤ → ClockId

-- SIGEV_NONE, SIGEV_SIGNAL and SIGEV_THREAD are 0, 1 and 2.
pub record Sigevent : Type 0 where
  pub sigev_notify : ℤ
  pub sigev_signo : ℤ
  pub sigev_value : ℕ
  pub sigev_notify_function : ℕ

pub record Itimerspec : Type 0 where
  pub it_interval : Timespec
  pub it_value : Timespec

pub record SysTimer : Type 0 where
  pub timerid : ℕ
  pub clockid : ClockId
  pub sevp : Sigevent
  pub value : Itimerspec
  pub overrun : ℤ

abbrev pub timer_max : ℕ
timer_max = 32

abbrev pub zero_spec : Itimerspec
zero_spec = record { it_interval = timespec_zero; it_value = timespec_zero }

-- A slot filled with zeros; the id 0 of a clock is none that the code knows.
abbrev pub zero_timer : SysTimer
zero_timer = record {
  timerid = 0;
  clockid = other (pos 0);
  sevp = record {
    sigev_notify = pos 0;
    sigev_signo = pos 0;
    sigev_value = 0;
    sigev_notify_function = 0;
  };
  value = zero_spec;
  overrun = pos 0;
}

pub record TimerState (W : Type 0) : Type 0 where
  pub sys_timers : List SysTimer
  pub errno : Errno
  pub world : W

pub record Env (W : Type 0) : Type 0 where
  pub clock_gettime : ClockId → W → Timespec × W
  pub sigqueue_info : Siginfo → W → ℤ × W
  pub notify_function : ℕ → ℕ → TimerState W → TimerState W
  pub sigalrm : ℤ

-- `sys_timers[td]` for a `td` below `TIMER_MAX`.
abbrev pub timer_at : List SysTimer → ℕ → SysTimer
timer_at timers td = get_or timers td zero_timer

-- `sys_timers[sys_timerid2td(timerid)]`: nothing, where the index lies outside the table.
abbrev pub by_id : List SysTimer → ℕ → Option SysTimer
by_id timers zero = none
by_id timers (suc td) = get_elem? timers td

abbrev pub is_allocated : SysTimer → Bool
is_allocated t = not (t.timerid == 0)
