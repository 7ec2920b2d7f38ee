-- ===== src/Tests/Ticks.antt =====
-- A clock that is interrupted twice while it is read and set.
use nucleo_tests.Base.{ℕ, zero, suc, ◌≡◌, arith, false, some, ◌<◌, ◌≤◌, ◌+◌, ◌^◌}
use nucleo_tests.Base.Run.{Ends}
use nucleo_tests.Base.Int.{pos}
use nucleo_tests.Timespec.{Timespec}
use nucleo_tests.Timers.State.{clock_realtime}
use nucleo_tests.Systick.{
  Systick, Env, at_realtime, value_at, read_clock, write_clock, clock_settime,
}
use nucleo_tests.Systick.Consistent.{IsCalm, clocks_whole}
use nucleo_tests.Systick.Setting.{Outcome, clock_settime_outcome}

abbrev ticks : ℕ → ℕ × ℕ
ticks zero = (0, 0)
ticks (suc n) = (1, n)

abbrev env : Env ℕ
env = record {
  rcc_ahb_frequency = 8000000;
  ticks = ticks;
  systick_get_value = λ w. (7, w);
  timesync_timespec = λ t s. (t, s);
}

abbrev noon : Timespec
noon = record { sec = pos 12; nsec = pos 999000000 }

abbrev start : Systick ℕ
start = record {
  realtime = noon;
  monotonic = noon;
  timer_update_flag = pos 0;
  clock_gettime_mutex = false;
  errno = pos 0;
  world = 2;
}

rare : (w : ℕ) → (ticks w).0 < 2 ^ 30
rare zero = omega arith
rare (suc n) = omega arith

ticked : (w : ℕ) → (ticks w).1 + (ticks w).0 ≤ w
ticked zero = omega arith
ticked (suc n) = omega arith

calm : IsCalm env (λ w. w)
calm = record { rare = rare; ticked = ticked; counted = λ w. omega arith }

clocks_whole_example :
    Ends (λ r. r.0 ≡ value_at at_realtime r.2) (read_clock env 3 at_realtime start)
    × Ends (λ s'. value_at at_realtime s' ≡ noon) (write_clock env 3 at_realtime noon start)
clocks_whole_example = clocks_whole env (λ w. w) calm 3 at_realtime noon start (omega arith)

clock_settime_outcome_example :
    Ends (Outcome clock_realtime noon start) (clock_settime env 3 clock_realtime (some noon) start)
clock_settime_outcome_example =
    clock_settime_outcome env (λ w. w) 3 clock_realtime noon start calm (omega arith)
