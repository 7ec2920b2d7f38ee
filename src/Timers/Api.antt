-- ===== src/Timers/Api.antt =====
-- src/timers.c: the functions of <time.h>. `fault` is the use of an id whose slot lies outside the
-- table. What is written through a pointer stands beside the value returned.
pub mod Create
pub mod Set
use nucleo_tests.Base.{
  ℕ, suc, Bool, true, false, not, ◌&&◌, Option, none, some, List, set, if◌then◌else◌, ◌-◌,
}
use nucleo_tests.Base.Run.{Run, done, fault, more, ◌>>=◌}
use nucleo_tests.Base.Int.{ℤ, pos, eqb_ℤ, minus_one}
use nucleo_tests.Timespec.{Timespec, timespec_add, timespec_diff, timespec_zero}
use nucleo_tests.Signal.State.{Errno, eagain, einval}
use nucleo_tests.Timers.State.{
  SysTimer, Sigevent, Itimerspec, TimerState, Env, ClockId, clock_monotonic, clock_realtime, other,
  timer_at, by_id, is_allocated,
}
use nucleo_tests.Timers.Table.{sys_timer_alloc, sys_timer_free, is_armed, sys_td2timerid}
use nucleo_tests.Timers.Expiry.{sys_timer_time_to_expiration, sys_timers_manage, sigev_signal}

abbrev pub is_known : ClockId → Bool
is_known clock_monotonic = true
is_known clock_realtime = true
is_known (other _) = false

module _ {W : Type 0} (env : Env W) where
  -- The event of a new timer: the one given, or SIGALRM with the timer's id. A cleared slot has no
  -- notification function.
  abbrev pub event_for : Option Sigevent → ℕ → Sigevent
  event_for (some sevp) timerid = sevp
  event_for none timerid = record {
    sigev_notify = sigev_signal;
    sigev_signo = env.sigalrm;
    sigev_value = timerid;
    sigev_notify_function = 0;
  }

  -- The id written comes second.
  abbrev pub fill_slot :
      ClockId
      → Option Sigevent
      → TimerState W
      → Option ℕ × List SysTimer
      → ℤ × Option ℕ × TimerState W
  fill_slot clockid sevp st (none, _) = (minus_one, none, record st { errno = eagain })
  fill_slot clockid sevp st (some td, timers) =
      let t = timer_at timers td in
      (
        pos 0,
        some t.timerid,
        record st {
          sys_timers =
              set timers td (record t { clockid = clockid; sevp = event_for sevp t.timerid });
        },
      )

  unfoldable pub timer_create :
      ClockId → Option Sigevent → TimerState W → ℤ × Option ℕ × TimerState W
  timer_create clockid sevp st =
      if is_known clockid
      then fill_slot clockid sevp st (sys_timer_alloc st.sys_timers)
      else (minus_one, none, record st { errno = einval })

  -- An operation on the timer of an id: a fault outside the table, `EINVAL` for a slot not in use.
  abbrev pub on_timer {ℓ} :
      {A : Type ℓ}
      → A
      → Option SysTimer
      → (SysTimer → Run (ℤ × A × TimerState W))
      → TimerState W
      → Run (ℤ × A × TimerState W)
  on_timer nothing none f st = fault
  on_timer nothing (some t) f st =
      if is_allocated t then f t else done (minus_one, nothing, record st { errno = einval })

  unfoldable pub timer_delete : ℕ → TimerState W → Run (ℤ × Unit {0} × TimerState W)
  timer_delete timerid st =
      on_timer tt (by_id st.sys_timers timerid)
        (λ _.
          done (pos 0, tt, record st { sys_timers = sys_timer_free (timerid - 1) st.sys_timers }))
        st

  -- The time left and the interval of an armed timer, or the value of one that is not.
  unfoldable pub current_value : SysTimer → W → Itimerspec × W
  current_value t w =
      let (left, w') = sys_timer_time_to_expiration env t w in
      if is_armed t
      then (record { it_value = left; it_interval = t.value.it_interval }, w')
      else (t.value, w)

  -- The new value of a timer: a relative one is made absolute, unless it disarms.
  unfoldable pub new_spec : Bool → SysTimer → Itimerspec → W → Itimerspec × W
  new_spec abstime t new_value w =
      let (now, w') = env.clock_gettime t.clockid w in
      if not (eqb_ℤ (timespec_diff new_value.it_value timespec_zero) (pos 0)) && not abstime
      then (
        record {
          it_value = timespec_add now new_value.it_value;
          it_interval = new_value.it_interval;
        },
        w',
      )
      else (new_value, w)

  -- `wants_old` tells whether `old_value` is given; what is written there comes second.
  unfoldable pub timer_settime :
      ℕ → ℕ → Bool → Itimerspec → Bool → TimerState W → Run (ℤ × Option Itimerspec × TimerState W)
  timer_settime rounds timerid abstime new_value wants_old st =
      on_timer none (by_id st.sys_timers timerid)
        (λ t.
          let (old, w1) = current_value t st.world in
          let w = if wants_old then w1 else st.world in
          let (spec, w2) = new_spec abstime t new_value w in
          let timers = set st.sys_timers (timerid - 1) (record t { value = spec }) in
          sys_timers_manage env rounds (record st { sys_timers = timers; world = w2 }) >>= λ st'.
          done (pos 0, (if wants_old then some old else none), st'))
        st

  unfoldable pub timer_gettime : ℕ → TimerState W → Run (ℤ × Option Itimerspec × TimerState W)
  timer_gettime timerid st =
      on_timer none (by_id st.sys_timers timerid)
        (λ t.
          let (curr, w) = current_value t st.world in
          done (pos 0, some curr, record st { world = w }))
        st

  -- The count is returned, and no function changes it.
  unfoldable pub timer_getoverrun : ℕ → TimerState W → Run (ℤ × Unit {0} × TimerState W)
  timer_getoverrun timerid st =
      on_timer tt (by_id st.sys_timers timerid) (λ t. done (t.overrun, tt, st)) st
