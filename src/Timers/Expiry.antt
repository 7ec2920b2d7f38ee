-- ===== src/Timers/Expiry.antt =====
-- src/timers.c: the next timer to expire, and its expiry.
pub mod Next
pub mod Fire
pub mod Left
pub mod Earliest
pub mod Total
use nucleo_tests.Base.{
  ℕ, zero, suc, Bool, true, false, Option, none, some, List, set, if◌then◌else◌,
}
use nucleo_tests.Base.Run.{Run, done, fault, more}
use nucleo_tests.Base.Int.{ℤ, pos, leb_ℤ, ltb_ℤ, eqb_ℤ}
use nucleo_tests.Timespec.{Timespec, timespec_add, timespec_diff, diff_of, timespec_zero}
use nucleo_tests.Signal.State.{Siginfo, si_timer}
use nucleo_tests.Timers.State.{SysTimer, Sigevent, Itimerspec, TimerState, Env, timer_max, timer_at}
use nucleo_tests.Timers.Table.{sys_timer_iter}

abbrev pub sigev_signal : ℤ
sigev_signal = pos 1

abbrev pub sigev_thread : ℤ
sigev_thread = pos 2

module _ {W : Type 0} (env : Env W) where
  -- The time until a timer's expiry, by its clock.
  unfoldable pub sys_timer_time_to_expiration : SysTimer → W → Timespec × W
  sys_timer_time_to_expiration t w =
      let (now, w') = env.clock_gettime t.clockid w in (diff_of t.value.it_value now, w')

  unfoldable pub sys_timer_expires_before : List SysTimer → ℕ → ℕ → W → Bool × W
  sys_timer_expires_before timers t1 t2 w =
      let (to_expiration_t1, w1) = sys_timer_time_to_expiration (timer_at timers t1) w in
      let (to_expiration_t2, w2) = sys_timer_time_to_expiration (timer_at timers t2) w1 in
      (if leb_ℤ (pos 0) (timespec_diff to_expiration_t1 to_expiration_t2) then false else true, w2)

  -- One turn of the loop: which timer to keep.
  unfoldable pub keep_earlier : List SysTimer → ℕ → Option ℕ → W → Option ℕ × W
  keep_earlier timers titer none w = (some titer, w)
  keep_earlier timers titer (some td_expiring) w =
      let (before, w') = sys_timer_expires_before timers titer td_expiring w in
      (if before then some titer else some td_expiring, w')

  -- The loop of `sys_timer_next_expiring`, with rounds; `more` when they do not suffice.
  unfoldable pub next_from : ℕ → List SysTimer → Option ℕ → Option ℕ → W → Run (Option ℕ × W)
  next_from zero timers titer td_expiring w = more
  next_from (suc rounds) timers none td_expiring w = done (td_expiring, w)
  next_from (suc rounds) timers (some titer) td_expiring w =
      let (td', w') = keep_earlier timers titer td_expiring w in
      next_from rounds timers (sys_timer_iter timers (some titer)) td' w'

  -- A round for each slot, and one to find the end.
  unfoldable pub sys_timer_next_expiring : List SysTimer → W → Run (Option ℕ × W)
  sys_timer_next_expiring timers w =
      next_from (suc timer_max) timers (sys_timer_iter timers none) none w

  -- The notification of `timer_expired`. The value that `sigqueue_info` returns is dropped.
  unfoldable pub notify : Sigevent → TimerState W → TimerState W
  notify sevp st =
      if eqb_ℤ sevp.sigev_notify sigev_signal
      then (let info : Siginfo = record {
        si_signo = sevp.sigev_signo;
        si_code = si_timer;
        si_pid = pos 0;
        si_value = sevp.sigev_value;
      } in
          let (_, w') = env.sigqueue_info info st.world in record st { world = w' })
      else (if eqb_ℤ sevp.sigev_notify sigev_thread
          then env.notify_function sevp.sigev_notify_function sevp.sigev_value st
          else st)

  abbrev pub set_it_value : ℕ → Timespec → TimerState W → TimerState W
  set_it_value td v st =
      let t = timer_at st.sys_timers td in
      record st {
        sys_timers = set st.sys_timers td (record t { value = record t.value { it_value = v } });
      }

  unfoldable pub rearm : ℕ → TimerState W → TimerState W
  rearm td st =
      let t = timer_at st.sys_timers td in
      let (now, w') = env.clock_gettime t.clockid st.world in
      if ltb_ℤ (pos 0) (timespec_diff t.value.it_interval timespec_zero)
      then set_it_value td (timespec_add now t.value.it_interval) (record st { world = w' })
      else set_it_value td timespec_zero st

  unfoldable pub timer_expired : ℕ → TimerState W → TimerState W
  timer_expired td st = rearm td (notify (timer_at st.sys_timers td).sevp st)

  -- One turn of the loop of `sys_timers_manage`, with the next timer and the rest of the loop. The
  -- functions for the hardware timer are empty.
  unfoldable pub manage_turn :
      (TimerState W → Run (TimerState W)) → TimerState W → Run (Option ℕ × W) → Run (TimerState W)
  manage_turn again st fault = fault
  manage_turn again st more = more
  manage_turn again st (done (none, w)) = done (record st { world = w })
  manage_turn again st (done (some td, w)) =
      let (to_expiration, w') = sys_timer_time_to_expiration (timer_at st.sys_timers td) w in
      let st' : TimerState W = record st { world = w' } in
      if leb_ℤ (timespec_diff to_expiration timespec_zero) (pos 0)
      then again (timer_expired td st')
      else done st'

  unfoldable pub sys_timers_manage : ℕ → TimerState W → Run (TimerState W)
  sys_timers_manage zero st = more
  sys_timers_manage (suc rounds) st =
      manage_turn (sys_timers_manage rounds) st (sys_timer_next_expiring st.sys_timers st.world)
