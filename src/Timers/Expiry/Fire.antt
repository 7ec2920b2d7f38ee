-- ===== src/Timers/Expiry/Fire.antt =====
-- What an expiry does to the table.
use nucleo_tests.Base.{
  ℕ, ◌<◌, ◌≡◌, ◌≢◌, inl, inr, sym, subst, List, length, Bool-cases, if◌then◌else◌, set, length-set,
  get_or-set_self, get_or-set_ne,
}
use nucleo_tests.Base.Int.{pos, ltb_ℤ, eqb_ℤ}
use nucleo_tests.Timespec.{Timespec, timespec_add, timespec_diff, timespec_zero}
use nucleo_tests.Timers.State.{SysTimer, Sigevent, TimerState, Env, timer_at, zero_timer}
use nucleo_tests.Timers.Expiry.{notify, rearm, timer_expired, sigev_signal, sigev_thread}

module _ {W : Type 0} (env : Env W) where
  -- A notification function that leaves the table of timers alone.
  abbrev pub LeavesTimers : Type 0
  LeavesTimers =
      (f v : ℕ) (st : TimerState W) → (env.notify_function f v st).sys_timers ≡ st.sys_timers

  notify-timers :
      LeavesTimers
      → (sevp : Sigevent) (st : TimerState W) → (notify env sevp st).sys_timers ≡ st.sys_timers
  unfolding notify
  notify-timers q sevp st = elim (Bool-cases (eqb_ℤ sevp.sigev_notify sigev_signal)) [
    | inl signal ↦ rw signal
    | inr other ↦ elim (Bool-cases (eqb_ℤ sevp.sigev_notify sigev_thread)) [
      | inl thread ↦ rw (other, thread) (q sevp.sigev_notify_function sevp.sigev_value st)
      | inr nothing ↦ rw (other, nothing)
    ]
  ]

  -- The timer after its expiry at a reading of its clock: its next expiry is one interval later if
  -- its interval is positive, and zero otherwise; it keeps its id, and so its slot, its clock, its
  -- event, its interval and its overruns.
  abbrev pub fired : SysTimer → Timespec → SysTimer
  fired t now = record t {
    value = record t.value {
      it_value =
          if ltb_ℤ (pos 0) (timespec_diff t.value.it_interval timespec_zero)
          then timespec_add now t.value.it_interval
          else timespec_zero;
    };
  }

  -- The table after the expiry of one of its timers: the others are the same.
  pub record Fired (timers : List SysTimer) (td : ℕ) (now : Timespec) (timers' : List SysTimer)
      : Type 0 where
    pub timer : timer_at timers' td ≡ fired (timer_at timers td) now
    pub others : (j : ℕ) → td ≢ j → timer_at timers' j ≡ timer_at timers j
    pub slots : length timers' ≡ length timers

  set-Fired :
      (timers : List SysTimer) (td : ℕ) (now : Timespec)
      → td < length timers
      → Fired timers td now (set timers td (fired (timer_at timers td) now))
  set-Fired timers td now l = record {
    timer = get_or-set_self timers td _ zero_timer l;
    others = λ j ne. get_or-set_ne timers td j _ zero_timer ne;
    slots = length-set timers td _;
  }

  rearm-set :
      (td : ℕ) (st : TimerState W)
      → let t = timer_at st.sys_timers td in
        (rearm env td st).sys_timers
        ≡ set st.sys_timers td (fired t (env.clock_gettime t.clockid st.world).0)
  unfolding rearm
  rearm-set td st =
      let interval = (timer_at st.sys_timers td).value.it_interval in
      elim (Bool-cases (ltb_ℤ (pos 0) (timespec_diff interval timespec_zero))) [
        | inl periodic ↦ rw periodic
        | inr once ↦ rw once
      ]

  rearm-Fired :
      (td : ℕ) (st : TimerState W)
      → td < length st.sys_timers
      → let t = timer_at st.sys_timers td in
        Fired st.sys_timers td (env.clock_gettime t.clockid st.world).0 (rearm env td st).sys_timers
  rearm-Fired td st l = rw (rearm-set td st) (set-Fired st.sys_timers td _ l)

  -- Where the notification functions leave the table alone, the expiry of a timer of the table
  -- re-arms a periodic timer one interval after the time that its clock has once it has been
  -- notified, disarms any other, keeps the rest of the timer, and leaves the rest of the table.
  pub timer_expired-Fired :
      LeavesTimers
      → (td : ℕ) (st : TimerState W) → td < length st.sys_timers
      → let t = timer_at st.sys_timers td in
        Fired st.sys_timers td
          (env.clock_gettime t.clockid (notify env t.sevp st).world).0
          (timer_expired env td st).sys_timers
  unfolding timer_expired
  timer_expired-Fired q td st l =
      let t = timer_at st.sys_timers td in
      let same = notify-timers q t.sevp st in
      subst
        (λ ts.
          Fired ts td (env.clock_gettime (timer_at ts td).clockid (notify env t.sevp st).world).0
            (timer_expired env td st).sys_timers)
        same (rearm-Fired td (notify env t.sevp st) (subst (λ ts. td < length ts) (sym same) l))
