-- ===== src/Tests/Clocks.antt =====
-- Timers under a clock that stands at ten seconds.
use nucleo_tests.Base.{ℕ, zero, suc, ◌≡◌, refl, arith, true, subst, ◌∷◌, replicate}
use nucleo_tests.Base.Run.{done}
use nucleo_tests.Base.Int.{pos, i32, ◌+ℤ◌, ◌-ℤ◌}
use nucleo_tests.Timespec.{timespec_add, timespec_diff, diff_of, timespec_zero}
use nucleo_tests.Signal.State.{einval}
use nucleo_tests.Timers.State.{
  SysTimer, Sigevent, TimerState, Env, clock_monotonic, timer_at, zero_timer, zero_spec, timer_max,
}
use nucleo_tests.Timers.Table.{is_armed, sys_timer_isarmed, iter_from, sys_timer_iter}
use nucleo_tests.Timers.Expiry.{
  sys_timers_manage, timer_expired, sys_timer_next_expiring, next_from, keep_earlier, manage_turn,
  rearm, notify, sys_timer_time_to_expiration, sys_timer_expires_before,
}
use nucleo_tests.Timers.Expiry.Fire.{Fired, timer_expired-Fired}
use nucleo_tests.Timers.Expiry.Earliest.{IsSteady, ExpiriesInRange, NoneDue}
use nucleo_tests.Timers.Expiry.Total.{OneShot, count_le, sys_timers_manage-total}

-- The world counts the signals queued.
abbrev env : Env ℕ
env = record {
  clock_gettime = λ c w. (record { sec = pos 10; nsec = pos 0 }, w);
  sigqueue_info = λ info w. (pos 0, suc w);
  notify_function = λ f v st. st;
  sigalrm = pos 14;
}

abbrev event : Sigevent
event = record {
  sigev_notify = pos 1;
  sigev_signo = pos 14;
  sigev_value = 1;
  sigev_notify_function = 0;
}

-- Due at nine seconds, with no interval.
abbrev due : SysTimer
due = record {
  timerid = 1;
  clockid = clock_monotonic;
  sevp = event;
  value = record { it_interval = timespec_zero; it_value = record { sec = pos 9; nsec = pos 0 } };
  overrun = pos 0;
}

abbrev one_due : TimerState ℕ
one_due = record { sys_timers = due ∷ replicate 31 zero_timer; errno = einval; world = 0 }

expired_once :
    sys_timers_manage env 2 one_due
    ≡ done (record one_due {
      sys_timers = record due { value = zero_spec } ∷ replicate 31 zero_timer;
      world = 1;
    })
unfolding sys_timers_manage timer_expired sys_timer_next_expiring next_from keep_earlier manage_turn
    rearm notify sys_timer_time_to_expiration sys_timer_expires_before sys_timer_iter iter_from
    sys_timer_isarmed timespec_diff diff_of timespec_add i32 ◌+ℤ◌ ◌-ℤ◌
expired_once = refl

-- With another one that is not due before fifteen seconds.
abbrev later : SysTimer
later = record due {
  timerid = 2;
  value = record { it_interval = timespec_zero; it_value = record { sec = pos 15; nsec = pos 0 } };
}

abbrev two_armed : TimerState ℕ
two_armed = record one_due { sys_timers = due ∷ later ∷ replicate 30 zero_timer }

steady : IsSteady env
steady = record {
  still = λ c c' w. refl;
  reading = λ c w. record {
    normal = record { sec_fits = omega arith; nsec_small = omega arith; nsec_pos = refl };
    sec_small = omega arith;
    sec_pos = refl;
  };
}

no_timer : (n j : ℕ) → timer_at (replicate n zero_timer) j ≡ zero_timer
no_timer zero j = refl
no_timer (suc n) zero = refl
no_timer (suc n) (suc j) = no_timer n j

two_armed-OneShot : OneShot two_armed.sys_timers
unfolding timespec_diff diff_of i32 ◌-ℤ◌
two_armed-OneShot zero on = refl
two_armed-OneShot (suc zero) on = refl
two_armed-OneShot (suc (suc j)) on = rw (no_timer 30 j) refl

two_armed-ExpiriesInRange : ExpiriesInRange two_armed.sys_timers
unfolding sys_timer_isarmed is_armed timespec_diff diff_of i32 ◌-ℤ◌
two_armed-ExpiriesInRange zero on = record {
  normal = record { sec_fits = omega arith; nsec_small = omega arith; nsec_pos = refl };
  sec_small = omega arith;
  sec_pos = refl;
}
two_armed-ExpiriesInRange (suc zero) on = record {
  normal = record { sec_fits = omega arith; nsec_small = omega arith; nsec_pos = refl };
  sec_small = omega arith;
  sec_pos = refl;
}
two_armed-ExpiriesInRange (suc (suc j)) on =
    absurd (cc (subst (λ t. is_armed t ≡ true) (no_timer 30 j) on))

sys_timers_manage-total_example :
    (out : TimerState ℕ) × (sys_timers_manage env 33 two_armed ≡ done out) × NoneDue env out
sys_timers_manage-total_example =
    sys_timers_manage-total env (λ f v st. refl) steady 33 two_armed refl two_armed-OneShot
      two_armed-ExpiriesInRange (omega (arith, count_le timer_max two_armed.sys_timers))

timer_expired-Fired_example :
    Fired env one_due.sys_timers 0
      (record { sec = pos 10; nsec = pos 0 })
      (timer_expired env 0 one_due).sys_timers
timer_expired-Fired_example = timer_expired-Fired env (λ f v st. refl) 0 one_due (omega arith)
