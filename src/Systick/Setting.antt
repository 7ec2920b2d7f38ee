-- ===== src/Systick/Setting.antt =====
-- What `clock_settime` does with each clock and time.
use nucleo_tests.Base.{ℕ, ◌<◌, ◌≡◌, ◌≢◌, ◌⊎◌, inl, inr, arith, refl, some}
use nucleo_tests.Base.Run.{Ends, Ends-if, Ends->>=}
use nucleo_tests.Base.Int.{ℤ, pos, ltb_ℤ, leb_ℤ, minus_one, ◌<ℤ◌, ◌≤ℤ◌}
use nucleo_tests.Timespec.{Timespec, nsecs_in_sec}
use nucleo_tests.Timers.State.{ClockId, clock_monotonic, clock_realtime, other}
use nucleo_tests.Systick.{Systick, Env, at_realtime, clock_settime, clock_get, write_clock, einval}
use nucleo_tests.Systick.Consistent.{IsCalm, clocks_whole}

abbrev pub IsRefused : ClockId → Timespec → Type 0
IsRefused clock_id t =
    (clock_id ≢ clock_realtime) ⊎ (t.nsec <ℤ pos 0) ⊎ (pos nsecs_in_sec ≤ℤ t.nsec)

-- The clock was set, or the call was refused and nothing else changed.
abbrev pub Outcome : {W : Type 0} → ClockId → Timespec → Systick W → ℤ × Systick W → Type 0
Outcome clock_id t s r =
    ((clock_id ≡ clock_realtime)
      × (pos 0 ≤ℤ t.nsec)
      × (t.nsec <ℤ pos nsecs_in_sec)
      × (r.0 ≡ pos 0)
      × (r.1.realtime ≡ t))
    ⊎ (IsRefused clock_id t × (r ≡ (minus_one, record s { errno = einval })))

-- Where the interrupts use up some measure and never come 2^30 times at once, with one round more
-- than the measure, `clock_settime` returns. It returns 0 for the real time and a time with its
-- nanoseconds in one second, which the clock holds then; for another clock or another time it
-- returns -1 with EINVAL and changes nothing else.
pub clock_settime_outcome :
    {W : Type 0} (env : Env W) (left : W → ℕ) (rounds : ℕ) (clock_id : ClockId) (t : Timespec)
    (s : Systick W)
    → IsCalm env left
    → left s.world < rounds
    → Ends (Outcome clock_id t s) (clock_settime env rounds clock_id (some t) s)
unfolding clock_settime clock_get
clock_settime_outcome env left rounds clock_monotonic t s calm h = inr (inl (λ e. cc), refl)
clock_settime_outcome env left rounds (other z) t s calm h = inr (inl (λ e. cc), refl)
clock_settime_outcome env left rounds clock_realtime t s calm h =
    Ends-if (Outcome clock_realtime t s) (ltb_ℤ t.nsec (pos 0)) _ _
      (λ low. inr (inr (inl (ground arith)), refl))
      (λ high.
        Ends-if (Outcome clock_realtime t s) (leb_ℤ (pos nsecs_in_sec) t.nsec) _ _
          (λ over. inr (inr (inr (ground arith)), refl))
          (λ under.
            Ends->>= (λ s'. s'.realtime ≡ t) (Outcome clock_realtime t s)
              (write_clock env rounds at_realtime t s) _
              (clocks_whole env left calm rounds at_realtime t s h).1
              (λ s' e set. inl (refl, ground arith, ground arith, refl, set))))
