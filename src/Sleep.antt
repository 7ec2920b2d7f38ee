-- ===== src/Sleep.antt =====
-- src/clock_nanosleep_poll.c, src/nanosleep.c and src/sleep.c: sleeping by reading a clock.
-- `clock` is `clock_gettime` of the clock that is slept on. What is written to `*rmtp` comes second,
-- `none` where nothing is.
pub mod End
use nucleo_tests.Base.{
  ℕ, zero, suc, ◌-◌, ◌%◌, ◌^◌, Bool, false, Option, none, some, if◌then◌else◌, ltb,
}
use nucleo_tests.Base.Int.{ℤ, pos, negsuc, leb_ℤ, eqb_ℤ, to_unsigned}
use nucleo_tests.Timespec.{Timespec, timespec_add, timespec_diff, timespec_zero, int_max}
use nucleo_tests.Poll.{Clock}

-- The seconds of `sleep`, at most `INT_MAX`.
abbrev pub whole_seconds : ℕ → Timespec
whole_seconds seconds = record {
  sec = pos (if ltb int_max seconds then int_max else seconds);
  nsec = pos 0;
}

-- What `sleep` returns; `junk` is what `rmt.tv_sec` holds where nothing is written.
abbrev pub left_of : ℤ → Option Timespec → ℕ
left_of junk none = to_unsigned junk
left_of junk (some rmt) = to_unsigned rmt.sec

abbrev pub seconds_left : {W : Type 0} → ℤ → Option (ℤ × Option Timespec × W) → Option (ℕ × W)
seconds_left junk none = none
seconds_left junk (some (_, rmt, w)) = some (left_of junk rmt, w)

module _ {W : Type 0} (clock : Clock W) where
  -- The loop, with the outcome of the last reading; `none` when the rounds do not suffice.
  unfoldable pub sleep_until : ℕ → Timespec → ℤ → Timespec → W → Option (ℤ × Option Timespec × W)
  sleep_until zero tend ret tcurrent w = none
  sleep_until (suc rounds) tend ret tcurrent w =
      let (ret', tcurrent', w') = clock w in
      let again = sleep_until rounds tend ret' tcurrent' w' in
      if eqb_ℤ ret (pos 0)
      then (if leb_ℤ (timespec_diff tend tcurrent) (pos 0)
          then some (ret, some timespec_zero, w)
          else again)
      else some (ret, none, w)

  -- A relative time is added to a second reading, which is not tested before it is used.
  unfoldable pub clock_nanosleep : ℕ → Bool → Timespec → W → Option (ℤ × Option Timespec × W)
  clock_nanosleep rounds abstime rqtp w =
      let (ret, tcurrent, w1) = clock w in
      let (ret2, tcurrent2, w2) = clock w1 in
      if abstime
      then sleep_until rounds rqtp ret tcurrent w1
      else sleep_until rounds (timespec_add tcurrent2 rqtp) ret2 tcurrent2 w2

  unfoldable pub nanosleep : ℕ → Timespec → W → Option (ℤ × Option Timespec × W)
  unfolding clock_nanosleep
  nanosleep rounds rqtp w = clock_nanosleep rounds false rqtp w

  unfoldable pub sleep : ℕ → ℤ → ℕ → W → Option (ℕ × W)
  unfolding nanosleep
  sleep rounds junk seconds w = seconds_left junk (nanosleep rounds (whole_seconds seconds) w)
