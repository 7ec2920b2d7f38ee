-- ===== src/Sleep/End.antt =====
-- When a sleep ends, and with what.
use nucleo_tests.Base.{
  ℕ, ap, zero, suc, ◌<◌, ◌≡◌, arith, Bool, true, false, Option, none, some, Bool-cases, inl, inr,
}
use nucleo_tests.Base.Int.{ℤ, pos, leb_ℤ, eqb_ℤ, to_unsigned}
use nucleo_tests.Timespec.{Timespec, timespec_add, timespec_diff, timespec_zero}
use nucleo_tests.Poll.{Clock}
use nucleo_tests.Sleep.{sleep_until, clock_nanosleep, sleep, whole_seconds, seconds_left}

module _ {W : Type 0} (clock : Clock W) where
  -- The end of a sleep that starts in some state, and the state of the first reading that its loop
  -- tests.
  abbrev pub sleep_end : Bool → Timespec → W → Timespec
  sleep_end true rqtp w = rqtp
  sleep_end false rqtp w = timespec_add (clock (clock w).2).1 rqtp

  abbrev pub first_tested : Bool → W → W
  first_tested true w = w
  first_tested false w = (clock w).2

  -- A reading before the end brings the measure down.
  abbrev pub Brings : Timespec → (W → ℕ) → Type 0
  Brings tend left =
      (w : W) → leb_ℤ (timespec_diff tend (clock w).1) (pos 0) ≡ false → left (clock w).2 < left w

  -- The sleep is over: it returned 0 with no time left, and the clock was read at its end or after.
  pub record Slept (tend : Timespec) (r : Option (ℤ × Option Timespec × W)) : Type 0 where
    pub at : W
    pub over : r ≡ some (pos 0, some timespec_zero, (clock at).2)
    pub late : leb_ℤ (timespec_diff tend (clock at).1) (pos 0) ≡ true

  module _ (works : (w : W) → (clock w).0 ≡ pos 0) (left : W → ℕ) where
    until-Slept :
        (tend : Timespec)
        → Brings tend left
        → (rounds : ℕ) (w : W) → left w < rounds
        → Slept tend (sleep_until clock rounds tend (clock w).0 (clock w).1 (clock w).2)
    unfolding sleep_until
    until-Slept tend b zero w h = absurd (omega arith)
    until-Slept tend b (suc rounds) w h =
        elim (Bool-cases (leb_ℤ (timespec_diff tend (clock w).1) (pos 0))) [
          | inl late ↦ record { at = w; over = rw (works w, late); late = late }
          | inr early ↦
              let near = b w early in
              let r = until-Slept tend b rounds (clock w).2 (omega arith) in
              record { at = r.at; over = rw (works w, early) (r.over); late = r.late }
        ]

    -- On a clock that works and whose readings before the end bring a measure down, a sleep, absolute
    -- or relative, ends within one round more than the measure: it returns 0 with no time left, and
    -- not before the clock was read at the end of the sleep or after it.
    pub clock_nanosleep-Slept :
        (abstime : Bool) (rqtp : Timespec) (rounds : ℕ) (w : W)
        → Brings (sleep_end abstime rqtp w) left
        → left (first_tested abstime w) < rounds
        → Slept (sleep_end abstime rqtp w) (clock_nanosleep clock rounds abstime rqtp w)
    unfolding clock_nanosleep
    clock_nanosleep-Slept true rqtp rounds w b h = until-Slept rqtp b rounds w h
    clock_nanosleep-Slept false rqtp rounds w b h =
        until-Slept (timespec_add (clock (clock w).2).1 rqtp) b rounds (clock w).2 h

  -- On a clock that works and whose readings before the end bring a measure down, with one round more
  -- than the measure, `sleep` returns 0, and does not return before the clock was read at the end of
  -- the seconds asked for, or of `INT_MAX` seconds if that is less, or after it.
  pub sleep-zero :
      (works : (w : W) → (clock w).0 ≡ pos 0) (left : W → ℕ) (rounds seconds : ℕ) (junk : ℤ) (w : W)
      → Brings (sleep_end false (whole_seconds seconds) w) left
      → left (clock w).2 < rounds
      → (at : W) × (sleep clock rounds junk seconds w ≡ some (0, (clock at).2))
        × (leb_ℤ (timespec_diff (sleep_end false (whole_seconds seconds) w) (clock at).1) (pos 0)
            ≡ true)
  unfolding sleep
  sleep-zero works left rounds seconds junk w b h =
      let r = clock_nanosleep-Slept works left false (whole_seconds seconds) rounds w b h in
      (r.at, ap (seconds_left junk) (r.over), r.late)

  -- Where the second reading of the clock fails, `sleep` returns what its variable for the time left
  -- held before: nothing is written there.
  pub sleep-failing :
      (rounds seconds : ℕ) (junk : ℤ) (w : W)
      → eqb_ℤ (clock (clock w).2).0 (pos 0) ≡ false
      → sleep clock (suc rounds) junk seconds w ≡ some (to_unsigned junk, (clock (clock w).2).2)
  unfolding sleep clock_nanosleep sleep_until
  sleep-failing rounds seconds junk w bad = ap (seconds_left junk) (failed)
    where
      failed :
          sleep_until clock
            (suc rounds)
            (sleep_end false (whole_seconds seconds) w)
            (clock (clock w).2).0
            (clock (clock w).2).1
            (clock (clock w).2).2
          ≡ some ((clock (clock w).2).0, none, (clock (clock w).2).2)
      failed = rw bad
