-- ===== src/Tests/Sleeps.antt =====
-- A clock that reads ten seconds twice and twenty from then on.
use nucleo_tests.Base.{ℕ, zero, suc, ◌-◌, ◌≡◌, arith, refl, false}
use nucleo_tests.Base.Int.{ℤ, pos, minus_one, i32, ◌+ℤ◌, ◌-ℤ◌}
use nucleo_tests.Timespec.{timespec_add, timespec_diff, diff_of}
use nucleo_tests.Poll.{Clock}
use nucleo_tests.Sleep.{clock_nanosleep, whole_seconds}
use nucleo_tests.Sleep.End.{Slept, sleep_end, Brings, clock_nanosleep-Slept}

abbrev reading : ℕ → ℤ
reading zero = pos 10
reading (suc zero) = pos 10
reading (suc (suc n)) = pos 20

abbrev clock : Clock ℕ
clock n = (pos 0, record { sec = reading n; nsec = pos 0 }, suc n)

three_seconds_end :
    sleep_end clock false (whole_seconds 3) 0 ≡ record { sec = pos 13; nsec = pos 0 }
unfolding timespec_add i32 ◌+ℤ◌
three_seconds_end = refl

brings : Brings clock (sleep_end clock false (whole_seconds 3) 0) (λ n. 2 - n)
unfolding timespec_diff diff_of timespec_add i32 ◌+ℤ◌ ◌-ℤ◌
brings zero h = omega arith
brings (suc zero) h = omega arith
brings (suc (suc n)) h = absurd (cc)

clock_nanosleep-Slept_example :
    Slept clock
      (sleep_end clock false (whole_seconds 3) 0)
      (clock_nanosleep clock 4 false (whole_seconds 3) 0)
clock_nanosleep-Slept_example =
    clock_nanosleep-Slept clock (λ w. refl) (λ n. 2 - n) false (whole_seconds 3) 4 0 brings
      (omega arith)

abbrev broken : Clock ℕ
broken n = (minus_one, record { sec = pos 0; nsec = pos 0 }, suc n)
