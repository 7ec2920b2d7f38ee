-- ===== src/Timeofday.antt =====
-- src/gettimeofday.c: the time of day. The value of the clock's call is ignored.
use nucleo_tests.Base.Int.{ℤ, pos}
use nucleo_tests.Timespec.{Timespec, Timeval, timespec_to_timeval}

-- The value and `*tp`. `clock_gettime` is that of `CLOCK_REALTIME`, with `*ts` after it.
unfoldable pub gettimeofday : {W : Type 0} → (W → ℤ × Timespec × W) → W → ℤ × Timeval × W
gettimeofday clock_gettime w =
    let (ret, ts, w') = clock_gettime w in (pos 0, timespec_to_timeval ts, w')
