-- ===== src/Timespec/Conversion.antt =====
-- Between `struct timespec` and `struct timeval`.
use nucleo_tests.Base.{◌+◌, ◌/◌, ◌≡◌, ◌≤◌, ◌<◌, arith}
use nucleo_tests.Base.Int.{pos, pos_part, neg_part, ◌*ℤ◌, div_ℤ, i32-FitsInt}
use nucleo_tests.Timespec.{
  Timespec, Timeval, timespec_to_timeval, timeval_to_timespec, IsNormal, usecs_in_sec, nsecs_in_sec,
}

-- A `timeval` with its microseconds in one second survives the conversion to a `timespec` and
-- back, and the `timespec` on the way holds the same seconds and under a second of nanoseconds.
pub timespec_to_timeval-timeval_to_timespec :
    (v : Timeval)
    → pos_part v.usec < usecs_in_sec
    → neg_part v.usec ≡ 0
    → let t = timeval_to_timespec v in
      (timespec_to_timeval t ≡ v) × (pos_part t.nsec < nsecs_in_sec) × (neg_part t.nsec ≡ 0)
unfolding timespec_to_timeval timeval_to_timespec div_ℤ ◌*ℤ◌
timespec_to_timeval-timeval_to_timespec v h k = ground (arith, i32-FitsInt (v.usec *ℤ pos 1000))

-- The other way drops what is less than a microsecond and nothing else.
pub timeval_to_timespec-timespec_to_timeval :
    (t : Timespec)
    → IsNormal t
    → let t' = timeval_to_timespec (timespec_to_timeval t) in
      (t'.sec ≡ t.sec)
      × (pos_part t'.nsec ≤ pos_part t.nsec)
      × (pos_part t.nsec < pos_part t'.nsec + 1000)
unfolding timespec_to_timeval timeval_to_timespec div_ℤ ◌*ℤ◌
timeval_to_timespec-timespec_to_timeval t h =
    ground (arith, i32-FitsInt (pos (pos_part t.nsec / 1000) *ℤ pos 1000))
