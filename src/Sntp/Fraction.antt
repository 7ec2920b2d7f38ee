-- ===== src/Sntp/Fraction.antt =====
-- Fractions of a second, to and from the 32 bits of a time stamp.
use native.Mathlib.Decide.{dec_lt}
use nucleo_tests.Base.{ℕ, ◌+◌, ◌-◌, ◌*◌, ◌^◌, ◌≤◌, ◌<◌, ◌≡◌, ◌⊎◌, inl, inr, arith}
use nucleo_tests.Base.Int.{pos, pos_part, neg_part}
use nucleo_tests.Timespec.{nsecs_in_sec}
use nucleo_tests.Inet.{ntohl}
use nucleo_tests.Inet.Order.{ntohl-lt}
use nucleo_tests.Sntp.{NtpTimestamp, secs_to_epoch, ntp_to_timespec, fraction_of}

-- Whatever the time stamp, the nanoseconds read from it lie in one second; and from 1970 on its
-- seconds are those since then.
pub ntp_to_timespec_bounds :
    (nt : NtpTimestamp)
    → secs_to_epoch ≤ ntohl nt.ntp_sec
    → let t = ntp_to_timespec nt in
      (pos_part t.nsec < nsecs_in_sec)
      × (neg_part t.nsec ≡ 0)
      × (t.sec ≡ pos (ntohl nt.ntp_sec - secs_to_epoch))
unfolding ntp_to_timespec
ntp_to_timespec_bounds nt h =
    let k = ntohl-lt nt.ntp_sec in
    let l = ntohl-lt nt.ntp_fract in (ground arith, ground arith, ground arith)

-- The fraction written for a number of nanoseconds below one second. Below 999981056 it is within
-- 33000 of them. From there on the product overflows, and the fraction is that of 14 microseconds: the
-- time written is nearly a second early.
pub fraction_of-cases :
    (nsec : ℕ)
    → nsec < nsecs_in_sec
    → ((nsec < 999981056)
        × (fraction_of nsec * nsecs_in_sec ≤ (nsec + 33000) * 2 ^ 32)
        × (nsec * 2 ^ 32 ≤ fraction_of nsec * nsecs_in_sec + 33000 * 2 ^ 32))
      ⊎ ((999981056 ≤ nsec) × (fraction_of nsec ≡ 59729))
unfolding fraction_of
fraction_of-cases nsec h = elim (dec_lt nsec 999981056) [
  | yes l ↦ inl (l, ground arith, ground arith)
  | no g ↦ inr (omega arith, ground arith)
]
