-- ===== src/Timespec.antt =====
-- src/timespec.c: sums and differences of `struct timespec`. `int`, `long` and `time_t` are the
-- 32-bit two's complement integers of the target, so every sum goes through `i32`.
-- A function that writes through a pointer returns what it writes.
pub mod Arith
pub mod Order
pub mod Conversion
use nucleo_tests.Base.{ℕ, ◌+◌, ◌-◌, ◌*◌, ◌^◌, ◌≤◌, ◌<◌, ◌≡◌, if◌then◌else◌}
use nucleo_tests.Base.Int.{
  ℤ, pos, ◌+ℤ◌, ◌-ℤ◌, ◌*ℤ◌, leb_ℤ, ltb_ℤ, eqb_ℤ, i32, div_ℤ, pos_part, neg_part, sub_ℕ, FitsInt,
}

pub record Timespec : Type 0 where
  pub sec : ℤ
  pub nsec : ℤ

pub record Timeval : Type 0 where
  pub sec : ℤ
  pub usec : ℤ

abbrev pub nsecs_in_sec : ℕ
nsecs_in_sec = 1000000000

abbrev pub usecs_in_sec : ℕ
usecs_in_sec = 1000000

abbrev pub msecs_in_sec : ℕ
msecs_in_sec = 1000

abbrev pub int_max : ℕ
int_max = 2 ^ 31 - 1

abbrev pub timespec_zero : Timespec
timespec_zero = record { sec = pos 0; nsec = pos 0 }

-- `{INT_MAX, LONG_MAX}`
abbrev pub timespec_infinity : Timespec
timespec_infinity = record { sec = pos int_max; nsec = pos int_max }

unfoldable pub timespec_add : Timespec → Timespec → Timespec
timespec_add t1 t2 =
    let dst_sec = i32 (t1.sec +ℤ t2.sec) in
    let dst_nsec = i32 (t1.nsec +ℤ t2.nsec) in
    if leb_ℤ (pos nsecs_in_sec) dst_nsec
    then record { sec = i32 (dst_sec +ℤ pos 1); nsec = i32 (dst_nsec -ℤ pos nsecs_in_sec) }
    else record { sec = dst_sec; nsec = dst_nsec }

-- `*x += *step`, through a copy of `*x`.
unfoldable pub timespec_incr : Timespec → Timespec → Timespec
unfolding timespec_add
timespec_incr x step = timespec_add x step

-- What is written to `*diff`, where the caller gives one.
unfoldable pub diff_of : Timespec → Timespec → Timespec
diff_of to from =
    let diff_nsec = i32 (to.nsec -ℤ from.nsec) in
    let diff_sec = i32 (to.sec -ℤ from.sec) in
    if ltb_ℤ diff_nsec (pos 0)
    then record { sec = i32 (diff_sec -ℤ pos 1); nsec = i32 (diff_nsec +ℤ pos nsecs_in_sec) }
    else record { sec = diff_sec; nsec = diff_nsec }

-- The value that `timespec_diff` returns: the seconds, or the nanoseconds where those are 0.
unfoldable pub timespec_diff : Timespec → Timespec → ℤ
timespec_diff to from = let d = diff_of to from in if eqb_ℤ d.sec (pos 0) then d.nsec else d.sec

unfoldable pub timespec_to_timeval : Timespec → Timeval
timespec_to_timeval src = record { sec = src.sec; usec = div_ℤ src.nsec 1000 }

unfoldable pub timeval_to_timespec : Timeval → Timespec
timeval_to_timespec src = record { sec = src.sec; nsec = i32 (src.usec *ℤ pos 1000) }

-- The convention of the callers: the nanoseconds lie in one second.
pub record IsNormal (t : Timespec) : Type 0 where
  pub sec_fits : (pos_part t.sec ≤ int_max) × (neg_part t.sec ≤ int_max + 1)
  pub nsec_small : pos_part t.nsec < nsecs_in_sec
  pub nsec_pos : neg_part t.nsec ≡ 0

-- The instant in nanoseconds, as an unbounded integer.
unfoldable pub total : Timespec → ℤ
total t =
    sub_ℕ (pos_part t.sec * nsecs_in_sec + pos_part t.nsec)
      (neg_part t.sec * nsecs_in_sec + neg_part t.nsec)

-- The seconds of the sum and of the difference fit an `int`, with the carry and the borrow.
abbrev pub FitsAdd : Timespec → Timespec → Type 0
FitsAdd a b = FitsInt (a.sec +ℤ b.sec) × FitsInt (a.sec +ℤ b.sec +ℤ pos 1)

abbrev pub FitsDiff : Timespec → Timespec → Type 0
FitsDiff a b = FitsInt (a.sec -ℤ b.sec) × FitsInt (a.sec -ℤ b.sec -ℤ pos 1)
