-- ===== src/Sntp/Estimate.antt =====
-- The offset of the clock is the mean of two differences.
use nucleo_tests.Base.{◌+◌, ◌*◌, ◌/◌, ◌%◌, ◌^◌, ◌≤◌, ◌<◌, ◌≡◌, arith}
use nucleo_tests.Base.Int.{
  ℤ, pos, negsuc, pos_part, neg_part, ◌+ℤ◌, ◌-ℤ◌, ◌≤ℤ◌, i32-FitsInt, int_laws, div_ℤ, parts_of_eq,
}
use nucleo_tests.Timespec.{
  Timespec, timespec_add, diff_of, IsNormal, total, FitsAdd, FitsDiff, nsecs_in_sec, int_max,
}
use nucleo_tests.Timespec.Arith.{
  total_parts, total-timespec_add, total-diff_of, timespec_add-IsNormal, diff_of-IsNormal,
}
use nucleo_tests.Sntp.{carried, timespec_half, clock_offset, system_clock_estimate}

-- Half of a value, rounded down.
div_two :
    (z : ℤ)
    → (neg_part z % 2 ≡ 0)
    → (pos_part (div_ℤ z 2) ≡ pos_part z / 2) × (neg_part (div_ℤ z 2) ≡ neg_part z / 2)
unfolding div_ℤ
div_two (pos n) h = (omega arith, omega arith)
div_two (negsuc n) h = (ground arith, ground arith)

carried-lem :
    (t : Timespec)
    → IsNormal t
    → let c = carried t in
      ((pos_part c.sec + neg_part c.sec) % 2 ≡ 0)
      × (pos_part c.sec ≤ int_max)
      × (neg_part c.sec ≤ int_max + 1)
      × (neg_part c.nsec ≡ 0)
      × (pos_part c.nsec < 2 * nsecs_in_sec)
      × (pos_part c.sec * nsecs_in_sec + pos_part c.nsec + neg_part t.sec * nsecs_in_sec
          ≡ neg_part c.sec * nsecs_in_sec + pos_part t.sec * nsecs_in_sec + pos_part t.nsec)
unfolding ◌+ℤ◌ ◌-ℤ◌
carried-lem t h =
    ground (arith, i32-FitsInt (t.sec -ℤ pos 1), i32-FitsInt (t.nsec +ℤ pos nsecs_in_sec))

even_parts :
    (z : ℤ) → (pos_part z + neg_part z) % 2 ≡ 0 → (pos_part z % 2 ≡ 0) × (neg_part z % 2 ≡ 0)
even_parts (pos n) h = (omega arith, omega arith)
even_parts (negsuc n) h = (omega arith, omega arith)

half_parts :
    (t : Timespec)
    → IsNormal t
    → IsNormal (timespec_half t)
      × (let h = timespec_half t in
          let twice_up = 2 * (pos_part h.sec * nsecs_in_sec + pos_part h.nsec) in
          let twice_down = 2 * (neg_part h.sec * nsecs_in_sec) in
          (twice_up + neg_part t.sec * nsecs_in_sec
            ≤ twice_down + pos_part t.sec * nsecs_in_sec + pos_part t.nsec)
          × (twice_down + pos_part t.sec * nsecs_in_sec + pos_part t.nsec
              ≤ twice_up + neg_part t.sec * nsecs_in_sec + 1))
unfolding timespec_half
half_parts t n =
    let c = carried t in
    let (even, up, down, no_neg, small, same) = carried-lem t n in
    let (p, q) = even_parts c.sec even in
    let (hp, hq) = div_two c.sec q in
    let (np, nq) = div_two c.nsec (omega arith) in
    (
      record {
        sec_fits = (omega arith, omega arith);
        nsec_small = omega arith;
        nsec_pos = omega arith;
      },
      (omega arith, omega arith),
    )

-- Twice the half is the whole, or one nanosecond less.
half-total :
    (t : Timespec)
    → IsNormal t
    → let h = total (timespec_half t) in (h +ℤ h ≤ℤ total t) × (total t ≤ℤ h +ℤ h +ℤ pos 1)
half-total t n =
    let (m, (lo, hi)) = half_parts t n in
    (omega (int_laws, total_parts), omega (int_laws, total_parts))

fits_diff :
    (a b : Timespec) → IsNormal a → IsNormal b → neg_part a.sec + neg_part b.sec ≡ 0 → FitsDiff a b
unfolding ◌-ℤ◌
fits_diff a b h k z = ground arith

half_sec :
    (t : Timespec)
    → IsNormal t
    → (pos_part (timespec_half t).sec < 2 ^ 30) × (neg_part (timespec_half t).sec ≤ 2 ^ 30)
unfolding timespec_half
half_sec t n =
    let c = carried t in
    let (even, up, down, no_neg, small, same) = carried-lem t n in
    let (hp, hq) = div_two c.sec (even_parts c.sec even).1 in (omega arith, omega arith)

-- The halves of two differences can be added.
fits_halves :
    (a b : Timespec) → IsNormal a → IsNormal b → FitsAdd (timespec_half a) (timespec_half b)
unfolding ◌+ℤ◌
fits_halves a b h k = let p = half_sec a h in let q = half_sec b k in ground arith

-- With the four times of an exchange, in seconds from 0 on, and an estimate that does not overflow:
-- twice the change that is made to the last of them is the sum of the two differences, the
-- server's receiving less the client's sending, and the server's sending less the client's
-- receiving, or up to two nanoseconds less.
pub system_clock_estimate-mean :
    (t1 t2 t3 t4 : Timespec)
    → IsNormal t1
    → IsNormal t2
    → IsNormal t3
    → IsNormal t4
    → neg_part t1.sec + neg_part t2.sec + neg_part t3.sec + neg_part t4.sec ≡ 0
    → FitsAdd t4 (clock_offset t1 t2 t3 t4)
    → let change = total (system_clock_estimate t1 t2 t3 t4) -ℤ total t4 in
      let sum = (total t2 -ℤ total t1) +ℤ (total t3 -ℤ total t4) in
      (change +ℤ change ≤ℤ sum) × (sum ≤ℤ change +ℤ change +ℤ pos 2)
unfolding system_clock_estimate clock_offset
system_clock_estimate-mean t1 t2 t3 t4 n1 n2 n3 n4 z f =
    let fits21 = fits_diff t2 t1 n2 n1 (omega arith) in
    let fits34 = fits_diff t3 t4 n3 n4 (omega arith) in
    let m21 = diff_of-IsNormal t2 t1 n2 n1 fits21 in
    let m34 = diff_of-IsNormal t3 t4 n3 n4 fits34 in
    let h21 = timespec_half (diff_of t2 t1) in
    let h34 = timespec_half (diff_of t3 t4) in
    let k21 = (half_parts (diff_of t2 t1) m21).0 in
    let k34 = (half_parts (diff_of t3 t4) m34).0 in
    let fits = fits_halves (diff_of t2 t1) (diff_of t3 t4) m21 m34 in
    let d21 = parts_of_eq (total-diff_of t2 t1 n2 n1 fits21) in
    let d34 = parts_of_eq (total-diff_of t3 t4 n3 n4 fits34) in
    let b21 = half-total (diff_of t2 t1) m21 in
    let b34 = half-total (diff_of t3 t4) m34 in
    let o = parts_of_eq (total-timespec_add h21 h34 k21 k34 fits) in
    let mo = timespec_add-IsNormal h21 h34 k21 k34 fits in
    let r = parts_of_eq (total-timespec_add t4 (timespec_add h21 h34) n4 mo f) in
    (omega int_laws, omega int_laws)
