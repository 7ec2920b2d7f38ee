-- ===== src/Timespec/Order.antt =====
-- The sign of `timespec_diff` orders instants; `TIMESPEC_INFINITY` lies after every one.
use nucleo_tests.Base.{◌≡◌, ◌↔◌, arith, ap, if◌then◌else◌}
use nucleo_tests.Base.Int.{
  ℤ, pos, ◌+ℤ◌, ◌-ℤ◌, ◌≤ℤ◌, ◌<ℤ◌, int_laws, i32-FitsInt, eqb_ℤ, eq_of_parts, parts_of_eq,
}
use nucleo_tests.Timespec.{
  Timespec, timespec_add, diff_of, timespec_diff, IsNormal, total, timespec_infinity, int_max,
  FitsAdd, FitsDiff, nsecs_in_sec,
}
use nucleo_tests.Timespec.Arith.{
  total-diff_of, diff_of-IsNormal, timespec_add-IsNormal, total-timespec_add,
}

-- The value that `timespec_diff` reads off a normal difference has the sign of the whole.
abbrev code_of : Timespec → ℤ
code_of d = if eqb_ℤ d.sec (pos 0) then d.nsec else d.sec

code_of_sign :
    (d : Timespec)
    → IsNormal d
    → ((code_of d <ℤ pos 0) ↔ (total d <ℤ pos 0)) × ((code_of d ≡ pos 0) ↔ (total d ≡ pos 0))
unfolding total
code_of_sign d h = ((λ p. ground arith, λ p. ground arith), (λ p. ground arith, λ p. ground arith))

pub total-injective : (a b : Timespec) → IsNormal a → IsNormal b → total a ≡ total b → a ≡ b
unfolding total
total-injective a b h k e = ground (arith, eq_of_parts a.sec b.sec, eq_of_parts a.nsec b.nsec)

-- For normal instants whose seconds' difference fits an `int`, `timespec_diff` is negative exactly
-- when the first instant is earlier, and 0 exactly when the instants are equal.
pub timespec_diff_sign :
    (to from : Timespec)
    → IsNormal to
    → IsNormal from
    → FitsDiff to from
    → ((timespec_diff to from <ℤ pos 0) ↔ (total to <ℤ total from))
      × ((timespec_diff to from ≡ pos 0) ↔ (to ≡ from))
unfolding timespec_diff
timespec_diff_sign to from h k f =
    let (lt, zero_iff) = code_of_sign (diff_of to from) (diff_of-IsNormal to from h k f) in
    let e = parts_of_eq (total-diff_of to from h k f) in
    (
      (λ p. omega (int_laws, e, lt.0 p), λ p. lt.1 (omega (int_laws, e))),
      (
        λ p. total-injective to from h k (omega (int_laws, e, parts_of_eq (zero_iff.0 p))),
        λ p. zero_iff.1 (omega (int_laws, e, parts_of_eq (ap total p))),
      ),
    )

-- For normal times whose sum and difference in seconds fit an `int`, what `timespec_diff` writes to
-- `*diff` undoes `timespec_add`.
pub diff_of-timespec_add :
    (start d : Timespec)
    → IsNormal start
    → IsNormal d
    → FitsAdd start d
    → FitsDiff (timespec_add start d) start
    → diff_of (timespec_add start d) start ≡ d
diff_of-timespec_add start d h k f g =
    let n = timespec_add-IsNormal start d h k f in
    total-injective (diff_of (timespec_add start d) start) d
      (diff_of-IsNormal (timespec_add start d) start n h g) k
      (omega (
        int_laws,
        parts_of_eq (total-diff_of (timespec_add start d) start n h g),
        parts_of_eq (total-timespec_add start d h k f),
      ))

-- Seen from any clock reading that is normal and not negative, `TIMESPEC_INFINITY` lies ahead:
-- an expiry test of either form never passes.
pub timespec_infinity_ahead :
    (now : Timespec)
    → IsNormal now
    → pos 0 ≤ℤ now.sec
    → (timespec_diff now timespec_infinity <ℤ pos 0)
      × (pos 0 <ℤ timespec_diff timespec_infinity now)
unfolding timespec_diff diff_of ◌+ℤ◌ ◌-ℤ◌
timespec_infinity_ahead now h p = ground (
  arith,
  i32-FitsInt (now.sec -ℤ pos int_max),
  i32-FitsInt (now.nsec -ℤ pos int_max),
  i32-FitsInt (now.sec -ℤ pos int_max -ℤ pos 1),
  i32-FitsInt (now.nsec -ℤ pos int_max +ℤ pos nsecs_in_sec),
  i32-FitsInt (pos int_max -ℤ now.sec),
  i32-FitsInt (pos int_max -ℤ now.nsec),
)
