-- ===== src/Timespec/Arith.antt =====
-- Sums and differences are exact as long as the seconds fit.
use nucleo_tests.Base.{◌+◌, ◌*◌, ◌≡◌, arith, if◌then◌else◌, Bool-cases, inl, inr}
use nucleo_tests.Base.Int.{pos, ◌+ℤ◌, ◌-ℤ◌, i32-FitsInt, leb_ℤ, ltb_ℤ, pos_part, neg_part, int_laws}
use nucleo_tests.Timespec.{
  Timespec, timespec_add, diff_of, IsNormal, total, nsecs_in_sec, FitsAdd, FitsDiff,
}

pub total_parts :
    (t : Timespec)
    → pos_part (total t) + (neg_part t.sec * nsecs_in_sec + neg_part t.nsec)
      ≡ neg_part (total t) + (pos_part t.sec * nsecs_in_sec + pos_part t.nsec)
unfolding total
total_parts t = ground arith

-- The sum and the difference with no wrap.
abbrev add_exact : Timespec → Timespec → Timespec
add_exact a b =
    if leb_ℤ (pos nsecs_in_sec) (a.nsec +ℤ b.nsec)
    then record { sec = a.sec +ℤ b.sec +ℤ pos 1; nsec = a.nsec +ℤ b.nsec -ℤ pos nsecs_in_sec }
    else record { sec = a.sec +ℤ b.sec; nsec = a.nsec +ℤ b.nsec }

abbrev diff_exact : Timespec → Timespec → Timespec
diff_exact a b =
    if ltb_ℤ (a.nsec -ℤ b.nsec) (pos 0)
    then record { sec = a.sec -ℤ b.sec -ℤ pos 1; nsec = a.nsec -ℤ b.nsec +ℤ pos nsecs_in_sec }
    else record { sec = a.sec -ℤ b.sec; nsec = a.nsec -ℤ b.nsec }

module _ (a b : Timespec) (h : IsNormal a) (k : IsNormal b) where
  add-exact : FitsAdd a b → timespec_add a b ≡ add_exact a b
  unfolding timespec_add ◌+ℤ◌ ◌-ℤ◌
  add-exact f = ground (
    arith,
    i32-FitsInt (a.sec +ℤ b.sec),
    i32-FitsInt (a.nsec +ℤ b.nsec),
    i32-FitsInt (a.sec +ℤ b.sec +ℤ pos 1),
    i32-FitsInt (a.nsec +ℤ b.nsec -ℤ pos nsecs_in_sec),
  )

  diff-exact : FitsDiff a b → diff_of a b ≡ diff_exact a b
  unfolding diff_of ◌+ℤ◌ ◌-ℤ◌
  diff-exact f = ground (
    arith,
    i32-FitsInt (a.sec -ℤ b.sec),
    i32-FitsInt (a.nsec -ℤ b.nsec),
    i32-FitsInt (a.sec -ℤ b.sec -ℤ pos 1),
    i32-FitsInt (a.nsec -ℤ b.nsec +ℤ pos nsecs_in_sec),
  )

  -- For normal instants whose seconds add up within an `int`, with and without the carry,
  -- `timespec_add` adds them as counts of nanoseconds.
  pub total-timespec_add : FitsAdd a b → total (timespec_add a b) ≡ total a +ℤ total b
  total-timespec_add f =
      rw (add-exact f) (elim (Bool-cases (leb_ℤ (pos nsecs_in_sec) (a.nsec +ℤ b.nsec))) [
        | inl e ↦ rw e (omega (int_laws, total_parts))
        | inr e ↦ rw e (omega (int_laws, total_parts))
      ])

  pub total-diff_of : FitsDiff a b → total (diff_of a b) ≡ total a -ℤ total b
  total-diff_of f = rw (diff-exact f) (elim (Bool-cases (ltb_ℤ (a.nsec -ℤ b.nsec) (pos 0))) [
    | inl e ↦ rw e (omega (int_laws, total_parts))
    | inr e ↦ rw e (omega (int_laws, total_parts))
  ])

  pub timespec_add-IsNormal : FitsAdd a b → IsNormal (timespec_add a b)
  unfolding ◌+ℤ◌ ◌-ℤ◌
  timespec_add-IsNormal f = rw (add-exact f) (ground arith)

  pub diff_of-IsNormal : FitsDiff a b → IsNormal (diff_of a b)
  unfolding ◌+ℤ◌ ◌-ℤ◌
  diff_of-IsNormal f = rw (diff-exact f) (ground arith)
