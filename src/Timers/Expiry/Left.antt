-- ===== src/Timers/Expiry/Left.antt =====
-- The time that is left until an instant, and how the code compares two such times.
use nucleo_tests.Base.{zero, suc, ◌*◌, ◌^◌, ◌≤◌, ◌<◌, ◌≡◌, ◌↔◌, refl, ap, arith}
use nucleo_tests.Base.Int.{
  ℤ, pos, negsuc, pos_part, neg_part, ◌+ℤ◌, ◌-ℤ◌, ◌≤ℤ◌, ◌<ℤ◌, int_laws, parts_of_eq,
}
use nucleo_tests.Timespec.{
  Timespec, timespec_diff, diff_of, timespec_zero, IsNormal, FitsDiff, total, nsecs_in_sec,
}
use nucleo_tests.Timespec.Arith.{total-diff_of, diff_of-IsNormal}
use nucleo_tests.Timespec.Order.{timespec_diff_sign, total-injective}

-- A time of day or since the start, of at most 2^30 seconds.
pub record InRange (t : Timespec) : Type 0 where
  pub normal : IsNormal t
  pub sec_small : pos_part t.sec < 2 ^ 30
  pub sec_pos : neg_part t.sec ≡ 0

-- A difference of such times.
pub record IsLeft (d : Timespec) : Type 0 where
  pub normal : IsNormal d
  pub sec_small : pos_part d.sec < 2 ^ 30
  pub sec_large : neg_part d.sec ≤ 2 ^ 30

FitsDiff-InRange : (to now : Timespec) → InRange to → InRange now → FitsDiff to now
unfolding ◌-ℤ◌
FitsDiff-InRange to now h k = ground (arith, h.sec_small, h.sec_pos, k.sec_small, k.sec_pos)

pub FitsDiff-IsLeft : (a b : Timespec) → IsLeft a → IsLeft b → FitsDiff a b
unfolding ◌-ℤ◌
FitsDiff-IsLeft a b h k = ground (arith, h.sec_small, h.sec_large, k.sec_small, k.sec_large)

-- The instants of a normal time bound its seconds.
sec_bounds :
    (d : Timespec)
    → IsNormal d
    → total d <ℤ pos (2 ^ 30 * nsecs_in_sec)
    → pos 0 ≤ℤ total d +ℤ pos (2 ^ 30 * nsecs_in_sec)
    → (pos_part d.sec < 2 ^ 30) × (neg_part d.sec ≤ 2 ^ 30)
unfolding total ◌+ℤ◌
sec_bounds d h p q = (ground arith, ground arith)

total_range :
    (t : Timespec) → InRange t → (pos 0 ≤ℤ total t) × (total t <ℤ pos (2 ^ 30 * nsecs_in_sec))
unfolding total
total_range t h = ground (arith, h.normal.nsec_small, h.normal.nsec_pos, h.sec_small, h.sec_pos)

pub diff_of-IsLeft : (to now : Timespec) → InRange to → InRange now → IsLeft (diff_of to now)
diff_of-IsLeft to now h k =
    let f = FitsDiff-InRange to now h k in
    let n = diff_of-IsNormal to now h.normal k.normal f in
    let e = parts_of_eq (total-diff_of to now h.normal k.normal f) in
    let (small, large) =
      sec_bounds (diff_of to now) n (omega (int_laws, e, total_range to h, total_range now k))
        (omega (int_laws, e, total_range to h, total_range now k)) in
    record { normal = n; sec_small = small; sec_large = large }

pub zero-IsLeft : IsLeft timespec_zero
zero-IsLeft = record {
  normal = record { sec_fits = omega arith; nsec_small = omega arith; nsec_pos = refl };
  sec_small = omega arith;
  sec_large = omega arith;
}

-- The sign that the code looks at orders such differences.
pub left_sign :
    (a b : Timespec) → IsLeft a → IsLeft b → (timespec_diff a b <ℤ pos 0) ↔ (total a <ℤ total b)
left_sign a b h k = (timespec_diff_sign a b h.normal k.normal (FitsDiff-IsLeft a b h k)).0

positive : (z : ℤ) → (z <ℤ pos 0 → ⊥) → (z ≡ pos 0 → ⊥) → pos 0 <ℤ z
positive (pos zero) g h = absurd (h refl)
positive (pos (suc n)) g h = omega arith
positive (negsuc n) g h = absurd (g (omega arith))

-- The test of the code for time left.
pub ahead_iff :
    (a : Timespec) → IsLeft a → (pos 0 <ℤ timespec_diff a timespec_zero) ↔ (pos 0 <ℤ total a)
unfolding total
ahead_iff a h =
    let (lt, eq) =
      timespec_diff_sign a timespec_zero h.normal zero-IsLeft.normal
        (FitsDiff-IsLeft a timespec_zero h zero-IsLeft) in
    (
      λ p.
          positive (total a) (λ q. let r = lt.1 q in absurd (omega (arith, p, r)))
            (λ q.
              let r = eq.1 (total-injective a timespec_zero h.normal zero-IsLeft.normal q) in
              absurd (omega (arith, p, parts_of_eq r))),
      λ p.
          positive (timespec_diff a timespec_zero)
            (λ q. let r = lt.0 q in absurd (omega (arith, p, r)))
            (λ q. let r = ap total (eq.0 q) in absurd (omega (arith, p, parts_of_eq r))),
    )
