-- ===== src/Tests/Times.antt =====
-- Timespecs around a carry, a borrow and the end of time.
use nucleo_tests.Base.{◌≡◌, ◌↔◌, refl, arith}
use nucleo_tests.Base.Int.{pos, negsuc, ◌+ℤ◌, ◌-ℤ◌, ◌<ℤ◌, i32}
use nucleo_tests.Timespec.{Timespec, Timeval, timespec_add, diff_of, timespec_diff, total}
use nucleo_tests.Timespec.Arith.{total-timespec_add}
use nucleo_tests.Timespec.Order.{timespec_diff_sign}

abbrev early : Timespec
early = record { sec = pos 3; nsec = pos 900000000 }

abbrev step : Timespec
step = record { sec = pos 1; nsec = pos 200000000 }

add_carries : timespec_add early step ≡ record { sec = pos 5; nsec = pos 100000000 }
unfolding timespec_add i32 ◌+ℤ◌ ◌-ℤ◌
add_carries = refl

diff_borrows : timespec_diff step early ≡ negsuc 2
unfolding timespec_diff diff_of i32 ◌+ℤ◌ ◌-ℤ◌
diff_borrows = refl

total-timespec_add_example : total (timespec_add early step) ≡ total early +ℤ total step
unfolding ◌+ℤ◌
total-timespec_add_example = total-timespec_add early step (omega arith) (omega arith) (omega arith)

timespec_diff_sign_example :
    ((timespec_diff step early <ℤ pos 0) ↔ (total step <ℤ total early))
    × ((timespec_diff step early ≡ pos 0) ↔ (step ≡ early))
unfolding ◌-ℤ◌
timespec_diff_sign_example = timespec_diff_sign step early (omega arith) (omega arith) (omega arith)

abbrev tick : Timeval
tick = record { sec = pos 2; usec = pos 250000 }
