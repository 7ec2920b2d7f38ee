-- ===== src/Timers/Table.antt =====
-- src/timers.c: slots of the table, which of them are in use, and which are armed.
pub mod Slots
pub mod Armed
use nucleo_tests.Base.{
  ℕ, zero, suc, ◌+◌, ◌-◌, Bool, true, false, not, ◌&&◌, Option, none, some, List, set, ltb, ◌==◌,
  if◌then◌else◌,
}
use nucleo_tests.Base.Int.{ℤ, pos, eqb_ℤ}
use nucleo_tests.Timespec.{timespec_diff, timespec_zero}
use nucleo_tests.Timers.State.{SysTimer, timer_max, zero_timer, timer_at, is_allocated}

abbrev pub sys_td2timerid : ℕ → ℕ
sys_td2timerid td = td + 1

-- Armed: in use, with an expiry that is not zero.
unfoldable pub is_armed : SysTimer → Bool
is_armed t = is_allocated t && not (eqb_ℤ (timespec_diff timespec_zero t.value.it_value) (pos 0))

unfoldable pub sys_timer_isarmed : List SysTimer → ℕ → Bool
unfolding is_armed
sys_timer_isarmed timers td = is_armed (timer_at timers td)

abbrev pub cleared : ℕ → SysTimer
cleared td = record zero_timer { timerid = sys_td2timerid td }

-- The loop of `sys_timer_alloc` with the rounds left; `none` is -1.
unfoldable pub alloc_from : ℕ → ℕ → List SysTimer → Option ℕ × List SysTimer
alloc_from zero td timers = (none, timers)
alloc_from (suc rounds) td timers =
    let rest = alloc_from rounds (td + 1) timers in
    if not (is_allocated (timer_at timers td)) then (some td, set timers td (cleared td)) else rest

unfoldable pub sys_timer_alloc : List SysTimer → Option ℕ × List SysTimer
unfolding alloc_from
sys_timer_alloc timers = alloc_from timer_max 0 timers

-- The loop of `sys_timer_iter` with the rounds left.
unfoldable pub iter_from : ℕ → ℕ → List SysTimer → Option ℕ
iter_from zero td timers = none
iter_from (suc rounds) td timers =
    let rest = iter_from rounds (td + 1) timers in
    if sys_timer_isarmed timers td then some td else rest

-- The first armed timer after `td`, or of all where `td` is -1.
unfoldable pub sys_timer_iter : List SysTimer → Option ℕ → Option ℕ
sys_timer_iter timers none = iter_from timer_max 0 timers
sys_timer_iter timers (some td) = iter_from (timer_max - (td + 1)) (td + 1) timers

unfoldable pub sys_timer_free : ℕ → List SysTimer → List SysTimer
sys_timer_free td timers =
    if ltb td timer_max then set timers td (record (timer_at timers td) { timerid = 0 }) else timers
