-- ===== src/Timers/Table/Armed.antt =====
-- `sys_timer_iter` goes through the armed timers in the order of the table.
use nucleo_tests.Base.{
  ℕ, zero, suc, ◌+◌, ◌-◌, ◌≤◌, ◌<◌, ◌≡◌, inl, inr, subst, arith, true, false, Option, none, some,
  List, Bool-cases,
}
use native.Mathlib.Decide.{dec_lt}
use nucleo_tests.Timers.State.{SysTimer, timer_max}
use nucleo_tests.Timers.Table.{iter_from, sys_timer_iter, sys_timer_isarmed}

abbrev pub NoneArmed : List SysTimer → ℕ → ℕ → Type 0
NoneArmed timers lo hi = (j : ℕ) → lo ≤ j → j < hi → sys_timer_isarmed timers j ≡ false

unfoldable pub FirstArmed : List SysTimer → ℕ → Option ℕ → Type 0
FirstArmed timers lo none = NoneArmed timers lo timer_max
FirstArmed timers lo (some td) =
    (lo ≤ td) × (td < timer_max) × (sys_timer_isarmed timers td ≡ true) × NoneArmed timers lo td

NoneArmed-below :
    (timers : List SysTimer) (lo hi : ℕ)
    → sys_timer_isarmed timers lo ≡ false
    → NoneArmed timers (lo + 1) hi
    → NoneArmed timers lo hi
NoneArmed-below timers lo hi here rest j p q = elim (dec_lt lo j) [
  | yes l ↦ rest j (omega arith) q
  | no g ↦ subst (λ i. sys_timer_isarmed timers i ≡ false) (omega arith) here
]

pass_over :
    (timers : List SysTimer) (lo : ℕ) (o : Option ℕ)
    → sys_timer_isarmed timers lo ≡ false
    → FirstArmed timers (lo + 1) o
    → FirstArmed timers lo o
unfolding FirstArmed
pass_over timers lo none off h = NoneArmed-below timers lo timer_max off h
pass_over timers lo (some td) off (p, q, on, rest) =
    (omega arith, q, on, NoneArmed-below timers lo td off rest)

iter_from-FirstArmed :
    (rounds lo : ℕ) (timers : List SysTimer)
    → lo + rounds ≡ timer_max
    → FirstArmed timers lo (iter_from rounds lo timers)
unfolding iter_from
iter_from-FirstArmed zero lo timers e = none_left
  where
    none_left : FirstArmed timers lo none
    none_left = unfold FirstArmed in (λ j p q. absurd (omega arith))
iter_from-FirstArmed (suc rounds) lo timers e = elim (Bool-cases (sys_timer_isarmed timers lo)) [
  | inl on ↦ rw on (found on)
  | inr off ↦ rw off (
      pass_over timers lo (iter_from rounds (lo + 1) timers) off
        (iter_from-FirstArmed rounds (lo + 1) timers (omega arith)))
]
  where
    found : sys_timer_isarmed timers lo ≡ true → FirstArmed timers lo (some lo)
    found on = unfold FirstArmed in (omega arith, omega arith, on, λ j p q. absurd (omega arith))

-- Where `sys_timer_iter` goes on from.
abbrev pub after : Option ℕ → ℕ
after none = 0
after (some td) = td + 1

abbrev pub InTable : Option ℕ → Type 0
InTable none = Unit
InTable (some td) = td < timer_max

-- `sys_timer_iter` returns the first armed timer behind the one given, or of all, and -1 exactly
-- when there is none.
pub sys_timer_iter-FirstArmed :
    (timers : List SysTimer) (from : Option ℕ)
    → InTable from
    → FirstArmed timers (after from) (sys_timer_iter timers from)
unfolding sys_timer_iter
sys_timer_iter-FirstArmed timers none h = iter_from-FirstArmed timer_max 0 timers (omega arith)
sys_timer_iter-FirstArmed timers (some td) h =
    iter_from-FirstArmed (timer_max - (td + 1)) (td + 1) timers (omega arith)
