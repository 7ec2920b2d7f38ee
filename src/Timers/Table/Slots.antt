-- ===== src/Timers/Table/Slots.antt =====
-- `sys_timer_alloc` takes the lowest slot that is not in use.
use nucleo_tests.Base.{
  ℕ, zero, suc, ◌+◌, ◌≤◌, ◌<◌, ◌≡◌, ◌⊎◌, inl, inr, refl, subst, arith, true, false, Option, none,
  some, List, set, Bool-cases,
}
use native.Mathlib.Decide.{dec_lt}
use nucleo_tests.Timers.State.{SysTimer, timer_max, timer_at, is_allocated}
use nucleo_tests.Timers.Table.{alloc_from, sys_timer_alloc, cleared}

-- All slots from `lo` below `hi` are in use.
abbrev pub AllInUse : List SysTimer → ℕ → ℕ → Type 0
AllInUse timers lo hi = (j : ℕ) → lo ≤ j → j < hi → is_allocated (timer_at timers j) ≡ true

unfoldable pub Allocated : List SysTimer → ℕ → ℕ → Option ℕ × List SysTimer → Type 0
Allocated timers lo hi r =
    ((td : ℕ) × (r ≡ (some td, set timers td (cleared td)))
      × (lo ≤ td)
      × (td < hi)
      × (is_allocated (timer_at timers td) ≡ false)
      × AllInUse timers lo td)
    ⊎ ((r ≡ (none, timers)) × AllInUse timers lo hi)

in_use-below :
    (timers : List SysTimer) (lo hi : ℕ)
    → is_allocated (timer_at timers lo) ≡ true
    → AllInUse timers (lo + 1) hi
    → AllInUse timers lo hi
in_use-below timers lo hi here rest j p q = elim (dec_lt lo j) [
  | yes l ↦ rest j (omega arith) q
  | no g ↦ subst (λ i. is_allocated (timer_at timers i) ≡ true) (omega arith) here
]

alloc_from-Allocated :
    (rounds lo : ℕ) (timers : List SysTimer)
    → Allocated timers lo (lo + rounds) (alloc_from rounds lo timers)
unfolding alloc_from Allocated
alloc_from-Allocated zero lo timers = inr (refl, λ j p q. absurd (omega arith))
alloc_from-Allocated (suc rounds) lo timers =
    elim (Bool-cases (is_allocated (timer_at timers lo))) [
      | inr free ↦
          rw free (inl (lo, refl, omega arith, omega arith, free, λ j p q. absurd (omega arith)))
      | inl used ↦ rw used (elim (alloc_from-Allocated rounds (lo + 1) timers) [
        | inl (td, e, p, q, free, below) ↦
            inl (td, e, omega arith, omega arith, free, in_use-below timers lo td used below)
        | inr (e, all) ↦
            inr (e, in_use-below timers lo (lo + suc rounds) used (λ j p q. all j p (omega arith)))
      ])
    ]

-- `sys_timer_alloc` either clears the lowest slot that is not in use, gives it the id of its place
-- and returns it, or returns -1 and leaves the table, and then every slot is in use.
pub sys_timer_alloc_outcome :
    (timers : List SysTimer) → Allocated timers 0 timer_max (sys_timer_alloc timers)
unfolding sys_timer_alloc
sys_timer_alloc_outcome timers = alloc_from-Allocated timer_max 0 timers
