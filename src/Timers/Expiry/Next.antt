-- ===== src/Timers/Expiry/Next.antt =====
-- `sys_timer_next_expiring` ends, and finds an armed timer whenever there is one.
use nucleo_tests.Base.{
  ℕ, zero, suc, ◌+◌, ◌-◌, ◌≤◌, ◌<◌, ◌≡◌, inl, inr, refl, arith, true, Option, none, some, List,
  Bool-cases,
}
use nucleo_tests.Base.Run.{Run, done}
use nucleo_tests.Timers.State.{SysTimer, Env, timer_max}
use nucleo_tests.Timers.Table.{sys_timer_iter, sys_timer_isarmed}
use nucleo_tests.Timers.Table.Armed.{FirstArmed, NoneArmed, sys_timer_iter-FirstArmed}
use nucleo_tests.Timers.Expiry.{
  keep_earlier, next_from, sys_timer_next_expiring, sys_timer_expires_before,
}

abbrev pub ArmedSlot : List SysTimer → Option ℕ → Type 0
ArmedSlot timers none = Unit
ArmedSlot timers (some td) = (td < timer_max) × (sys_timer_isarmed timers td ≡ true)

open_slot :
    (timers : List SysTimer) (lo td : ℕ)
    → FirstArmed timers lo (some td)
    → ArmedSlot timers (some td)
unfolding FirstArmed
open_slot timers lo td (p, q, on, rest) = (q, on)

open_none :
    (timers : List SysTimer) (lo : ℕ) → FirstArmed timers lo none → NoneArmed timers lo timer_max
unfolding FirstArmed
open_none timers lo h = h

-- The rounds that are left to do from a timer on.
abbrev rounds_for : Option ℕ → ℕ
rounds_for none = 1
rounds_for (some td) = timer_max + 1 - td

module _ {W : Type 0} (env : Env W) (timers : List SysTimer) where
  -- A turn of the loop keeps one of two armed timers.
  abbrev Kept : Option ℕ → Type 0
  Kept o = (td : ℕ) × (o ≡ some td) × (td < timer_max) × (sys_timer_isarmed timers td ≡ true)

  keep_armed :
      (titer : ℕ) (chosen : Option ℕ) (w : W)
      → titer < timer_max
      → sys_timer_isarmed timers titer ≡ true
      → ArmedSlot timers chosen
      → Kept (keep_earlier env timers titer chosen w).0
  unfolding keep_earlier
  keep_armed titer none w l on c = (titer, refl, l, on)
  keep_armed titer (some td) w l on c =
      elim (Bool-cases (sys_timer_expires_before env timers titer td w).0) [
        | inl earlier ↦ rw earlier (titer, refl, l, on)
        | inr later ↦ rw later (td, refl, c.0, c.1)
      ]

  iter_rounds :
      (titer : ℕ)
      → titer < timer_max
      → let next = sys_timer_iter timers (some titer) in
        ArmedSlot timers next × (rounds_for next < rounds_for (some titer))
  unfolding FirstArmed
  iter_rounds titer l =
      by_next (sys_timer_iter timers (some titer)) (sys_timer_iter-FirstArmed timers (some titer) l)
    where
      by_next :
          (o : Option ℕ)
          → FirstArmed timers (titer + 1) o
          → ArmedSlot timers o × (rounds_for o < rounds_for (some titer))
      by_next none h = (tt, omega arith)
      by_next (some td) (p, q, on, rest) = ((q, on), omega arith)

  -- The result of the loop from one state of it on.
  record NextFound (titer chosen : Option ℕ) (result : Run (Option ℕ × W)) : Type 0 where
    out : Option ℕ × W
    ends : result ≡ done out
    armed : ArmedSlot timers out.0
    found : out.0 ≡ none → (titer ≡ none) × (chosen ≡ none)

  next_found :
      (rounds : ℕ) (titer chosen : Option ℕ) (w : W)
      → rounds_for titer ≤ rounds
      → ArmedSlot timers titer
      → ArmedSlot timers chosen
      → NextFound titer chosen (next_from env rounds timers titer chosen w)
  unfolding next_from
  next_found zero none chosen w h a c = absurd (omega arith)
  next_found zero (some td) chosen w h a c = absurd (omega (arith, a.0))
  next_found (suc rounds) none chosen w h a c = record {
    out = (chosen, w);
    ends = refl;
    armed = c;
    found = λ e. (refl, e);
  }
  next_found (suc rounds) (some titer) chosen w h a c =
      let (td, e, l, on) = keep_armed titer chosen w a.0 a.1 c in
      let (next_armed, fewer) = iter_rounds titer a.0 in
      let kept : ArmedSlot timers (keep_earlier env timers titer chosen w).0 = rw e (l, on) in
      let ih =
        next_found rounds (sys_timer_iter timers (some titer))
          (keep_earlier env timers titer chosen w).0 (keep_earlier env timers titer chosen w).1
          (omega arith) next_armed kept in
      record {
        out = ih.out;
        ends = ih.ends;
        armed = ih.armed;
        found = λ none_found. absurd (cc ((ih.found none_found).1, e));
      }

  -- The search for the next timer to expire always ends within its rounds. It returns an
  -- armed timer of the table, or -1, and then no timer is armed.
  pub sys_timer_next_expiring_found :
      (w : W)
      → (out : Option ℕ × W) × (sys_timer_next_expiring env timers w ≡ done out)
        × ArmedSlot timers out.0
        × (out.0 ≡ none → NoneArmed timers 0 timer_max)
  unfolding sys_timer_next_expiring
  sys_timer_next_expiring_found w =
      let first = sys_timer_iter-FirstArmed timers none tt in
      let f =
        next_found (suc timer_max) (sys_timer_iter timers none) none w
          (bound (sys_timer_iter timers none)) (start (sys_timer_iter timers none) first) tt in
      (f.out, f.ends, f.armed, λ e. all_off (sys_timer_iter timers none) first (f.found e).0)
    where
      bound : (o : Option ℕ) → rounds_for o ≤ suc timer_max
      bound none = omega arith
      bound (some td) = omega arith

      start : (o : Option ℕ) → FirstArmed timers 0 o → ArmedSlot timers o
      start none h = tt
      start (some td) h = open_slot timers 0 td h

      all_off : (o : Option ℕ) → FirstArmed timers 0 o → o ≡ none → NoneArmed timers 0 timer_max
      all_off none h e = open_none timers 0 h
      all_off (some td) h e = absurd (cc (e))
