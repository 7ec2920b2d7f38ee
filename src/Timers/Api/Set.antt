-- ===== src/Timers/Api/Set.antt =====
-- Arming a timer, reading it back, and ids outside the table.
use nucleo_tests.Base.{
  ℕ, zero, suc, ◌<◌, ◌≤◌, ◌≡◌, ◌≢◌, ◌⊎◌, inl, inr, refl, arith, Bool, false, none, List, [], ◌∷◌,
  length, get_elem?, Bool-cases,
}
use nucleo_tests.Base.Run.{fault}
use nucleo_tests.Base.Int.{pos, eqb_ℤ, eqb_ℤ_iff}
use nucleo_tests.Timespec.{
  timespec_add, timespec_diff, diff_of, timespec_zero, IsNormal, FitsAdd, FitsDiff,
}
use nucleo_tests.Timespec.Order.{diff_of-timespec_add}
use nucleo_tests.Timers.State.{SysTimer, Itimerspec, TimerState, Env, timer_max, by_id}
use nucleo_tests.Timers.Api.{new_spec, timer_delete, timer_settime, timer_gettime, timer_getoverrun}

get_elem?-beyond : {A : Type 0} (xs : List A) (i : ℕ) → length xs ≤ i → get_elem? xs i ≡ none
get_elem?-beyond [] i h = refl
get_elem?-beyond (x ∷ xs) zero h = absurd (omega arith)
get_elem?-beyond (x ∷ xs) (suc i) h = get_elem?-beyond xs i (omega arith)

by_id-wild :
    (timers : List SysTimer) (id : ℕ)
    → length timers ≡ timer_max
    → (id ≡ 0) ⊎ (timer_max < id)
    → by_id timers id ≡ none
by_id-wild timers zero len w = refl
by_id-wild timers (suc td) len (inl e) = absurd (omega (arith, e))
by_id-wild timers (suc td) len (inr l) = get_elem?-beyond timers td (omega (arith, len))

module _ {W : Type 0} (env : Env W) where
  -- With the id 0, or one above `TIMER_MAX`, every function of an id reads outside the table: none
  -- of them tests the id.
  pub wild_id_faults :
      (id rounds : ℕ) (st : TimerState W) (abstime wants_old : Bool) (new_value : Itimerspec)
      → length st.sys_timers ≡ timer_max
      → (id ≡ 0) ⊎ (timer_max < id)
      → (timer_delete env id st ≡ fault)
        × (timer_settime env rounds id abstime new_value wants_old st ≡ fault)
        × (timer_gettime env id st ≡ fault)
        × (timer_getoverrun env id st ≡ fault)
  unfolding timer_delete timer_settime timer_gettime timer_getoverrun
  wild_id_faults id rounds st abstime wants_old new_value len w =
      let e = by_id-wild st.sys_timers id len w in (rw e refl, rw e refl, rw e refl, rw e refl)

  -- A relative time that does not disarm is turned into an expiry from which, at the same clock
  -- reading, exactly that time is left, and the interval is taken over.
  pub new_spec-time_left :
      (t : SysTimer) (v : Itimerspec) (w : W)
      → IsNormal (env.clock_gettime t.clockid w).0
      → IsNormal v.it_value
      → FitsAdd (env.clock_gettime t.clockid w).0 v.it_value
      → FitsDiff
          (timespec_add (env.clock_gettime t.clockid w).0 v.it_value)
          (env.clock_gettime t.clockid w).0
      → timespec_diff v.it_value timespec_zero ≢ pos 0
      → let spec = (new_spec env false t v w).0 in
        (diff_of spec.it_value (env.clock_gettime t.clockid w).0 ≡ v.it_value)
        × (spec.it_interval ≡ v.it_interval)
  unfolding new_spec
  new_spec-time_left t v w h k f g arms =
      let now = (env.clock_gettime t.clockid w).0 in
      elim (Bool-cases (eqb_ℤ (timespec_diff v.it_value timespec_zero) (pos 0))) [
        | inl disarms ↦ absurd (arms ((eqb_ℤ_iff _ _).0 disarms))
        | inr relative ↦ rw relative (diff_of-timespec_add now v.it_value h k f g, refl)
      ]
