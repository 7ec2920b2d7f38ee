-- ===== src/Timers/Api/Create.antt =====
-- Creating and deleting timers.
use nucleo_tests.Base.{
  ℕ, suc, ◌+◌, ◌-◌, ◌<◌, ◌≡◌, ◌≢◌, ◌⊎◌, inl, refl, subst, arith, true, false, Option, none, some,
  List, length, set, get_or-set_self, get_or-set_ne, get_elem?-eq-get_or, length-set, lt→ltb,
}
use native.Mathlib.Decide.{ℕ_discrete}
use nucleo_tests.Base.Run.{done}
use nucleo_tests.Base.Int.{ℤ, pos, minus_one}
use nucleo_tests.Signal.State.{eagain, einval}
use nucleo_tests.Timers.State.{
  SysTimer, Sigevent, TimerState, Env, ClockId, timer_max, timer_at, zero_timer, is_allocated,
}
use nucleo_tests.Timers.Table.{sys_timer_free, cleared}
use nucleo_tests.Timers.Table.Slots.{AllInUse}
use nucleo_tests.Timers.Api.{event_for, timer_delete}

-- The table has its slots, and each is free or holds the id of its place.
pub record IsTable (timers : List SysTimer) : Type 0 where
  pub slots : length timers ≡ timer_max
  pub ids : (j : ℕ) → ((timer_at timers j).timerid ≡ 0) ⊎ ((timer_at timers j).timerid ≡ j + 1)

set-IsTable :
    (timers : List SysTimer) (td : ℕ) (t : SysTimer)
    → IsTable timers
    → td < timer_max
    → (t.timerid ≡ 0) ⊎ (t.timerid ≡ td + 1)
    → IsTable (set timers td t)
set-IsTable timers td t h l e = record {
  slots = omega (arith, h.slots, length-set timers td t);
  ids = λ j. elim (ℕ_discrete td j) [
    | yes same ↦
        let here = get_or-set_self timers td t zero_timer (omega (arith, h.slots)) in
        subst
          (λ k.
            ((timer_at (set timers td t) k).timerid ≡ 0)
            ⊎ ((timer_at (set timers td t) k).timerid ≡ k + 1))
          same (rw here e)
    | no other ↦ rw (get_or-set_ne timers td j t zero_timer other) (h.ids j)
  ];
}

module _ {W : Type 0} (env : Env W) where
  -- The state after `timer_create` used a slot.
  pub record Created (clockid : ClockId) (sevp : Option Sigevent) (st : TimerState W) (td : ℕ)
      (st' : TimerState W) : Type 0 where
    pub in_table : td < timer_max
    pub was_free : is_allocated (timer_at st.sys_timers td) ≡ false
    pub slot :
        timer_at st'.sys_timers td
        ≡ record (cleared td) { clockid = clockid; sevp = event_for env sevp (td + 1) }
    pub others : (j : ℕ) → td ≢ j → timer_at st'.sys_timers j ≡ timer_at st.sys_timers j
    pub table : IsTable st'.sys_timers

  abbrev pub CreateOutcome :
      ClockId → Option Sigevent → TimerState W → ℤ × Option ℕ × TimerState W → Type 0
  CreateOutcome clockid sevp st r =
      ((td : ℕ) × (r.0 ≡ pos 0) × (r.1 ≡ some (td + 1)) × Created clockid sevp st td r.2)
      ⊎ ((r ≡ (minus_one, none, record st { errno = eagain })) × AllInUse st.sys_timers 0 timer_max)

  -- For the id of a timer in use, `timer_delete` returns 0 and gives up its slot only; deleted again,
  -- the id is refused with `EINVAL`. The table stays well formed.
  pub timer_delete_twice :
      (td : ℕ) (st : TimerState W)
      → IsTable st.sys_timers
      → td < timer_max
      → is_allocated (timer_at st.sys_timers td) ≡ true
      → (st' : TimerState W) × (timer_delete env (suc td) st ≡ done (pos 0, tt, st'))
        × (timer_delete env (suc td) st' ≡ done (minus_one, tt, record st' { errno = einval }))
        × ((j : ℕ) → td ≢ j → timer_at st'.sys_timers j ≡ timer_at st.sys_timers j)
        × IsTable st'.sys_timers
  unfolding timer_delete sys_timer_free
  timer_delete_twice td st h l used =
      let t = timer_at st.sys_timers td in
      let gone = record t { timerid = 0 } in
      let inside : td < length st.sys_timers = omega (arith, h.slots) in
      let back : suc td - 1 ≡ td = omega arith in
      let ts = set st.sys_timers td gone in
      let inside' : td < length ts = omega (arith, length-set st.sys_timers td gone) in
      (
        record st { sys_timers = ts },
        rw
            (
              get_elem?-eq-get_or st.sys_timers td zero_timer inside,
              used,
              back,
              lt→ltb td timer_max l,
            )
            refl,
        rw
            (
              get_elem?-eq-get_or ts td zero_timer inside',
              get_or-set_self st.sys_timers td gone zero_timer inside,
            )
            refl,
        λ j ne. get_or-set_ne st.sys_timers td j gone zero_timer ne,
        set-IsTable st.sys_timers td gone h l (inl refl),
      )
