-- ===== src/Timers/Expiry/Earliest.antt =====
-- The timer that `sys_timer_next_expiring` finds has the least time left, where reading a clock does not
-- move the clocks; and so `sys_timers_manage` leaves none that is due.
use nucleo_tests.Base.{
  ℕ, zero, suc, ◌+◌, ◌<◌, ◌≡◌, ◌↔◌, ◌⊎◌, inl, inr, refl, sym, subst, arith, true, false, Option,
  none, some, List, Bool-cases, if◌then◌else◌,
}
use mathlib.Core.Option.{some-injective}
use native.Mathlib.Decide.{dec_lt}
use nucleo_tests.Base.Run.{Run, done, done-injective}
use nucleo_tests.Base.Int.{ℤ, pos, ◌≤ℤ◌, ◌<ℤ◌, leb_ℤ}
use nucleo_tests.Timespec.{Timespec, timespec_diff, timespec_zero, total}
use nucleo_tests.Timers.State.{SysTimer, TimerState, ClockId, Env, timer_max, timer_at}
use nucleo_tests.Timers.Table.{sys_timer_iter, sys_timer_isarmed}
use nucleo_tests.Timers.Table.Armed.{FirstArmed, NoneArmed, sys_timer_iter-FirstArmed}
use nucleo_tests.Timers.Expiry.{
  keep_earlier, next_from, sys_timer_next_expiring, sys_timer_expires_before, timer_expired,
  sys_timer_time_to_expiration, sys_timers_manage, manage_turn,
}
use nucleo_tests.Timers.Expiry.Next.{ArmedSlot, sys_timer_next_expiring_found}
use nucleo_tests.Timers.Expiry.Left.{InRange, IsLeft, left_sign, ahead_iff, diff_of-IsLeft}

-- Reading a clock moves none of them, and what it reads is in range.
pub record IsSteady {W : Type 0} (env : Env W) : Type 0 where
  pub still :
      (c c' : ClockId) (w : W)
      → (env.clock_gettime c (env.clock_gettime c' w).1).0 ≡ (env.clock_gettime c w).0
  pub reading : (c : ClockId) (w : W) → InRange (env.clock_gettime c w).0

-- The expiries of the armed timers are in range.
abbrev pub ExpiriesInRange : List SysTimer → Type 0
ExpiriesInRange timers =
    (j : ℕ) → sys_timer_isarmed timers j ≡ true → InRange (timer_at timers j).value.it_value

module _ {W : Type 0} (env : Env W) where
  -- No armed timer has run out: each has time left on its clock.
  pub NoneDue : TimerState W → Type 0
  NoneDue st =
      (j : ℕ)
      → j < timer_max
      → sys_timer_isarmed st.sys_timers j ≡ true
      → pos 0
        <ℤ timespec_diff (sys_timer_time_to_expiration env (timer_at st.sys_timers j) st.world).0
            timespec_zero

module _ {W : Type 0} (env : Env W) (steady : IsSteady env) where
  module _ (timers : List SysTimer) (fit : ExpiriesInRange timers) (w0 : W) where
    left : ℕ → Timespec
    left j = (sys_timer_time_to_expiration env (timer_at timers j) w0).0

    Same : W → Type 0
    Same w = (c : ClockId) → (env.clock_gettime c w).0 ≡ (env.clock_gettime c w0).0

    Same-next : (w : W) (c : ClockId) → Same w → Same (env.clock_gettime c w).1
    unfolding Same
    Same-next w c same c' = rw (steady.still c' c w) (same c')

    left-IsLeft : (j : ℕ) → sys_timer_isarmed timers j ≡ true → IsLeft (left j)
    unfolding left sys_timer_time_to_expiration
    left-IsLeft j on = diff_of-IsLeft _ _ (fit j on) (steady.reading _ w0)

    left-Same :
        (j : ℕ) (w : W)
        → Same w
        → (sys_timer_time_to_expiration env (timer_at timers j) w).0 ≡ left j
    unfolding left sys_timer_time_to_expiration Same
    left-Same j w same = rw (same (timer_at timers j).clockid) refl

    later-Same :
        (j : ℕ) (w : W) → Same w → Same (sys_timer_time_to_expiration env (timer_at timers j) w).1
    unfolding sys_timer_time_to_expiration
    later-Same j w same = Same-next w (timer_at timers j).clockid same

    -- The comparison of the code is that of the times left.
    expires_before_sign :
        (t1 t2 : ℕ) (w : W)
        → Same w
        → sys_timer_isarmed timers t1 ≡ true
        → sys_timer_isarmed timers t2 ≡ true
        → let r = sys_timer_expires_before env timers t1 t2 w in
          ((r.0 ≡ true → total (left t1) ≤ℤ total (left t2))
            × (r.0 ≡ false → total (left t2) ≤ℤ total (left t1)))
          × Same r.1
    unfolding sys_timer_expires_before
    expires_before_sign t1 t2 w same on1 on2 =
        let w1 = (sys_timer_time_to_expiration env (timer_at timers t1) w).1 in
        let same1 = later-Same t1 w same in
        let sign = left_sign (left t1) (left t2) (left-IsLeft t1 on1) (left-IsLeft t2 on2) in
        rw (left-Same t1 w same, left-Same t2 w1 same1)
          (by_sign (timespec_diff (left t1) (left t2)) sign (Bool-cases _), later-Same t2 w1 same1)
      where
        by_sign :
            (d : ℤ)
            → (d <ℤ pos 0) ↔ (total (left t1) <ℤ total (left t2))
            → (leb_ℤ (pos 0) d ≡ true) ⊎ (leb_ℤ (pos 0) d ≡ false)
            → (((if leb_ℤ (pos 0) d then false else true) ≡ true)
                → total (left t1) ≤ℤ total (left t2))
              × (((if leb_ℤ (pos 0) d then false else true) ≡ false)
                  → total (left t2) ≤ℤ total (left t1))
        by_sign d sign (inl later) = (
          λ e. absurd (cc (e, later)),
          λ e.
              let n : (total (left t1) <ℤ total (left t2) → ⊥) =
                λ p. (let lt = sign.1 p in absurd (ground (arith, lt, later))) in
              omega (arith, n),
        )
        by_sign d sign (inr earlier) = (
          λ e. (let lt = sign.0 (ground (arith, earlier)) in omega (arith, lt)),
          λ e. absurd (cc (e, earlier)),
        )

    -- A timer is armed and no armed one below `lo` has less time left.
    Least : ℕ → Option ℕ → Type 0
    Least lo chosen =
        (j : ℕ)
        → j < lo
        → sys_timer_isarmed timers j ≡ true
        → (td : ℕ) × (chosen ≡ some td) × (total (left td) ≤ℤ total (left j))

    Least-extend :
        (lo titer td : ℕ)
        → NoneArmed timers lo titer
        → ((j : ℕ) → j < lo → sys_timer_isarmed timers j ≡ true → total (left td) ≤ℤ total (left j))
        → total (left td) ≤ℤ total (left titer)
        → Least (titer + 1) (some td)
    unfolding Least
    Least-extend lo titer td off before here j p on = elim (dec_lt j lo) [
      | yes below ↦ (td, refl, before j below on)
      | no above ↦ elim (dec_lt j titer) [
        | yes between ↦ absurd (cc (on, off j (omega arith) between))
        | no last ↦
            let e : titer ≡ j = omega arith in
            (td, refl, subst (λ i. total (left td) ≤ℤ total (left i)) e here)
      ]
    ]

    keep-Least :
        (lo titer : ℕ) (chosen : Option ℕ) (w : W)
        → Same w
        → NoneArmed timers lo titer
        → titer < timer_max
        → sys_timer_isarmed timers titer ≡ true
        → ArmedSlot timers chosen
        → Least lo chosen
        → let r = keep_earlier env timers titer chosen w in
          Least (titer + 1) r.0 × ArmedSlot timers r.0 × Same r.1
    unfolding keep_earlier Least
    keep-Least lo titer none w same off l on c least = (
      Least-extend lo titer titer off
          (λ j p armed. let (td, e, _) = least j p armed in absurd (cc (e))) (omega arith),
      (l, on),
      same,
    )
    keep-Least lo titer (some td) w same off l on c least =
        let (sign, after) = expires_before_sign titer td w same on c.1 in
        let before : (j : ℕ)
            → j < lo
            → sys_timer_isarmed timers j ≡ true
            → total (left td) ≤ℤ total (left j) =
          λ j p armed.
            let (td', e, le) = least j p armed in
            subst (λ i. total (left i) ≤ℤ total (left j)) (sym (some-injective td td' e)) le in
        elim (Bool-cases (sys_timer_expires_before env timers titer td w).0) [
          | inl earlier ↦
              let le = sign.0 earlier in
              rw earlier (
                Least-extend lo titer titer off (λ j p armed. omega (arith, le, before j p armed))
                    (omega arith),
                (l, on),
                after,
              )
          | inr later ↦ rw later (Least-extend lo titer td off before (sign.1 later), c, after)
        ]

    next-Least :
        (rounds lo : ℕ) (titer chosen : Option ℕ) (w : W) (out : Option ℕ × W)
        → Same w
        → FirstArmed timers lo titer
        → ArmedSlot timers chosen
        → Least lo chosen
        → next_from env rounds timers titer chosen w ≡ done out
        → Least timer_max out.0 × Same out.1
    unfolding next_from Least FirstArmed
    next-Least zero lo titer chosen w out same f c least e = absurd (cc)
    next-Least (suc rounds) lo none chosen w out same f c least e = rw (← done-injective e) (
      λ j p on. elim (dec_lt j lo) [
        | yes below ↦ least j below on
        | no above ↦ absurd (cc (on, f j (omega arith) p))
      ],
      same,
    )
    next-Least (suc rounds) lo (some titer) chosen w out same (p, q, on, off) c least e =
        let (least', c', same') = keep-Least lo titer chosen w same off q on c least in
        next-Least rounds (titer + 1) (sys_timer_iter timers (some titer)) _ _ out same'
          (sys_timer_iter-FirstArmed timers (some titer) q) c' least' e

    -- Where the earliest timer has time left, every armed one has.
    all_ahead :
        (td : ℕ) (w : W)
        → Same w
        → sys_timer_isarmed timers td ≡ true
        → Least timer_max (some td)
        → pos 0
          <ℤ timespec_diff (sys_timer_time_to_expiration env (timer_at timers td) w).0 timespec_zero
        → (j : ℕ) (w' : W) → Same w'
        → j < timer_max
        → sys_timer_isarmed timers j ≡ true
        → pos 0
          <ℤ timespec_diff (sys_timer_time_to_expiration env (timer_at timers j) w').0 timespec_zero
    unfolding Least
    all_ahead td w same on least ahead j w' same' l armed =
        let (td', e, le) = least j l armed in
        let same_td = some-injective td td' e in
        let first =
          (ahead_iff (left td) (left-IsLeft td on)).0 (rw (← left-Same td w same) ahead) in
        rw (left-Same j w' same') (
          (ahead_iff (left j) (left-IsLeft j armed)).1 (
            let le' = subst (λ i. total (left i) ≤ℤ total (left j)) (sym same_td) le in
            omega (arith, first, le')))

  manage_turn-NoneDue :
      (again : TimerState W → Run (TimerState W)) (st out : TimerState W) (o : Option ℕ) (w : W)
      → ((st' : TimerState W) → again st' ≡ done out → NoneDue env out)
      → ExpiriesInRange out.sys_timers
      → ArmedSlot st.sys_timers o
      → ((fit : ExpiriesInRange st.sys_timers)
          → Least st.sys_timers fit st.world timer_max o × Same st.sys_timers fit st.world w)
      → manage_turn env again st (done (o, w)) ≡ done out
      → NoneDue env out
  unfolding manage_turn NoneDue Least
  manage_turn-NoneDue again st out none w h fit a least e =
      let here : record st { world = w } ≡ out = done-injective e in
      let (first, _) = least (subst (λ o. ExpiriesInRange o.sys_timers) (sym here) fit) in
      subst (NoneDue env) here (λ j p on. let (td, e', _) = first j p on in absurd (cc (e')))
  manage_turn-NoneDue again st out (some td) w h fit a least e =
      let (left_td, w') = sys_timer_time_to_expiration env (timer_at st.sys_timers td) w in
      elim (Bool-cases (leb_ℤ (timespec_diff left_td timespec_zero) (pos 0))) [
        | inl due ↦ h (timer_expired env td (record st { world = w' })) (rw (← e, due) refl)
        | inr not_due ↦
            let here : record st { world = w' } ≡ out = done-injective (rw (← e, not_due) refl) in
            let in_range = subst (λ o. ExpiriesInRange o.sys_timers) (sym here) fit in
            let (first, same) = least in_range in
            let ahead : pos 0
                <ℤ timespec_diff (sys_timer_time_to_expiration env (timer_at st.sys_timers td) w).0
                    timespec_zero =
              ground (arith, not_due) in
            subst (NoneDue env) here (λ j p on.
              all_ahead st.sys_timers in_range st.world td w same a.1 first ahead j w'
                (later-Same st.sys_timers in_range st.world td w same) p on)
      ]

  search :
      (st : TimerState W) (in_range : ExpiriesInRange st.sys_timers) (found : Option ℕ × W)
      → sys_timer_next_expiring env st.sys_timers st.world ≡ done found
      → Least st.sys_timers in_range st.world timer_max found.0
        × Same st.sys_timers in_range st.world found.1
  unfolding sys_timer_next_expiring Least Same
  search st in_range found ends =
      next-Least st.sys_timers in_range st.world (suc timer_max) 0
        (sys_timer_iter st.sys_timers none) none st.world found (λ c. refl)
        (sys_timer_iter-FirstArmed st.sys_timers none tt) tt (λ j p. absurd (omega arith)) ends

  -- Where reading a clock moves none, what the clocks read is in range, and so are the expiries of
  -- the armed timers in the end: if `sys_timers_manage` ends, every armed timer has time left.
  pub sys_timers_manage-NoneDue :
      (rounds : ℕ) (st out : TimerState W)
      → sys_timers_manage env rounds st ≡ done out
      → ExpiriesInRange out.sys_timers
      → NoneDue env out
  unfolding sys_timers_manage
  sys_timers_manage-NoneDue zero st out e fit = absurd (cc)
  sys_timers_manage-NoneDue (suc rounds) st out e fit =
      let (found, ends, armed, _) = sys_timer_next_expiring_found env st.sys_timers st.world in
      manage_turn-NoneDue (sys_timers_manage env rounds) st out found.0 found.1
        (λ st' e'. sys_timers_manage-NoneDue rounds st' out e' fit) fit armed
        (λ in_range. search st in_range found ends)
        (subst (λ r. manage_turn env (sys_timers_manage env rounds) st r ≡ done out) ends e)
