-- ===== src/Timers/Expiry/Total.antt =====
-- With one-shot timers alone, `sys_timers_manage` ends: each round disarms a timer.
use nucleo_tests.Base.{
  ℕ, zero, suc, ◌+◌, ◌≤◌, ◌<◌, ◌≡◌, ◌≢◌, inl, inr, refl, subst, ap, ◌∙◌, arith, true, false, Option,
  none, some, List, length, Bool-cases, if◌then◌else◌,
}
use native.Mathlib.Decide.{dec_lt}
use nucleo_tests.Base.Run.{Run, done, fault, more, Returns}
use nucleo_tests.Base.Int.{pos, ltb_ℤ, leb_ℤ, ◌-ℤ◌, i32}
use nucleo_tests.Timespec.{Timespec, timespec_diff, diff_of, timespec_zero}
use nucleo_tests.Timers.State.{SysTimer, TimerState, Env, timer_max, timer_at}
use nucleo_tests.Timers.Table.{is_armed, sys_timer_isarmed}
use nucleo_tests.Timers.Expiry.{
  timer_expired, sys_timers_manage, manage_turn, sys_timer_time_to_expiration,
}
use nucleo_tests.Timers.Expiry.Next.{ArmedSlot, sys_timer_next_expiring_found}
use nucleo_tests.Timers.Expiry.Fire.{LeavesTimers, fired, timer_expired-Fired}
use nucleo_tests.Timers.Expiry.Earliest.{
  IsSteady, ExpiriesInRange, NoneDue, sys_timers_manage-NoneDue,
}

-- The armed timers among the first slots.
abbrev pub count_armed : ℕ → List SysTimer → ℕ
count_armed zero timers = 0
count_armed (suc n) timers = (if sys_timer_isarmed timers n then 1 else 0) + count_armed n timers

pub count_le : (n : ℕ) (timers : List SysTimer) → count_armed n timers ≤ n
count_le zero timers = omega arith
count_le (suc n) timers = elim (Bool-cases (sys_timer_isarmed timers n)) [
  | inl on ↦ rw on (omega (arith, count_le n timers))
  | inr off ↦ rw off (omega (arith, count_le n timers))
]

module _ (a b : List SysTimer) (td : ℕ)
    (others : (j : ℕ) → td ≢ j → sys_timer_isarmed b j ≡ sys_timer_isarmed a j) where
  count_below : (n : ℕ) → n ≤ td → count_armed n b ≡ count_armed n a
  count_below zero h = refl
  count_below (suc n) h = rw (others n (ground arith), count_below n (omega arith)) refl

  count_fewer :
      (n : ℕ)
      → td < n
      → sys_timer_isarmed a td ≡ true
      → sys_timer_isarmed b td ≡ false
      → count_armed n b < count_armed n a
  count_fewer zero h on off = absurd (omega arith)
  count_fewer (suc n) h on off = elim (dec_lt td n) [
    | yes l ↦ let ih = count_fewer n l on off in rw (others n (ground arith)) (omega (arith, ih))
    | no g ↦
        let e : td ≡ n = omega arith in
        let on' = subst (λ i. sys_timer_isarmed a i ≡ true) e on in
        let off' = subst (λ i. sys_timer_isarmed b i ≡ false) e off in
        rw (on', off', count_below n (omega arith)) (omega arith)
  ]

-- No timer that is armed is periodic.
abbrev pub OneShot : List SysTimer → Type 0
OneShot timers =
    (j : ℕ)
    → sys_timer_isarmed timers j ≡ true
    → ltb_ℤ (pos 0) (timespec_diff (timer_at timers j).value.it_interval timespec_zero) ≡ false

module _ {W : Type 0} (env : Env W) (q : LeavesTimers env) where
  -- A table of one-shot timers, whose expiries are in range.
  record IsFine (timers : List SysTimer) : Type 0 where
    slots : length timers ≡ timer_max
    one_shot : OneShot timers
    in_range : ExpiriesInRange timers

  fired-off :
      (t : SysTimer) (now : Timespec)
      → ltb_ℤ (pos 0) (timespec_diff t.value.it_interval timespec_zero) ≡ false
      → is_armed (fired env t now) ≡ false
  unfolding is_armed timespec_diff diff_of i32 ◌-ℤ◌
  fired-off t now once = rw once (ground arith)

  -- An expiry disarms the timer, and arms none.
  expired-IsFine :
      (td : ℕ) (st : TimerState W)
      → IsFine st.sys_timers
      → td < timer_max
      → sys_timer_isarmed st.sys_timers td ≡ true
      → let st' = timer_expired env td st in
        IsFine st'.sys_timers
        × (count_armed timer_max st'.sys_timers < count_armed timer_max st.sys_timers)
  unfolding sys_timer_isarmed
  expired-IsFine td st h l on =
      let f = timer_expired-Fired env q td st (omega (arith, h.slots)) in
      let timers' = (timer_expired env td st).sys_timers in
      let off : sys_timer_isarmed timers' td ≡ false =
        rw (f.timer) (fired-off (timer_at st.sys_timers td) _ (h.one_shot td on)) in
      let others : (j : ℕ)
          → td ≢ j
          → sys_timer_isarmed timers' j ≡ sys_timer_isarmed st.sys_timers j =
        λ j ne. ap is_armed (f.others j ne) in
      let elsewhere : (j : ℕ) → sys_timer_isarmed timers' j ≡ true → td ≢ j =
        λ j on' e. absurd (cc (on', subst (λ i. sys_timer_isarmed timers' i ≡ false) e off)) in
      (
        record {
          slots = f.slots ∙ h.slots;
          one_shot = λ j on'.
              let same = f.others j (elsewhere j on') in
              rw same (h.one_shot j (rw (← others j (elsewhere j on')) on'));
          in_range = λ j on'.
              let same = f.others j (elsewhere j on') in
              rw same (h.in_range j (rw (← others j (elsewhere j on')) on'));
        },
        count_fewer st.sys_timers timers' td others timer_max l on off,
      )

  -- One turn, where a round more than the timers that are armed is left.
  manage_turn-Returns :
      (again : TimerState W → Run (TimerState W)) (rounds : ℕ) (st : TimerState W) (o : Option ℕ)
      (w : W)
      → IsFine st.sys_timers
      → count_armed timer_max st.sys_timers < suc rounds
      → ArmedSlot st.sys_timers o
      → ((st' : TimerState W)
          → IsFine st'.sys_timers
          → count_armed timer_max st'.sys_timers < rounds
          → Returns (λ out. IsFine out.sys_timers) (again st'))
      → Returns (λ out. IsFine out.sys_timers) (manage_turn env again st (done (o, w)))
  unfolding manage_turn
  manage_turn-Returns again rounds st none w h l a k = h
  manage_turn-Returns again rounds st (some td) w h l a k =
      let (left, w') = sys_timer_time_to_expiration env (timer_at st.sys_timers td) w in
      elim (Bool-cases (leb_ℤ (timespec_diff left timespec_zero) (pos 0))) [
        | inl due ↦
            let (fine, fewer) = expired-IsFine td (record st { world = w' }) h a.0 a.1 in
            rw due
              (k (timer_expired env td (record st { world = w' })) fine (omega (arith, fewer, l)))
        | inr not_due ↦ rw not_due h
      ]

  manage-Returns :
      (rounds : ℕ) (st : TimerState W)
      → IsFine st.sys_timers
      → count_armed timer_max st.sys_timers < rounds
      → Returns (λ out. IsFine out.sys_timers) (sys_timers_manage env rounds st)
  unfolding sys_timers_manage
  manage-Returns zero st h l = absurd (omega arith)
  manage-Returns (suc rounds) st h l =
      let (found, ends, armed, _) = sys_timer_next_expiring_found env st.sys_timers st.world in
      rw ends (
        manage_turn-Returns (sys_timers_manage env rounds) rounds st found.0 found.1 h l armed
          (manage-Returns rounds))

  returned :
      (r : Run (TimerState W))
      → Returns (λ out. IsFine out.sys_timers) r
      → (out : TimerState W) × (r ≡ done out) × IsFine out.sys_timers
  returned (done out) h = (out, refl, h)
  returned fault h = absurd h
  returned more h = absurd h

  -- Where reading a clock moves none and what the clocks read is from 0 to below 2^30 seconds, the
  -- notification functions leave the table alone, and in the table of 32 slots no armed timer is
  -- periodic and each expires from 0 to below 2^30 seconds, `sys_timers_manage` returns within one
  -- round more than the timers that are armed, and then every armed timer has time left.
  pub sys_timers_manage-total :
      (steady : IsSteady env) (rounds : ℕ) (st : TimerState W)
      → length st.sys_timers ≡ timer_max
      → OneShot st.sys_timers
      → ExpiriesInRange st.sys_timers
      → count_armed timer_max st.sys_timers < rounds
      → (out : TimerState W) × (sys_timers_manage env rounds st ≡ done out) × NoneDue env out
  sys_timers_manage-total steady rounds st slots one_shot in_range l =
      let start : IsFine st.sys_timers = record {
        slots = slots;
        one_shot = one_shot;
        in_range = in_range;
      } in
      let (out, e, fine) =
        returned (sys_timers_manage env rounds st) (manage-Returns rounds st start l) in
      (out, e, sys_timers_manage-NoneDue env steady rounds st out e fine.in_range)
