-- ===== src/Systick/Consistent.antt =====
-- A clock is read and written whole, between two interrupts.
use native.Mathlib.Decide.{dec_lt}
use nucleo_tests.Base.{
  ℕ, zero, suc, ◌+◌, ◌%◌, ◌^◌, ◌<◌, ◌≤◌, ◌≡◌, ◌∙◌, arith, refl, ap, sym, true, if◌then◌else◌,
}
use nucleo_tests.Base.Run.{Run, Ends, Ends-if}
use nucleo_tests.Base.Int.{ℤ, pos, negsuc, ◌+ℤ◌, i32, to_unsigned, eqb_ℤ, eqb_ℤ_iff}
use nucleo_tests.Timespec.{Timespec}
use nucleo_tests.Systick.{
  Systick, Env, Variable, at_monotonic, at_realtime, value_at, set_at, interrupts, interrupted,
  sys_tick_handler, sys_tick_incr, read_clock, write_clock,
}

-- The interrupt comes again fewer than 2^30 times before an access, and by some measure each time
-- uses some of it up.
pub record IsCalm {W : Type 0} (env : Env W) (left : W → ℕ) : Type 0 where
  pub rare : (w : W) → (env.ticks w).0 < 2 ^ 30
  pub ticked : (w : W) → left (env.ticks w).1 + (env.ticks w).0 ≤ left w
  pub counted : (w : W) → left (env.systick_get_value w).1 ≤ left w

unsigned_succ : (z : ℤ) → to_unsigned (i32 (z +ℤ pos 1)) ≡ (to_unsigned z + 1) % 2 ^ 32
unfolding i32 ◌+ℤ◌
unsigned_succ (pos n) = ground arith
unsigned_succ (negsuc zero) = ground arith
unsigned_succ (negsuc (suc n)) = ground arith

unsigned-lt : (z : ℤ) → to_unsigned z < 2 ^ 32
unsigned-lt (pos n) = omega arith
unsigned-lt (negsuc n) = omega arith

module _ {W : Type 0} where
  interrupts-flag :
      (n : ℕ) (s : Systick W)
      → to_unsigned (interrupts n s).timer_update_flag
        ≡ (to_unsigned s.timer_update_flag + n) % 2 ^ 32
  unfolding sys_tick_handler
  interrupts-flag zero s = omega (arith, unsigned-lt s.timer_update_flag)
  interrupts-flag (suc n) s =
      omega (arith, interrupts-flag n (sys_tick_handler s), unsigned_succ s.timer_update_flag)

  interrupts-world : (n : ℕ) (s : Systick W) → (interrupts n s).world ≡ s.world
  unfolding sys_tick_handler sys_tick_incr
  interrupts-world zero s = refl
  interrupts-world (suc n) s = interrupts-world n (sys_tick_handler s)

  no_interrupts : (n : ℕ) (s : Systick W) → n ≡ 0 → interrupts n s ≡ s
  no_interrupts zero s e = refl
  no_interrupts (suc n) s e = absurd (omega arith)

module _ {W : Type 0} (env : Env W) (left : W → ℕ) (calm : IsCalm env left) where
  abbrev count : Systick W → ℕ
  count s = (env.ticks s.world).0

  interrupted-flag :
      (s : Systick W)
      → to_unsigned (interrupted env s).timer_update_flag
        ≡ (to_unsigned s.timer_update_flag + count s) % 2 ^ 32
  unfolding interrupted
  interrupted-flag s = interrupts-flag (count s) (record s { world = (env.ticks s.world).1 })

  interrupted-left : (s : Systick W) → left (interrupted env s).world + count s ≤ left s.world
  unfolding interrupted
  interrupted-left s =
      rw (interrupts-world (count s) (record s { world = (env.ticks s.world).1 }))
        (calm.ticked s.world)

  uninterrupted :
      (s : Systick W) → count s ≡ 0 → interrupted env s ≡ record s { world = (env.ticks s.world).1 }
  unfolding interrupted
  uninterrupted s = no_interrupts (count s) (record s { world = (env.ticks s.world).1 })

  uninterrupted-value :
      (clk : Variable) (s : Systick W)
      → count s ≡ 0
      → value_at clk (interrupted env s) ≡ value_at clk s
  uninterrupted-value at_monotonic s e = ap (λ t. t.monotonic) (uninterrupted s e)
  uninterrupted-value at_realtime s e = ap (λ t. t.realtime) (uninterrupted s e)

  uninterrupted-flag :
      (s : Systick W) → count s ≡ 0 → (interrupted env s).timer_update_flag ≡ s.timer_update_flag
  uninterrupted-flag s e = ap (λ t. t.timer_update_flag) (uninterrupted s e)

  value-world :
      (clk : Variable) (s : Systick W) (w : W)
      → value_at clk (record s { world = w }) ≡ value_at clk s
  value-world at_monotonic s w = refl
  value-world at_realtime s w = refl

  set-laws :
      (clk : Variable) (t : Timespec) (s : Systick W)
      → (value_at clk (set_at clk t s) ≡ t)
        × ((set_at clk t s).timer_update_flag ≡ s.timer_update_flag)
        × ((set_at clk t s).world ≡ s.world)
  set-laws at_monotonic t s = (refl, refl, refl)
  set-laws at_realtime t s = (refl, refl, refl)

  -- A round of a loop, by the flags at its start and its end, the number of interrupts between them,
  -- and the measure: where none came, the loop is left, and otherwise the measure has come down.
  round-Ends :
      {A : Type 0} (Q : A → Type 0) (a b : ℤ) (n before after rounds : ℕ) (x again : Run A)
      → (n ≡ 0 → b ≡ a)
      → to_unsigned b ≡ (to_unsigned a + n) % 2 ^ 32
      → n < 2 ^ 32
      → after + n ≤ before
      → before < suc rounds
      → (n ≡ 0 → Ends Q x)
      → (after < rounds → Ends Q again)
      → Ends Q (if eqb_ℤ a b then x else again)
  round-Ends Q a b n before after rounds x again unmoved flag small down enough k next =
      Ends-if Q (eqb_ℤ a b) x again
        (λ same.
          let e = ap to_unsigned ((eqb_ℤ_iff a b).0 same) in k (omega (arith, unsigned-lt a)))
        (λ moved. elim (dec_lt 0 n) [
          | yes l ↦ next (omega arith)
          | no g ↦
              let same : eqb_ℤ a b ≡ true = (eqb_ℤ_iff a b).1 (sym (unmoved (omega arith))) in
              absurd (cc)
        ])

  read-whole :
      (rounds : ℕ) (clk : Variable) (s : Systick W)
      → left s.world < rounds
      → Ends (λ r. r.0 ≡ value_at clk r.2) (read_clock env rounds clk s)
  unfolding read_clock
  read-whole zero clk s h = absurd (omega arith)
  read-whole (suc rounds) clk s h =
      let s1 = interrupted env s in
      let s2 = interrupted env s1 in
      let s3 = interrupted env s2 in
      let s4 = interrupted env s3 in
      let w = (env.systick_get_value s4.world).1 in
      let s4' = record s4 { world = w } in
      let s5 = interrupted env s4' in
      round-Ends (λ r. r.0 ≡ value_at clk r.2) s1.timer_update_flag s5.timer_update_flag
        (count s1 + count s2 + count s3 + count s4') (left s.world) (left s5.world) rounds _ _
        (λ z.
          uninterrupted-flag s4' (omega arith)
          ∙ uninterrupted-flag s3 (omega arith)
          ∙ uninterrupted-flag s2 (omega arith)
          ∙ uninterrupted-flag s1 (omega arith))
        (omega (
          arith,
          interrupted-flag s1,
          interrupted-flag s2,
          interrupted-flag s3,
          interrupted-flag s4',
        ))
        (omega (arith, calm.rare s1.world, calm.rare s2.world, calm.rare s3.world, calm.rare w))
        (omega (
          arith,
          interrupted-left s,
          interrupted-left s1,
          interrupted-left s2,
          interrupted-left s3,
          interrupted-left s4',
          calm.counted s4.world,
        ))
        h
        (λ z.
          let e5 : value_at clk s5 ≡ value_at clk s3 =
            uninterrupted-value clk s4' (omega arith)
            ∙ value-world clk s4 w
            ∙ uninterrupted-value clk s3 (omega arith) in
          let e3 : value_at clk s3 ≡ value_at clk s2 = uninterrupted-value clk s2 (omega arith) in
          rw (e5, e3) refl)
        (λ k. read-whole rounds clk s5 k)

  write-whole :
      (rounds : ℕ) (clk : Variable) (tp : Timespec) (s : Systick W)
      → left s.world < rounds
      → Ends (λ s'. value_at clk s' ≡ tp) (write_clock env rounds clk tp s)
  unfolding write_clock
  write-whole zero clk tp s h = absurd (omega arith)
  write-whole (suc rounds) clk tp s h =
      let s1 = interrupted env s in
      let s2 = interrupted env s1 in
      let t2 = record (value_at clk s2) { sec = tp.sec } in
      let u2 = set_at clk t2 s2 in
      let s3 = interrupted env u2 in
      let t3 = record (value_at clk s3) { nsec = tp.nsec } in
      let u3 = set_at clk t3 s3 in
      let s4 = interrupted env u3 in
      let l2 = set-laws clk t2 s2 in
      let l3 = set-laws clk t3 s3 in
      let f2 = ap to_unsigned l2.1 in
      let f3 = ap to_unsigned l3.1 in
      let w2 = ap left l2.2 in
      let w3 = ap left l3.2 in
      round-Ends (λ s'. value_at clk s' ≡ tp) s1.timer_update_flag s4.timer_update_flag
        (count s1 + count u2 + count u3) (left s.world) (left s4.world) rounds _ _
        (λ z.
          uninterrupted-flag u3 (omega arith)
          ∙ l3.1
          ∙ uninterrupted-flag u2 (omega arith)
          ∙ l2.1
          ∙ uninterrupted-flag s1 (omega arith))
        (omega (arith, interrupted-flag s1, interrupted-flag u2, interrupted-flag u3))
        (omega (arith, calm.rare s1.world, calm.rare u2.world, calm.rare u3.world))
        (omega (
          arith,
          interrupted-left s,
          interrupted-left s1,
          interrupted-left u2,
          interrupted-left u3,
        ))
        h
        (λ z.
          let e4 : value_at clk s4 ≡ t3 = uninterrupted-value clk u3 (omega arith) ∙ l3.0 in
          let e3 : value_at clk s3 ≡ t2 = uninterrupted-value clk u2 (omega arith) ∙ l2.0 in
          e4 ∙ ap (λ (t : Timespec). record t { nsec = tp.nsec }) e3)
        (λ k. write-whole rounds clk tp s4 k)

  -- Where the interrupts use up some measure and never come 2^30 times at once, one round more than
  -- the measure suffices for the loops of `clock_gettime` and `clock_settime`. The first ends with
  -- the value that the clock has then, and the second with the time given in the clock: neither is
  -- torn by an interrupt between its two words.
  pub clocks_whole :
      (rounds : ℕ) (clk : Variable) (tp : Timespec) (s : Systick W)
      → left s.world < rounds
      → Ends (λ r. r.0 ≡ value_at clk r.2) (read_clock env rounds clk s)
        × Ends (λ s'. value_at clk s' ≡ tp) (write_clock env rounds clk tp s)
  clocks_whole rounds clk tp s h = (read-whole rounds clk s h, write-whole rounds clk tp s h)
