-- ===== src/Systick.antt =====
-- src/clock_gettime_systick.c: the clocks that the interrupt of the system tick drives. A step of a
-- function may be interrupted: before each access to the variables that the interrupt writes, it
-- comes as many times as `ticks` says.
pub mod Consistent
pub mod Setting
use nucleo_tests.Base.{
  ℕ, zero, suc, ◌+◌, ◌-◌, ◌*◌, ◌/◌, ◌%◌, ◌^◌, Bool, true, false, Option, none, some, if◌then◌else◌,
}
use nucleo_tests.Base.Run.{Run, done, more, ◌>>=◌}
use nucleo_tests.Base.Int.{ℤ, pos, ◌+ℤ◌, i32, signed32, ltb_ℤ, leb_ℤ, eqb_ℤ, minus_one}
use nucleo_tests.Timespec.{Timespec, timespec_incr, nsecs_in_sec}
use nucleo_tests.Timers.State.{ClockId, clock_monotonic, clock_realtime, other}

abbrev pub systick_nsec : ℕ
systick_nsec = 1000000

abbrev pub systick_freq_hz : ℕ
systick_freq_hz = nsecs_in_sec / systick_nsec

abbrev pub systick_step : Timespec
systick_step = record { sec = pos 0; nsec = pos systick_nsec }

abbrev pub einval : ℤ
einval = pos 22

-- The variables of the file, `errno`, and the state outside.
pub record Systick (W : Type 0) : Type 0 where
  pub realtime : Timespec
  pub monotonic : Timespec
  pub timer_update_flag : ℤ
  pub clock_gettime_mutex : Bool
  pub errno : ℤ
  pub world : W

-- `rcc_ahb_frequency`, how often the interrupt comes before an access, the counter, and
-- `timesync_timespec`, with the calls that it makes of the functions here.
pub record Env (W : Type 0) : Type 0 where
  pub rcc_ahb_frequency : ℕ
  pub ticks : W → ℕ × W
  pub systick_get_value : W → ℕ × W
  pub timesync_timespec : Timespec → Systick W → Timespec × Systick W

-- The variable that `clock_get` points to.
pub data Variable : Type 0 where
  at_monotonic at_realtime : Variable

unfoldable pub clock_get : ClockId → Option Variable
clock_get clock_monotonic = some at_monotonic
clock_get clock_realtime = some at_realtime
clock_get (other _) = none

abbrev pub value_at : {W : Type 0} → Variable → Systick W → Timespec
value_at at_monotonic s = s.monotonic
value_at at_realtime s = s.realtime

abbrev pub set_at : {W : Type 0} → Variable → Timespec → Systick W → Systick W
set_at at_monotonic t s = record s { monotonic = t }
set_at at_realtime t s = record s { realtime = t }

unfoldable pub sys_tick_incr : {W : Type 0} → Variable → Systick W → Systick W
sys_tick_incr clk s = set_at clk (timespec_incr (value_at clk s) systick_step) s

unfoldable pub sys_tick_handler : {W : Type 0} → Systick W → Systick W
unfolding sys_tick_incr
sys_tick_handler s =
    let s1 = sys_tick_incr at_monotonic s in
    let s2 = sys_tick_incr at_realtime s1 in
    record s2 { timer_update_flag = i32 (s2.timer_update_flag +ℤ pos 1) }

abbrev pub interrupts : {W : Type 0} → ℕ → Systick W → Systick W
interrupts zero s = s
interrupts (suc n) s = interrupts n (sys_tick_handler s)

module _ {W : Type 0} (env : Env W) where
  -- The state at the next access.
  unfoldable pub interrupted : Systick W → Systick W
  interrupted s = let (n, w) = env.ticks s.world in interrupts n (record s { world = w })

  unfoldable pub systick_fraction_to_timespec : ℕ → Timespec
  systick_fraction_to_timespec fraction =
      let reload = env.rcc_ahb_frequency / systick_freq_hz in
      let ticks = (reload + (2 ^ 32 - fraction)) % 2 ^ 32 in
      let nsec = ticks * (nsecs_in_sec / env.rcc_ahb_frequency) % 2 ^ 32 in
      record { sec = pos 0; nsec = signed32 nsec }

  -- The loop of `clock_gettime`, with rounds: the two words of the clock are read apart.
  unfoldable pub read_clock : ℕ → Variable → Systick W → Run (Timespec × ℕ × Systick W)
  unfolding interrupted
  read_clock zero clk s = more
  read_clock (suc rounds) clk s =
      let s1 = interrupted s in
      let s2 = interrupted s1 in
      let s3 = interrupted s2 in
      let s4 = interrupted s3 in
      let (fraction, w) = env.systick_get_value s4.world in
      let s5 = interrupted (record s4 { world = w }) in
      let tp : Timespec = record { sec = (value_at clk s2).sec; nsec = (value_at clk s3).nsec } in
      let again = read_clock rounds clk s5 in
      if eqb_ℤ s1.timer_update_flag s5.timer_update_flag then done (tp, fraction, s5) else again

  abbrev pub is_realtime : ClockId → Bool
  is_realtime clock_realtime = true
  is_realtime clock_monotonic = false
  is_realtime (other _) = false

  -- The time is set from a server at times, unless this is a call from there.
  unfoldable pub synchronise : ClockId → Timespec → Systick W → Timespec × Systick W
  synchronise clock_id tp s =
      let (tp', s') = env.timesync_timespec tp (record s { clock_gettime_mutex = true }) in
      if is_realtime clock_id
      then (if s.clock_gettime_mutex
          then (tp, s)
          else (tp', record s' { clock_gettime_mutex = false }))
      else (tp, s)

  abbrev pub gettime_of :
      ℕ → ClockId → Option Variable → Timespec → Systick W → Run (ℤ × Timespec × Systick W)
  gettime_of rounds clock_id none tp s = done (minus_one, tp, record s { errno = einval })
  gettime_of rounds clock_id (some clk) tp s = read_clock rounds clk s >>= λ r.
      let time = timespec_incr r.0 (systick_fraction_to_timespec r.1) in
      let (tp', s') = synchronise clock_id time r.2 in done (pos 0, tp', s')

  -- What is written to `*tp` comes second; `tp` is what it holds.
  unfoldable pub clock_gettime : ℕ → ClockId → Timespec → Systick W → Run (ℤ × Timespec × Systick W)
  clock_gettime rounds clock_id tp s = gettime_of rounds clock_id (clock_get clock_id) tp s

  -- The loop of `clock_settime`, with rounds: the two words of the clock are written apart.
  unfoldable pub write_clock : ℕ → Variable → Timespec → Systick W → Run (Systick W)
  unfolding interrupted
  write_clock zero clk tp s = more
  write_clock (suc rounds) clk tp s =
      let s1 = interrupted s in
      let s2 = interrupted s1 in
      let s3 = interrupted (set_at clk (record (value_at clk s2) { sec = tp.sec }) s2) in
      let s4 = interrupted (set_at clk (record (value_at clk s3) { nsec = tp.nsec }) s3) in
      let again = write_clock rounds clk tp s4 in
      if eqb_ℤ s1.timer_update_flag s4.timer_update_flag then done s4 else again

  abbrev pub refused : Systick W → Run (ℤ × Systick W)
  refused s = done (minus_one, record s { errno = einval })

  abbrev pub settime_of :
      ℕ → ClockId → Option Variable → Option Timespec → Systick W → Run (ℤ × Systick W)
  settime_of rounds clock_id none tp s = refused s
  settime_of rounds clock_id (some at_monotonic) tp s = refused s
  settime_of rounds clock_id (some at_realtime) none s = refused s
  settime_of rounds clock_id (some at_realtime) (some tp) s =
      if ltb_ℤ tp.nsec (pos 0)
      then refused s
      else if leb_ℤ (pos nsecs_in_sec) tp.nsec
      then refused s
      else (write_clock rounds at_realtime tp s >>= λ s'. done (pos 0, s'))

  unfoldable pub clock_settime : ℕ → ClockId → Option Timespec → Systick W → Run (ℤ × Systick W)
  clock_settime rounds clock_id tp s = settime_of rounds clock_id (clock_get clock_id) tp s

  abbrev pub getres_of :
      Option Variable → Option Timespec → Systick W → ℤ × Option Timespec × Systick W
  getres_of none res s = (minus_one, res, record s { errno = einval })
  getres_of (some clk) none s = (pos 0, none, s)
  getres_of (some clk) (some _) s = (pos 0, some (systick_fraction_to_timespec 1), s)

  unfoldable pub clock_getres :
      ClockId → Option Timespec → Systick W → ℤ × Option Timespec × Systick W
  clock_getres clock_id res s = getres_of (clock_get clock_id) res s
