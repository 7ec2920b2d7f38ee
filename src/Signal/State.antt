-- ===== src/Signal/State.antt =====
-- The state of src/signal.c: the queue of pending signals, the mask and the actions.
-- Each operation runs with faults masked or to its end, so it is one step on this state.
use nucleo_tests.Base.{ℕ, Bool, List}
use nucleo_tests.Base.Int.{ℤ}

-- The members of `siginfo_t` that the layer sets; the others stay 0. `si_value` is the word of the
-- union.
pub record Siginfo : Type 0 where
  pub si_signo : ℤ
  pub si_code : ℕ
  pub si_pid : ℤ
  pub si_value : ℕ

pub record SignalQueueItem : Type 0 where
  pub info : Siginfo
  pub order : ℤ

-- `sa_handler` is an address; `sa_flags` is a bit pattern.
pub record Sigaction : Type 0 where
  pub sa_handler : ℕ
  pub sa_flags : ℕ
  pub sa_mask : ℕ

pub data Errno : Type 0 where
  eagain esrch einval eintr : Errno
  other : ℕ → Errno

-- `pendsv` is the PENDSVSET bit of the interrupt control register.
pub record Signals : Type 0 where
  pub last_order : ℤ
  pub items : List SignalQueueItem
  pub procmask : ℕ
  pub actions : List Sigaction
  pub pendsv : Bool
  pub errno : Errno

abbrev pub sigqueue_max : ℕ
sigqueue_max = 32

abbrev pub signal_max : ℕ
signal_max = 32

abbrev pub si_user : ℕ
si_user = 1

abbrev pub si_queue : ℕ
si_queue = 2

abbrev pub si_timer : ℕ
si_timer = 3

abbrev pub sa_restart : ℕ
sa_restart = 8

abbrev pub sa_siginfo : ℕ
sa_siginfo = 16
