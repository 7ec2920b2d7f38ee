-- ===== src/Signal/Mask.antt =====
-- src/signal.c: the signal mask, and the pending signals that it blocks.
pub mod Change
pub mod Pending
use nucleo_tests.Base.{
  ℕ, Bool, true, false, not, ◌&&◌, Option, none, some, List, [], ◌∷◌, bit_and, bit_or,
  if◌then◌else◌,
}
use nucleo_tests.Base.Bits.{complement}
use nucleo_tests.Base.Int.{ℤ, pos, leb_ℤ, eqb_ℤ, minus_one}
use nucleo_tests.Signal.State.{SignalQueueItem, Signals, einval, eintr}
use nucleo_tests.Signal.Sets.{sigismember, sigaddset, sigemptyset}
use nucleo_tests.Signal.Queue.{is_free, pendsv_interrupt_raise}

-- The values of `how` that the toolchain's <signal.h> names, and all others.
pub data How : Type 0 where
  sig_block sig_setmask sig_unblock : How
  other : ℤ → How

-- What is written to `*oset` comes second.
unfoldable pub sigprocmask : How → Option ℕ → Signals → ℤ × ℕ × Signals
sigprocmask how none s = (pos 0, s.procmask, s)
sigprocmask sig_block (some set) s =
    (pos 0, s.procmask, record s { procmask = bit_or s.procmask set })
sigprocmask sig_setmask (some set) s =
    (pos 0, s.procmask, pendsv_interrupt_raise (record s { procmask = set }))
sigprocmask sig_unblock (some set) s = (
  pos 0,
  s.procmask,
  pendsv_interrupt_raise (record s { procmask = bit_and s.procmask (complement 32 set) }),
)
sigprocmask (other _) (some set) s = (minus_one, s.procmask, record s { errno = einval })

module _ (wild_shift : ℤ → ℕ) where
  unfoldable pub sigholdrel : How → ℤ → Signals → ℤ × Signals
  sigholdrel how sig s =
      if leb_ℤ sig (pos 0)
      then (minus_one, record s { errno = einval })
      else (let (_, _, s') = sigprocmask how (some (sigaddset wild_shift sigemptyset sig)) s in
          (pos 0, s'))

  unfoldable pub sighold : ℤ → Signals → ℤ × Signals
  sighold sig s = sigholdrel sig_block sig s

  unfoldable pub sigrelse : ℤ → Signals → ℤ × Signals
  sigrelse sig s = sigholdrel sig_unblock sig s

  -- The loop of `sigpending`, from some slot on, with the set so far.
  unfoldable pub pending_from : ℕ → List SignalQueueItem → ℕ → ℕ
  pending_from blocked [] set = set
  pending_from blocked (item ∷ items) set = pending_from blocked items (
      if not (is_free item) && sigismember wild_shift blocked item.info.si_signo
      then sigaddset wild_shift set item.info.si_signo
      else set)

  -- It reads the mask by a `sigprocmask` with no set.
  unfoldable pub sigpending : Signals → ℤ × ℕ × Signals
  unfolding sigprocmask
  sigpending s =
      let (_, blocked, s') = sigprocmask sig_setmask none s in
      (pos 0, pending_from blocked s'.items sigemptyset, s')

-- There is no wait between the two changes of the mask.
unfoldable pub sigsuspend : Option ℕ → Signals → ℤ × Signals
unfolding sigprocmask
sigsuspend sigmask s =
    let (_, saved_mask, s1) = sigprocmask sig_setmask sigmask s in
    let (_, _, s2) = sigprocmask sig_setmask (some saved_mask) s1 in
    (minus_one, record s2 { errno = eintr })
