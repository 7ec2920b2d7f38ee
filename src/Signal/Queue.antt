-- ===== src/Signal/Queue.antt =====
-- src/signal.c, src/kill.c and src/raise.c: queueing a signal and taking one off the queue.
pub mod Count
pub mod Enqueue
pub mod Order
pub mod Dequeue
use nucleo_tests.Base.{
  ℕ, zero, suc, ◌+◌, Bool, true, false, not, ◌&&◌, Option, none, some, List, [], ◌∷◌, set,
  get_elem?, if◌then◌else◌,
}
use nucleo_tests.Base.Bits.{complement}
use nucleo_tests.Base.Int.{ℤ, pos, ◌+ℤ◌, ◌-ℤ◌, ltb_ℤ, eqb_ℤ, i32, minus_one}
use nucleo_tests.Signal.State.{Siginfo, SignalQueueItem, Signals, esrch, eagain, si_user, si_queue}
use nucleo_tests.Signal.Sets.{sigismember}

-- A slot is free when its `si_signo` is 0.
abbrev pub is_free : SignalQueueItem → Bool
is_free item = eqb_ℤ item.info.si_signo (pos 0)

-- The first free slot.
unfoldable pub free_slot : List SignalQueueItem → Option ℕ
free_slot [] = none
free_slot (item ∷ items) =
    if is_free item then some 0 else elim (free_slot items) [ none ↦ none | some i ↦ some (suc i) ]

-- `SCB_ICSR |= SCB_ICSR_PENDSVSET`
abbrev pub pendsv_interrupt_raise : Signals → Signals
pendsv_interrupt_raise s = record s { pendsv = true }

abbrev pub store_info : Option ℕ → Siginfo → Signals → ℤ × Signals
store_info none info s = (minus_one, record s { errno = eagain })
store_info (some i) info s =
    let next_order = i32 (s.last_order +ℤ pos 1) in
    (
      pos 0,
      pendsv_interrupt_raise (record s {
        items = set s.items i (record { info = info; order = next_order });
        last_order = next_order;
      }),
    )

unfoldable pub sigqueue_info : Siginfo → Signals → ℤ × Signals
sigqueue_info info s = store_info (free_slot s.items) info s

abbrev pub getpid : ℤ
getpid = pos 1

unfoldable pub sigqueue : ℤ → ℤ → ℕ → Signals → ℤ × Signals
unfolding sigqueue_info
sigqueue pid sig value s =
    if not (eqb_ℤ pid getpid)
    then (minus_one, record s { errno = esrch })
    else (if not (eqb_ℤ sig (pos 0))
        then sigqueue_info
            (record { si_signo = sig; si_code = si_queue; si_pid = pos 0; si_value = value }) s
        else (pos 0, s))

unfoldable pub kill : ℤ → ℤ → Signals → ℤ × Signals
unfolding sigqueue_info
kill pid sig s =
    if not (eqb_ℤ pid getpid) && ltb_ℤ (pos 0) pid
    then (minus_one, record s { errno = esrch })
    else (if not (eqb_ℤ sig (pos 0))
        then sigqueue_info
            (record { si_signo = sig; si_code = si_user; si_pid = getpid; si_value = 0 }) s
        else (pos 0, s))

unfoldable pub raise : ℤ → Signals → ℤ × Signals
unfolding kill
raise sig s = kill getpid sig s

-- Whether a candidate of some order goes before the one chosen so far.
unfoldable pub is_important : ℤ → Option (ℕ × ℤ) → Bool
is_important o none = true
is_important o (some (_, order)) = ltb_ℤ (i32 (o -ℤ order)) (pos 0)

-- The chosen slot is given out and freed; the rest of its entry stays.
abbrev pub freed : SignalQueueItem → SignalQueueItem
freed item = record item { info = record item.info { si_signo = pos 0 } }

abbrev pub take_slot : Option SignalQueueItem → ℕ → Signals → Option Siginfo × Signals
take_slot none i s = (none, s)
take_slot (some item) i s = (some item.info, record s { items = set s.items i (freed item) })

abbrev pub take_chosen : Option (ℕ × ℤ) → Signals → Option Siginfo × Signals
take_chosen none s = (none, s)
take_chosen (some (i, _)) s = take_slot (get_elem? s.items i) i s

module _ (wild_shift : ℤ → ℕ) where
  abbrev pub is_candidate : ℕ → SignalQueueItem → Bool
  is_candidate set item = not (is_free item) && sigismember wild_shift set item.info.si_signo

  -- The loop of `signal_dequeue` from slot `iqueue` on; `iqueue_chosen` and `order` in one option.
  unfoldable pub choose : ℕ → List SignalQueueItem → ℕ → Option (ℕ × ℤ) → Option (ℕ × ℤ)
  choose set [] iqueue chosen = chosen
  choose set (item ∷ items) iqueue chosen = choose set items (iqueue + 1) (
      if is_candidate set item && is_important item.order chosen
      then some (iqueue, item.order)
      else chosen)

  -- `none` is the -1 of `signal_dequeue`; it then leaves `*info` as it is.
  unfoldable pub signal_dequeue : ℕ → Signals → Option Siginfo × Signals
  signal_dequeue set s = take_chosen (choose set s.items 0 none) s

  -- The signals that are not blocked.
  unfoldable pub signal_dequeue_procmask : Signals → Option Siginfo × Signals
  signal_dequeue_procmask s = signal_dequeue (complement 32 s.procmask) s
