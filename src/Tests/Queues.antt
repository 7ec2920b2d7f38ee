-- ===== src/Tests/Queues.antt =====
-- A queue with two pending signals, the younger in the lower slot.
use nucleo_tests.Base.{ℕ, ◌≡◌, ◌⊎◌, refl, arith, ◌∷◌, replicate, some, none, false}
use nucleo_tests.Base.Int.{ℤ, pos, minus_one, i32, ◌-ℤ◌}
use nucleo_tests.Signal.State.{Siginfo, SignalQueueItem, Signals, eagain, einval, sigqueue_max}
use nucleo_tests.Signal.Sets.{sigismember}
use nucleo_tests.Signal.Queue.{sigqueue_info, signal_dequeue, choose, is_important}
use nucleo_tests.Signal.Queue.Count.{pending}
use nucleo_tests.Signal.Queue.Order.{NoCandidate}
use nucleo_tests.Signal.Queue.Enqueue.{Queued, sigqueue_info_outcome}
use nucleo_tests.Signal.Queue.Dequeue.{Dequeued, signal_dequeue_oldest}

abbrev wild_shift : ℤ → ℕ
wild_shift sig = 0

abbrev info : ℕ → Siginfo
info sig = record { si_signo = pos sig; si_code = 2; si_pid = pos 0; si_value = 7 }

abbrev slot : ℕ → ℕ → SignalQueueItem
slot sig order = record { info = info sig; order = pos order }

abbrev queue : Signals
queue = record {
  last_order = pos 6;
  items = slot 5 6 ∷ slot 9 4 ∷ replicate 30 (slot 0 0);
  procmask = 0x110;
  actions = replicate 33 (record { sa_handler = 0; sa_flags = 0; sa_mask = 0 });
  pendsv = false;
  errno = einval;
}

older_first : (signal_dequeue wild_shift 0x110 queue).0 ≡ some (info 9)
unfolding signal_dequeue choose is_important sigismember i32 ◌-ℤ◌
older_first = refl

signal_dequeue_oldest_example :
    let r = signal_dequeue wild_shift 0x110 queue in
    ((r ≡ (none, queue)) × NoCandidate wild_shift 0x110 queue.items)
    ⊎ ((info : Siginfo) × (r.0 ≡ some info) × Dequeued wild_shift 0x110 queue info r.1)
signal_dequeue_oldest_example = signal_dequeue_oldest wild_shift 0x110 queue (omega arith)

sigqueue_info_outcome_example :
    let r = sigqueue_info (info 3) queue in
    ((r.0 ≡ pos 0) × Queued (info 3) queue r.1)
    ⊎ ((r ≡ (minus_one, record queue { errno = eagain })) × (pending queue.items ≡ sigqueue_max))
sigqueue_info_outcome_example =
    sigqueue_info_outcome (info 3) queue (omega arith) (λ e. cc (e)) (omega arith)
