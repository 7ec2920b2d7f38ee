-- ===== src/Tests/Waits.antt =====
-- Delivery and waits on the queue of two signals, with handlers that do nothing.
use nucleo_tests.Base.{ℕ, refl, arith, ◌∷◌, replicate, some, false}
use nucleo_tests.Base.Int.{pos, i32, ◌-ℤ◌}
use nucleo_tests.Timespec.{timespec_zero}
use nucleo_tests.Poll.{Clock}
use nucleo_tests.Signal.State.{SignalQueueItem, Signals, einval}
use nucleo_tests.Signal.Sets.{sigismember}
use nucleo_tests.Signal.Queue.{signal_dequeue, choose, is_important}
use nucleo_tests.Signal.Deliver.{Env, pend_sv_handler}
use nucleo_tests.Signal.Deliver.Drain.{IsQuiet, Ends, Drained, pend_sv_handler_drains}
use nucleo_tests.Signal.Wait.{Waited, sigtimedwait, wait_from}
use nucleo_tests.Signal.Wait.Timeout.{Ending, sigtimedwait-Ending}

abbrev slot : ℕ → ℕ → SignalQueueItem
slot sig order = record {
  info = record { si_signo = pos sig; si_code = 2; si_pid = pos 0; si_value = 7 };
  order = pos order;
}

abbrev queue : Signals
queue = record {
  last_order = pos 6;
  items = slot 5 6 ∷ slot 9 4 ∷ replicate 30 (slot 0 0);
  procmask = 0x10;
  actions = replicate 33 (record { sa_handler = 8; sa_flags = 0; sa_mask = 0 });
  pendsv = false;
  errno = einval;
}

abbrev env : Env (Unit {0})
env = record {
  wild_shift = λ sig. 0;
  sig_dfl = 0;
  sig_ign = 1;
  sigchld = pos 20;
  sigurg = pos 16;
  sigstop = pos 17;
  sigtstp = pos 18;
  sigttin = pos 21;
  sigttou = pos 22;
  sigcont = pos 19;
  sa_handler = λ a sig st. st;
  sa_sigaction = λ a sig info st. st;
}

quiet : IsQuiet env (λ st. st)
quiet = record { queue = λ st q. q; no_more = λ st. omega arith }

pend_sv_handler_drains_example : Ends env (Drained env) (pend_sv_handler env 3 (queue, tt))
pend_sv_handler_drains_example =
    pend_sv_handler_drains env (record { handlers = λ a sig. quiet; actions = λ a sig info. quiet })
      3 queue tt (omega arith) (omega arith)

abbrev clock : Clock (Signals × Unit {0})
clock st = (pos 0, record { sec = pos 10; nsec = pos 0 }, st)

abbrev nine : Waited (Unit {0})
nine = record {
  ret = pos 77;
  info = some (slot 9 4).info;
  state = (
    record queue {
      items =
          slot 5 6
          ∷ record (slot 9 4) { info = record (slot 9 4).info { si_signo = pos 0 } }
          ∷ replicate 30 (slot 0 0);
    },
    tt,
  );
}

sigtimedwait-Ending_example :
    Ending
      (λ sig. 0)
      (pos 77)
      clock
      0x110
      timespec_zero
      (record { sec = pos 10; nsec = pos 0 })
      (queue, tt)
      nine
unfolding sigtimedwait wait_from signal_dequeue choose is_important sigismember i32 ◌-ℤ◌
sigtimedwait-Ending_example =
    sigtimedwait-Ending (λ sig. 0) (pos 77) clock 0x110 1 timespec_zero (queue, tt) nine refl
