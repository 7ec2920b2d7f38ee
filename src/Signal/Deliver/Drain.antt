-- ===== src/Signal/Deliver/Drain.antt =====
-- The handler drains the queue.
use nucleo_tests.Base.{
  ℕ, zero, suc, ◌≤◌, ◌<◌, inl, inr, subst, sym, arith, some, none, Option, Bool-cases, ◌==◌,
  bit_and, not,
}
use nucleo_tests.Base.Bits.{complement}
use nucleo_tests.Base.Int.{ℤ}
use nucleo_tests.Signal.State.{Siginfo, Sigaction, Signals, sa_siginfo}
use nucleo_tests.Signal.Queue.{signal_dequeue, signal_dequeue_procmask}
use nucleo_tests.Signal.Queue.Count.{pending}
use nucleo_tests.Signal.Queue.Order.{NoCandidate}
use nucleo_tests.Signal.Queue.Enqueue.{IsQueue}
use nucleo_tests.Signal.Queue.Dequeue.{signal_dequeue_oldest}
use nucleo_tests.Signal.Deliver.{
  Env, Delivery, returned, exited, wild, running, action_of, is_harmless, signal_act_default,
  run_action, signal_act, and_then, act_on, pend_sv_handler,
}

module _ {W : Type 0} (env : Env W) where
  -- An application handler that queues no signal, net, and keeps the queue well formed.
  pub record IsQuiet (run : Signals × W → Signals × W) : Type 0 where
    pub queue : (st : Signals × W) → IsQueue st.0 → IsQueue (run st).0
    pub no_more : (st : Signals × W) → pending (run st).0.items ≤ pending st.0.items

  pub record AreQuiet : Type 0 where
    pub handlers : (a : ℕ) (sig : ℤ) → IsQuiet (env.sa_handler a sig)
    pub actions : (a : ℕ) (sig : ℤ) (info : Siginfo) → IsQuiet (env.sa_sigaction a sig info)

  -- What may be said of a delivery: it is not cut short, and a state that it returns is good.
  pub Ends : (Signals × W → Type 0) → Delivery (Signals × W) → Type 0
  Ends P (returned st) = P st
  Ends P exited = Unit
  Ends P wild = Unit
  Ends P running = ⊥

  Smaller : ℕ → Signals × W → Type 0
  Smaller n st = IsQueue st.0 × (pending st.0.items ≤ n)

  act_quiet :
      AreQuiet
      → (info : Siginfo) (st : Signals × W) → IsQueue st.0
      → Ends (Smaller (pending st.0.items)) (signal_act env info st)
  unfolding signal_act signal_act_default Ends Smaller
  act_quiet quiet info st q = by_action (action_of st.0 info.si_signo)
    where
      by_action :
          (act : Option Sigaction)
          → Ends (Smaller (pending st.0.items)) (run_action env act info st)
      by_action none = tt
      by_action (some act) = elim (Bool-cases (act.sa_handler == env.sig_ign)) [
        | inl ign ↦ rw ign (q, omega arith)
        | inr h ↦ elim (Bool-cases (act.sa_handler == env.sig_dfl)) [
          | inl dfl ↦ elim (Bool-cases (is_harmless env info.si_signo)) [
            | inl ok ↦ rw (h, dfl, ok) (q, omega arith)
            | inr bad ↦ rw (h, dfl, bad) tt
          ]
          | inr g ↦ elim (Bool-cases (not (bit_and act.sa_flags sa_siginfo == 0))) [
            | inl with_info ↦
                let x = quiet.actions act.sa_handler info.si_signo info in
                rw (h, g, with_info) (x.queue st q, x.no_more st)
            | inr plain ↦
                let x = quiet.handlers act.sa_handler info.si_signo in
                rw (h, g, plain) (x.queue st q, x.no_more st)
          ]
        ]
      ]

  -- No signal that the mask lets through is left.
  pub Drained : Signals × W → Type 0
  Drained st = NoCandidate env.wild_shift (complement 32 st.0.procmask) st.0.items

  chain :
      (n : ℕ) (m : Delivery (Signals × W)) (k : Signals × W → Delivery (Signals × W))
      → Ends (Smaller n) m
      → ((st : Signals × W) → Smaller n st → Ends Drained (k st))
      → Ends Drained (and_then env m k)
  unfolding Ends
  chain n (returned st) k h f = f st h
  chain n exited k h f = tt
  chain n wild k h f = tt
  chain n running k h f = h

  -- Where the application's handlers queue no signals and the queue is well formed, as many rounds
  -- as signals are pending, and one more, suffice for `pend_sv_handler`: it is not cut short, and
  -- if it returns then no pending signal is left that the mask lets through.
  pub pend_sv_handler_drains :
      AreQuiet
      → (rounds : ℕ) (s : Signals) (w : W) → IsQueue s
      → pending s.items < rounds
      → Ends Drained (pend_sv_handler env rounds (s, w))
  unfolding pend_sv_handler signal_dequeue_procmask Ends Drained Smaller
  pend_sv_handler_drains quiet zero s w q h = absurd (omega arith)
  pend_sv_handler_drains quiet (suc rounds) s w q h =
      let deq = signal_dequeue env.wild_shift (complement 32 s.procmask) s in
      elim (signal_dequeue_oldest env.wild_shift (complement 32 s.procmask) s q) [
        | inl (e, none_left) ↦
            subst (λ r. Ends Drained (act_on env r.0 (r.1, w) (pend_sv_handler env rounds))) (sym e)
              none_left
        | inr (info, e, d) ↦
            subst (λ o. Ends Drained (act_on env o (deq.1, w) (pend_sv_handler env rounds))) (sym e)
              (chain (pending deq.1.items) (signal_act env info (deq.1, w))
                (pend_sv_handler env rounds) (act_quiet quiet info (deq.1, w) d.queue)
                (λ st small.
                  pend_sv_handler_drains quiet rounds st.0 st.1 small.0
                    (omega (arith, d.one_less, small.1))))
      ]
