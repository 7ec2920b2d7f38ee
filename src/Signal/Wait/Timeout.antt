-- ===== src/Signal/Wait/Timeout.antt =====
-- When a wait gives up, and what it returns.
use nucleo_tests.Base.{ℕ, zero, suc, ◌≡◌, inl, inr, arith, none, some, Bool-cases, Option-cases}
use nucleo_tests.Base.Int.{ℤ, pos, ◌≤ℤ◌, ◌<ℤ◌, leb_ℤ, minus_one}
use nucleo_tests.Timespec.{Timespec, timespec_diff, diff_of, timespec_infinity, IsNormal}
use nucleo_tests.Timespec.Order.{timespec_infinity_ahead}
use nucleo_tests.Poll.{Clock}
use nucleo_tests.Signal.State.{Siginfo, Signals, eagain}
use nucleo_tests.Signal.Queue.{signal_dequeue}
use nucleo_tests.Signal.Wait.{Waited, wait_from, sigtimedwait, sigwaitinfo}

module _ {W : Type 0} (wild_shift : ℤ → ℕ) (junk : ℤ) (clock : Clock (Signals × W)) (set : ℕ) where
  -- What the wait has left of the timeout at a reading of the clock.
  abbrev pub time_left : Timespec → Timespec → Signals × W → ℤ
  time_left timeout start at = timespec_diff timeout (diff_of (clock at).1 start)

  -- The state in which the clock is read: after a look at the queue.
  abbrev pub looked : Signals × W → Signals × W
  looked (s, w) = ((signal_dequeue wild_shift set s).1, w)

  -- The states in which a wait that began in `st` looks at the queue: the first, and after each
  -- one where it found no signal of the set, and then read a time at which some of the timeout was
  -- left, the one in which that reading ended.
  pub data Looks (timeout start : Timespec) (st : Signals × W) : Signals × W → Type 0 where
    here : Looks timeout start st st
    again :
        {at : Signals × W}
        → Looks timeout start st at
        → (signal_dequeue wild_shift set at.0).0 ≡ none
        → pos 0 <ℤ time_left timeout start (looked at)
        → Looks timeout start st (clock (looked at)).2

  -- After that reading, with `errno` set.
  abbrev pub given_up : Signals × W → Signals × W
  given_up at = let ended = (clock (looked at)).2 in (record ended.0 { errno = eagain }, ended.1)

  -- How a wait ends: at its last look at the queue it takes a signal off it, writes its
  -- information, and returns the value that the result variable happened to hold; or it finds none,
  -- reads a time at which nothing of the timeout is left, and returns -1 with `EAGAIN`.
  pub data Ending (timeout start : Timespec) (st : Signals × W) (r : Waited W) : Type 0 where
    taken :
        (info : Siginfo) (at : Signals × W)
        → Looks timeout start st at
        → (signal_dequeue wild_shift set at.0).0 ≡ some info
        → r.info ≡ some info
        → r.ret ≡ junk
        → r.state ≡ looked at
        → Ending timeout start st r
    expired :
        (at : Signals × W)
        → Looks timeout start st at
        → (signal_dequeue wild_shift set at.0).0 ≡ none
        → time_left timeout start (looked at) ≤ℤ pos 0
        → r.info ≡ none
        → r.ret ≡ minus_one
        → r.state ≡ given_up at
        → Ending timeout start st r

  wait-Ending :
      (rounds : ℕ) (timeout start : Timespec) (st : Signals × W) (s : Signals) (w : W)
      (r : Waited W)
      → Looks timeout start st (s, w)
      → wait_from wild_shift junk clock rounds set timeout start (s, w) ≡ some r
      → Ending timeout start st r
  unfolding wait_from
  wait-Ending zero timeout start st s w r k e = absurd (cc)
  wait-Ending (suc rounds) timeout start st s w r k e =
      elim (Option-cases (signal_dequeue wild_shift set s).0) [
        | inr (info, found) ↦
            let (a, b, c) : (r.info ≡ some info) × (r.ret ≡ junk) × (r.state ≡ looked (s, w)) =
              ground (arith, e, found) in
            taken info (s, w) k found a b c
        | inl empty ↦
            let tick = clock (looked (s, w)) in
            elim (Bool-cases (leb_ℤ (timespec_diff timeout (diff_of tick.1 start)) (pos 0))) [
              | inl late ↦
                  let (a, b, c) : (r.info ≡ none)
                      × (r.ret ≡ minus_one)
                      × (r.state ≡ (record tick.2.0 { errno = eagain }, tick.2.1)) =
                    ground (arith, e, empty, late) in
                  expired (s, w) k empty (ground (arith, late)) a b c
              | inr early ↦
                  wait-Ending rounds timeout start st tick.2.0 tick.2.1 r
                    (again k empty (ground (arith, early))) (ground (arith, e, empty, early))
            ]
      ]

  -- If `sigtimedwait` ends, then at its last look at the queue it took a signal of the set off it,
  -- wrote its information and returns what its result variable held before, to which the code
  -- assigns nothing; or it found none, read a time at which nothing of the timeout was left, and
  -- returns -1 with `EAGAIN`. At each look before, it found none, and some of the timeout was left.
  -- The state after it is that of the last look, or of the last reading with `errno` set.
  pub sigtimedwait-Ending :
      (rounds : ℕ) (timeout : Timespec) (st : Signals × W) (r : Waited W)
      → sigtimedwait wild_shift junk clock rounds set timeout st ≡ some r
      → Ending timeout (clock st).1 (clock st).2 r
  unfolding sigtimedwait
  sigtimedwait-Ending rounds timeout st r e =
      wait-Ending rounds timeout (clock st).1 (clock st).2 (clock st).2.0 (clock st).2.1 r here e

  -- `sigwaitinfo` does not give up, as long as the time since its start is normal and not
  -- negative: if it ends, it has written the information of a signal that it took off the queue.
  pub sigwaitinfo_forever :
      (rounds : ℕ) (st : Signals × W) (r : Waited W)
      → ((at : Signals × W)
          → IsNormal (diff_of (clock at).1 (clock st).1)
            × (pos 0 ≤ℤ (diff_of (clock at).1 (clock st).1).sec))
      → sigwaitinfo wild_shift junk clock rounds set st ≡ some r
      → (info : Siginfo) × (at : Signals × W) × (r.info ≡ some info)
        × ((signal_dequeue wild_shift set at.0).0 ≡ some info)
        × (r.state ≡ looked at)
  unfolding sigwaitinfo
  sigwaitinfo_forever rounds st r good e =
      by_ending (sigtimedwait-Ending rounds timespec_infinity st r e)
    where
      by_ending :
          Ending timespec_infinity (clock st).1 (clock st).2 r
          → (info : Siginfo) × (at : Signals × W) × (r.info ≡ some info)
            × ((signal_dequeue wild_shift set at.0).0 ≡ some info)
            × (r.state ≡ looked at)
      by_ending (taken info at k found a b c) = (info, at, a, found, c)
      by_ending (expired at k empty late a b c) =
          let (normal, since) = good (looked at) in
          let ahead =
            (timespec_infinity_ahead (diff_of (clock (looked at)).1 (clock st).1) normal since).1 in
          absurd (omega (arith, ahead, late))
