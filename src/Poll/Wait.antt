-- ===== src/Poll/Wait.antt =====
-- The wait loop: when it ends, and with what.
use nucleo_tests.Base.{ℕ, zero, suc, ◌<◌, ◌≡◌, ◌≢◌, arith, List, some, Bool-cases, inl, inr, false}
use nucleo_tests.Base.Int.{ℤ, pos, minus_one, ◌≤ℤ◌, eqb_ℤ, leb_ℤ, eqb_ℤ_iff}
use nucleo_tests.File.{Files}
use nucleo_tests.Timespec.{Timespec, timespec_diff, timespec_infinity, IsNormal}
use nucleo_tests.Timespec.Order.{timespec_infinity_ahead}
use nucleo_tests.Poll.{Pollfd, Handlers, Clock, poll_tentative, poll_until, poll}

-- A clock that, where it succeeds, reads a normal time from its epoch on.
abbrev pub Reads : {W : Type 0} → Clock W → Type 0
Reads {W} clock = (w : W) → (clock w).0 ≡ pos 0 → IsNormal (clock w).1 × (pos 0 ≤ℤ (clock w).1.sec)

module _ {W : Type 0} (files : Files) (handlers : Handlers W) (clock : Clock W) where
  -- A wait that returns 0 has read the clock at its end or after it.
  pub poll_until_expired :
      (rounds : ℕ) (tend : Timespec) (fds : List Pollfd) (w : W) {out : ℤ × List Pollfd × W}
      → poll_until files handlers clock rounds tend fds w ≡ some out
      → out.0 ≡ pos 0
      → (u : W) × ((clock u).0 ≡ pos 0) × (pos 0 ≤ℤ timespec_diff (clock u).1 tend)
  unfolding poll_until
  poll_until_expired zero tend fds w e z = absurd (cc)
  poll_until_expired (suc rounds) tend fds w e z = elim (Bool-cases (eqb_ℤ (clock w).0 (pos 0))) [
    | inr bad ↦ absurd (ground (arith, e, z, bad, eqb_ℤ_iff (clock w).0 (pos 0)))
    | inl good ↦
        let ready = (poll_tentative files handlers fds (clock w).2).0 in
        elim (Bool-cases (eqb_ℤ ready (pos 0))) [
          | inr some_ready ↦
              absurd (ground (arith, e, z, good, some_ready, eqb_ℤ_iff ready (pos 0)))
          | inl none_ready ↦ elim (Bool-cases (leb_ℤ (pos 0) (timespec_diff (clock w).1 tend))) [
            | inl expired ↦ (w, (eqb_ℤ_iff (clock w).0 (pos 0)).0 good, ground (arith, expired))
            | inr early ↦
                poll_until_expired rounds tend (poll_tentative files handlers fds (clock w).2).1
                  (poll_tentative files handlers fds (clock w).2).2
                  (rw (good, none_ready, early) at e) z
          ]
        ]
  ]

  -- With a clock that reads normal times from its epoch on, `poll` with the timeout -1 does not
  -- give up: whatever the rounds, it never returns 0.
  pub poll_forever :
      Reads clock
      → (rounds : ℕ) (fds : List Pollfd) (w : W) {out : ℤ × List Pollfd × W}
      → poll files handlers clock rounds fds minus_one w ≡ some out
      → out.0 ≢ pos 0
  unfolding poll
  poll_forever c rounds fds w e z =
      let (u, good, expired) = poll_until_expired rounds timespec_infinity fds w e z in
      let (normal, late) = c u good in
      absurd (omega (arith, (timespec_infinity_ahead (clock u).1 normal late).0))

  -- What is left of the wait until `tend`, by some measure, shrinks with each round that neither
  -- ends the wait nor fails.
  abbrev pub Nears : Timespec → (W → ℕ) → Type 0
  Nears tend left =
      (w : W) (fds : List Pollfd)
      → (clock w).0 ≡ pos 0
      → leb_ℤ (pos 0) (timespec_diff (clock w).1 tend) ≡ false
      → left (poll_tentative files handlers fds (clock w).2).2 < left w

  -- Where the clock nears the end of the wait, the wait loop ends within as many rounds as the
  -- measure says, and one more.
  pub poll_until_ends :
      (tend : Timespec) (left : W → ℕ)
      → Nears tend left
      → (rounds : ℕ) (fds : List Pollfd) (w : W) → left w < rounds
      → (out : ℤ × List Pollfd × W) × (poll_until files handlers clock rounds tend fds w ≡ some out)
  unfolding poll_until
  poll_until_ends tend left n zero fds w h = absurd (omega arith)
  poll_until_ends tend left n (suc rounds) fds w h = elim (Bool-cases (eqb_ℤ (clock w).0 (pos 0))) [
    | inr bad ↦ (((clock w).0, fds, (clock w).2), rw bad)
    | inl good ↦
        let pass = poll_tentative files handlers fds (clock w).2 in
        elim (Bool-cases (eqb_ℤ pass.0 (pos 0))) [
          | inr some_ready ↦ (pass, rw (good, some_ready))
          | inl none_ready ↦ elim (Bool-cases (leb_ℤ (pos 0) (timespec_diff (clock w).1 tend))) [
            | inl expired ↦ (pass, rw (good, none_ready, expired))
            | inr early ↦
                let nearer = n w fds ((eqb_ℤ_iff (clock w).0 (pos 0)).0 good) early in
                let (out, e) = poll_until_ends tend left n rounds pass.1 pass.2 (omega arith) in
                (out, rw (good, none_ready, early) e)
          ]
        ]
  ]
