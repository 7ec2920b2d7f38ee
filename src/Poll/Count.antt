-- ===== src/Poll/Count.antt =====
-- The value that one pass returns.
use nucleo_tests.Base.{
  ℕ, ◌+◌, ◌≤◌, ◌≡◌, ◌∙◌, ap, refl, arith, List, [], ◌∷◌, length, ltb, if◌then◌else◌,
}
use nucleo_tests.Base.Int.{pos, ◌+ℤ◌, i32, i32-FitsInt, eqb_ℤ-minus_one, ltb_ℤ}
use nucleo_tests.File.{Files}
use nucleo_tests.Timespec.{int_max}
use nucleo_tests.Poll.{Pollfd, Handlers, poll_one, poll_from, poll_tentative}
use nucleo_tests.Poll.Events.{Masks, poll_one_events}

-- How many entries have something in `revents`.
abbrev pub ready : List Pollfd → ℕ
ready [] = 0
ready (p ∷ fds) = (if ltb 0 p.revents then 1 else 0) + ready fds

module _ {W : Type 0} (files : Files) (handlers : Handlers W) (c : Masks handlers) where
  one_more :
      (n m : ℕ)
      → n + 1 ≤ int_max
      → (if ltb_ℤ (pos 0) (pos m) then i32 (pos n +ℤ pos 1) else pos n)
        ≡ pos (n + (if ltb 0 m then 1 else 0))
  unfolding ◌+ℤ◌
  one_more n m h = ground (arith, i32-FitsInt (pos (n + 1)))

  poll_from_counts :
      (n : ℕ) (fds : List Pollfd) (w : W)
      → n + length fds ≤ int_max
      → let (r, fds', _) = poll_from files handlers (pos n) fds w in
        (r ≡ pos (n + ready fds')) × (length fds' ≡ length fds)
  unfolding poll_from
  poll_from_counts n [] w h = (ap pos (omega arith), refl)
  poll_from_counts n (p ∷ fds) w h =
      let (r, p', w') = poll_one files handlers p w in
      let e = (poll_one_events files handlers c p w).0 in
      let n' : ℕ = n + (if ltb 0 p'.revents then 1 else 0) in
      let (ih, len) = poll_from_counts n' fds w' (ground arith) in
      rw (e, eqb_ℤ-minus_one p'.revents, one_more n p'.revents (omega arith))
        (rw ih (ap pos (omega arith)), omega (arith, len))

  -- With handlers that return a mask or -1 and at most `INT_MAX` entries, `poll_tentative` returns
  -- the number of entries that it leaves with something in `revents`, and never -1.
  pub poll_tentative_counts :
      (fds : List Pollfd) (w : W)
      → length fds ≤ int_max
      → let (r, fds', _) = poll_tentative files handlers fds w in
        (r ≡ pos (ready fds')) × (length fds' ≡ length fds)
  unfolding poll_tentative
  poll_tentative_counts fds w h =
      let (e, len) = poll_from_counts 0 fds w (omega arith) in (e ∙ ap pos (omega arith), len)
