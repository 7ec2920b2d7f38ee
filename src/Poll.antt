-- ===== src/Poll.antt =====
-- src/poll.c: one pass over the polled descriptors, and the wait loop around it.
-- `W` is the state outside the file table: the drivers, `errno` and the clock. No poll handler of
-- the layer writes the table. A handler is called by its address; `clock` is
-- `clock_gettime(CLOCK_MONOTONIC, _)`, which is one of two implementations chosen at link time.
pub mod Events
pub mod Count
pub mod Wait
use nucleo_tests.Base.{
  ℕ, zero, suc, ◌+◌, ◌*◌, Bool, true, false, Option, none, some, List, [], ◌∷◌, bit_and, bit_or,
  ◌==◌, if◌then◌else◌, get_or,
}
use nucleo_tests.Base.Int.{
  ℤ, pos, negsuc, ◌+ℤ◌, ◌-ℤ◌, ◌*ℤ◌, leb_ℤ, ltb_ℤ, eqb_ℤ, i32, div_ℤ, minus_one,
}
use nucleo_tests.File.{Files, Fd, zero_fd, file_struct_get}
use nucleo_tests.Timespec.{Timespec, timespec_add, timespec_diff, timespec_infinity, msecs_in_sec}

-- The masks are bit patterns; `revents` is written only where it is not negative.
pub record Pollfd : Type 0 where
  pub fd : ℤ
  pub events : ℕ
  pub revents : ℕ

abbrev pub pollin : ℕ
pollin = 0x0001

abbrev pub pollrdnorm : ℕ
pollrdnorm = 0x0002

abbrev pub pollrdband : ℕ
pollrdband = 0x0004

abbrev pub pollpri : ℕ
pollpri = 0x0008

abbrev pub pollout : ℕ
pollout = 0x0010

abbrev pub pollwrnorm : ℕ
pollwrnorm = pollout

abbrev pub pollwrband : ℕ
pollwrband = 0x0040

abbrev pub pollerr : ℕ
pollerr = 0x0080

abbrev pub pollhup : ℕ
pollhup = 0x0100

abbrev pub pollnval : ℕ
pollnval = 0x0200

-- `POLLHUP|POLLERR|POLLNVAL`, which are reported whether asked for or not.
abbrev pub always_reported : ℕ
always_reported = bit_or (bit_or pollhup pollerr) pollnval

-- `*file_struct_get(fd)` for a descriptor that is not negative: the index lies in the array.
abbrev pub file_at : Files → ℤ → Fd
file_at files (pos i) = get_or files i zero_fd
file_at files (negsuc _) = zero_fd

abbrev pub Handlers : Type 0 → Type 0
Handlers W = ℕ → ℤ → W → ℤ × W

abbrev pub Clock : Type 0 → Type 0
Clock W = W → ℤ × Timespec × W

-- The end of `poll_one`: the report is masked and stored, unless it is negative.
unfoldable pub store_revents : Pollfd → ℤ → ℤ × Pollfd
store_revents p (negsuc n) = (negsuc n, p)
store_revents p (pos revents) =
    let masked = bit_and revents (bit_or p.events always_reported) in
    (pos masked, record p { revents = masked })

-- `timeout` in milliseconds as a `struct timespec`.
unfoldable pub timeout_ts : ℤ → Timespec
timeout_ts timeout =
    let sec = div_ℤ timeout msecs_in_sec in
    record { sec = sec; nsec = i32 (i32 (timeout -ℤ i32 (sec *ℤ pos 1000)) *ℤ pos 1000000) }

module _ {W : Type 0} (files : Files) (handlers : Handlers W) where
  -- What the descriptor itself reports.
  unfoldable pub report : ℤ → W → ℤ × W
  report fd w = if ltb_ℤ fd (pos 0) then (pos 0, w) else elim (file_struct_get fd) [
    | none ↦ (pos pollnval, w)
    | some i ↦
        let f = file_at files i in
        if f.poll == 0
        then (pos pollnval, w)
        else (let (revents, w') = handlers f.poll fd w in
            (if eqb_ℤ revents minus_one then pos pollnval else revents, w'))
  ]

  unfoldable pub poll_one : Pollfd → W → ℤ × Pollfd × W
  unfolding store_revents
  poll_one p w =
      let (revents, w') = report p.fd w in let (r, p') = store_revents p revents in (r, p', w')

  -- The loop of `poll_tentative` from some entry on, with the files found ready before it.
  unfoldable pub poll_from : ℤ → List Pollfd → W → ℤ × List Pollfd × W
  poll_from nfiles_ready [] w = (nfiles_ready, [], w)
  poll_from nfiles_ready (p ∷ fds) w =
      let (revents, p', w') = poll_one p w in
      let stop : ℤ × List Pollfd × W = (minus_one, p' ∷ fds, w') in
      let next : ℤ × List Pollfd × W =
        poll_from (if ltb_ℤ (pos 0) revents then i32 (nfiles_ready +ℤ pos 1) else nfiles_ready) fds
          w' in
      if eqb_ℤ revents minus_one then stop else (next.0, p' ∷ next.1, next.2)

  unfoldable pub poll_tentative : List Pollfd → W → ℤ × List Pollfd × W
  unfolding poll_from
  poll_tentative fds w = poll_from (pos 0) fds w

  module _ (clock : Clock W) where
    -- The wait loop up to `tend`; `none` when the rounds given do not suffice.
    unfoldable pub poll_until : ℕ → Timespec → List Pollfd → W → Option (ℤ × List Pollfd × W)
    poll_until zero tend fds w = none
    poll_until (suc rounds) tend fds w =
        let (ret, tcurrent, w1) = clock w in
        let (ready, fds', w2) = poll_tentative fds w1 in
        let again = poll_until rounds tend fds' w2 in
        if eqb_ℤ ret (pos 0)
        then (if eqb_ℤ ready (pos 0)
            then (if leb_ℤ (pos 0) (timespec_diff tcurrent tend)
                then some (ready, fds', w2)
                else again)
            else some (ready, fds', w2))
        else some (ret, fds, w1)

    -- A failing clock is not looked at when the end is computed.
    unfoldable pub poll : ℕ → List Pollfd → ℤ → W → Option (ℤ × List Pollfd × W)
    poll rounds fds timeout w =
        if eqb_ℤ timeout (pos 0)
        then some (poll_tentative fds w)
        else (if eqb_ℤ timeout minus_one
            then poll_until rounds timespec_infinity fds w
            else (let (_, tcurrent, w') = clock w in
                poll_until rounds (timespec_add tcurrent (timeout_ts timeout)) fds w'))
