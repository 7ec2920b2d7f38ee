-- ===== src/Select.antt =====
-- src/select.c and include/sys/select.h: sets of descriptors, and `pselect` over `poll`.
-- A set pointer is an option, `none` for NULL; the sets of one call do not overlap (`restrict`).
pub mod FdSet
pub mod One
pub mod Retry
use nucleo_tests.Base.{
  ℕ, zero, suc, ◌+◌, ◌*◌, ◌/◌, ◌%◌, ◌^◌, Bool, true, false, not, ◌&&◌, ◌||◌, Option, none, some,
  List, [], ◌∷◌, bit_and, bit_or, ◌==◌, ltb, if◌then◌else◌, get_or, set,
}
use nucleo_tests.Base.Bits.{complement}
use nucleo_tests.Base.Run.{Run, done, fault, more}
use nucleo_tests.Base.Int.{ℤ, pos, negsuc, ◌+ℤ◌, leb_ℤ, eqb_ℤ, i32, minus_one}
use nucleo_tests.File.{Files, open_max}
use nucleo_tests.Timespec.{
  Timespec, Timeval, timespec_add, timespec_diff, timespec_infinity, timeval_to_timespec,
}
use nucleo_tests.Poll.{
  Pollfd, Handlers, Clock, poll_tentative, pollin, pollrdnorm, pollrdband, pollpri, pollout,
  pollwrnorm, pollwrband, pollerr, pollhup, pollnval,
}

abbrev pub fd_setsize : ℕ
fd_setsize = open_max

-- The words of `fd_set`: `(FD_SETSIZE + 31) / 32` of them.
abbrev pub FdSet : Type 0
FdSet = List ℕ

abbrev pub set_words : ℕ
set_words = (fd_setsize + 31) / 32

-- `fd / (8 * sizeof(mask[0]))`
abbrev pub get_fd_set_mask_idx : ℕ → ℕ
get_fd_set_mask_idx fd = fd / 32

-- `1UL << (fd & 31)`
abbrev pub get_fd_set_mask_bitmask : ℕ → ℕ
get_fd_set_mask_bitmask fd = 2 ^ (fd % 32)

-- The words of a set with the mask of a descriptor taken out, put in, and looked up.
unfoldable pub clear_bit : ℕ → FdSet → FdSet
clear_bit fd s =
    let i = get_fd_set_mask_idx fd in
    set s i (bit_and (get_or s i 0) (complement 32 (get_fd_set_mask_bitmask fd)))

unfoldable pub set_bit : ℕ → FdSet → FdSet
set_bit fd s =
    let i = get_fd_set_mask_idx fd in set s i (bit_or (get_or s i 0) (get_fd_set_mask_bitmask fd))

unfoldable pub get_bit : ℕ → FdSet → Bool
get_bit fd s = not (bit_and (get_or s (get_fd_set_mask_idx fd) 0) (get_fd_set_mask_bitmask fd) == 0)

-- `FD_CLR`, `FD_SET`, `FD_ISSET` and `FD_ZERO`, with their guards.
unfoldable pub fd_clr : ℤ → Option FdSet → Option FdSet
fd_clr (pos fd) (some s) = some (if ltb fd fd_setsize then clear_bit fd s else s)
fd_clr (negsuc _) (some s) = some s
fd_clr _ none = none

unfoldable pub fd_set : ℤ → Option FdSet → Option FdSet
fd_set (pos fd) (some s) = some (if ltb fd fd_setsize then set_bit fd s else s)
fd_set (negsuc _) (some s) = some s
fd_set _ none = none

unfoldable pub fd_isset : ℤ → Option FdSet → Bool
fd_isset (pos fd) (some s) = ltb fd fd_setsize && get_bit fd s
fd_isset (negsuc _) (some s) = false
fd_isset _ none = false

unfoldable pub fd_zero : Option FdSet → Option FdSet
fd_zero (some s) = some (0 ∷ [])
fd_zero none = none

-- The three sets of a call.
pub record Sets : Type 0 where
  pub readfds : Option FdSet
  pub writefds : Option FdSet
  pub errorfds : Option FdSet

abbrev pub in_any : ℤ → Sets → Bool
in_any fd s = fd_isset fd s.readfds || fd_isset fd s.writefds || fd_isset fd s.errorfds

abbrev pub all_events : ℕ
all_events = 0x03df

abbrev pub read_events : ℕ
read_events = bit_or (bit_or (bit_or pollin pollrdnorm) pollerr) pollhup

abbrev pub write_events : ℕ
write_events = bit_or (bit_or (bit_or pollout pollwrnorm) pollerr) pollhup

abbrev pub error_events : ℕ
error_events = bit_or (bit_or pollrdband pollwrband) pollpri

-- The descriptor is dropped from the sets whose events it does not report.
unfoldable pub keep_reported : ℤ → ℕ → Sets → Sets
keep_reported fd revents s = record {
  readfds = if bit_and revents read_events == 0 then fd_clr fd s.readfds else s.readfds;
  writefds = if bit_and revents write_events == 0 then fd_clr fd s.writefds else s.writefds;
  errorfds = if bit_and revents error_events == 0 then fd_clr fd s.errorfds else s.errorfds;
}

-- `p.revents` after the poll of one descriptor.
abbrev pub first_revents : List Pollfd → ℕ
first_revents [] = 0
first_revents (p ∷ _) = p.revents

-- The sets are copied through their pointers, so a NULL is read.
abbrev pub is_given : Option FdSet → Bool
is_given (some _) = true
is_given none = false

abbrev pub all_given : Sets → Bool
all_given s = is_given s.readfds && is_given s.writefds && is_given s.errorfds

-- The end of the wait: a failing clock is not looked at here.
unfoldable pub end_of : {W : Type 0} → Clock W → Option Timespec → W → Timespec × W
end_of clock none w = (timespec_infinity, w)
end_of clock (some t) w = let (_, now, w') = clock w in (timespec_add now t, w')

-- `junk` is what `p.revents` holds before the poll writes it, and `ebadf` sets `errno` to `EBADF`.
module _ {W : Type 0} (files : Files) (handlers : Handlers W) (junk : ℕ) (ebadf : W → W) where
  unfoldable pub pselect_one : ℤ → Sets → W → ℤ × Sets × W
  pselect_one fd s w =
      if in_any fd s
      then (let p : Pollfd = record { fd = fd; events = all_events; revents = junk } in
          let (pollret, ps, w') = poll_tentative files handlers (p ∷ []) w in
          let revents = first_revents ps in
          if eqb_ℤ pollret minus_one || not (bit_and revents pollnval == 0)
          then (minus_one, s, ebadf w')
          else (let s' = keep_reported fd revents s in
              (if in_any fd s' then pos 1 else pos 0, s', w')))
      else (pos 0, s, w)

  -- The loop of `pselect_tentative`, with the rounds left, the next descriptor and the sum so far.
  unfoldable pub tentative_from : ℕ → ℕ → ℤ → Sets → W → ℤ × Sets × W
  tentative_from zero fd ret s w = (ret, s, w)
  tentative_from (suc rounds) fd ret s w =
      let (ret_one, s', w') = pselect_one (pos fd) s w in
      let next = tentative_from rounds (fd + 1) (i32 (ret +ℤ ret_one)) s' w' in
      if eqb_ℤ ret_one minus_one then (minus_one, s', w') else next

  unfoldable pub pselect_tentative : ℤ → Sets → W → ℤ × Sets × W
  unfolding tentative_from
  pselect_tentative (pos nfds) s w = tentative_from nfds 0 (pos 0) s w
  pselect_tentative (negsuc _) s w = (pos 0, s, w)

  module _ (clock : Clock W) where
    -- The loop of `pselect`; `saved` are the sets that every round but the last puts back.
    unfoldable pub pselect_until : ℕ → ℤ → Timespec → Sets → Sets → W → Run (ℤ × Sets × W)
    pselect_until zero nfds tend saved s w = more
    pselect_until (suc rounds) nfds tend saved s w =
        let (ret, tcurrent, w1) = clock w in
        let (ready, s', w2) = pselect_tentative nfds s w1 in
        let again = pselect_until rounds nfds tend saved saved w2 in
        if eqb_ℤ ret (pos 0)
        then (if eqb_ℤ ready (pos 0)
            then (if leb_ℤ (pos 0) (timespec_diff tcurrent tend)
                then done (ready, s', w2)
                else again)
            else done (ready, s', w2))
        else done (ret, s, w1)

    unfoldable pub pselect : ℕ → ℤ → Sets → Option Timespec → W → Run (ℤ × Sets × W)
    pselect rounds nfds s timeout w =
        let (tend, w') = end_of clock timeout w in
        if all_given s then pselect_until rounds nfds tend s s w' else fault

    -- `select` converts `*timeout` whether there is one or not.
    unfoldable pub select : ℕ → ℤ → Sets → Option Timeval → W → Run (ℤ × Sets × W)
    unfolding pselect
    select rounds nfds s none w = fault
    select rounds nfds s (some timeout) w =
        pselect rounds nfds s (some (timeval_to_timespec timeout)) w
