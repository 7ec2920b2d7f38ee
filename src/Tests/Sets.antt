-- ===== src/Tests/Sets.antt =====
-- Descriptor sets, and `pselect` on a set of one descriptor.
use nucleo_tests.Base.{
  ℕ, ◌≡◌, ◌⊎◌, refl, arith, List, [], ◌∷◌, replicate, set, some, none, Option, true, false, not,
  ◌&&◌, ◌||◌, ◌==◌,
}
use nucleo_tests.Base.Int.{pos, i32, ◌+ℤ◌}
use nucleo_tests.File.{Files, zero_fd, fresh_fd, file_struct_get}
use nucleo_tests.Poll.{Handlers, Clock, poll_tentative, poll_one}
use nucleo_tests.Select.{
  Sets, fd_clr, fd_isset, get_bit, clear_bit, pselect_tentative, pselect_one, keep_reported,
}

abbrev files : Files
files = set (replicate 20 zero_fd) 3 (record (fresh_fd 3) { poll = 1 })

abbrev handlers : Handlers (Unit {0})
handlers a fd w = (pos 0x01, w)

abbrev sets : Sets
sets = record { readfds = some (0x08 ∷ []); writefds = some (0x08 ∷ []); errorfds = some (0 ∷ []) }

-- Descriptor 3 is readable and not writable.
abbrev after : Sets
after = record { readfds = some (0x08 ∷ []); writefds = some (0 ∷ []); errorfds = some (0 ∷ []) }

keep : Unit {0} → Unit {0}
keep w = w

one_readable : pselect_tentative files handlers 0 keep (pos 5) sets tt ≡ (pos 1, after, tt)
unfolding pselect_tentative pselect_one poll_tentative poll_one fd_isset fd_clr get_bit clear_bit
    keep_reported i32 ◌+ℤ◌ file_struct_get nucleo_tests.Base.Bits.complement
    nucleo_tests.Poll.report
one_readable = refl
