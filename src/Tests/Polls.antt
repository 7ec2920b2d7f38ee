-- ===== src/Tests/Polls.antt =====
-- One descriptor that a handler reports ready, under a clock that stands at ten seconds.
use nucleo_tests.Base.{◌≡◌, refl, arith, length, List, [], ◌∷◌, replicate, set}
use nucleo_tests.Base.Int.{pos, minus_one, i32, ◌+ℤ◌}
use nucleo_tests.File.{Files, zero_fd, fresh_fd, file_struct_get}
use nucleo_tests.Poll.{Pollfd, Handlers, Clock, poll_tentative, poll_one, report}
use nucleo_tests.Poll.Count.{ready, poll_tentative_counts}

abbrev files : Files
files = set (replicate 20 zero_fd) 3 (record (fresh_fd 3) { poll = 1 })

abbrev handlers : Handlers (Unit {0})
handlers a fd w = (pos 0x11, w)

abbrev clock : Clock (Unit {0})
clock w = (pos 0, record { sec = pos 10; nsec = pos 0 }, w)

abbrev asked : Pollfd
asked = record { fd = pos 3; events = 0x01; revents = 0 }

abbrev fds : List Pollfd
fds = asked ∷ record asked { fd = pos 25 } ∷ record asked { fd = minus_one } ∷ []

two_ready : (poll_tentative files handlers fds tt).0 ≡ pos 2
unfolding poll_tentative poll_one report i32 ◌+ℤ◌ file_struct_get
two_ready = refl

poll_tentative_counts_example :
    let (r, fds', _) = poll_tentative files handlers fds tt in
    (r ≡ pos (ready fds')) × (length fds' ≡ 3)
poll_tentative_counts_example =
    poll_tentative_counts files handlers (λ a fd w. omega arith) fds tt (omega arith)
