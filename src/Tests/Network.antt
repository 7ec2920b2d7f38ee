-- ===== src/Tests/Network.antt =====
-- A network on which some messages are still to come, each of them the same, and a clock that stands.
use nucleo_tests.Base.{ℕ, zero, suc, List, length}
use nucleo_tests.Base.Int.{ℤ, pos, minus_one}
use nucleo_tests.Timespec.{Timespec}
use nucleo_tests.Socket.{Net}

abbrev pub received : List ℕ → ℕ → ℤ × List ℕ × ℕ
received msg zero = (minus_one, msg, zero)
received msg (suc left) = (pos (length msg), msg, left)

abbrev pub answering : List ℕ → Timespec → Net ℕ
answering msg now = record {
  socket = λ w. (pos 0, w);
  setsockopt = λ sock opt w. (pos 0, w);
  bind = λ sock addr port w. (pos 0, w);
  connect = λ sock addr port w. (pos 0, w);
  close = λ sock w. w;
  send = λ sock sent w. (pos (length sent), w);
  sendto = λ sock sent addr port w. (pos (length sent), w);
  recv = λ sock size w. received msg w;
  clock_realtime = λ w. (now, w);
  clock_settime = λ t w. (pos 0, w);
  rand = λ w. (0, w);
}
