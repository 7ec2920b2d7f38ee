-- ===== src/Socket.antt =====
-- The socket calls of include/sys/socket.h, as the network clients use them. `W` is the state of the
-- network. What a receiving call writes is the buffer after it; `recvfrom` is `recv` where the
-- sender's address is not looked at.
use nucleo_tests.Base.{ℕ, List}
use nucleo_tests.Base.Int.{ℤ}
use nucleo_tests.Timespec.{Timespec, Timeval}

-- The options that the clients set, with their values.
pub data SockOpt : Type 0 where
  so_rcvtimeo so_sndtimeo : Timeval → SockOpt
  so_broadcast : ℤ → SockOpt

-- Addresses and ports are in network order, as they lie in a `sockaddr_in`.
pub record Net (W : Type 0) : Type 0 where
  pub socket : W → ℤ × W
  pub setsockopt : ℤ → SockOpt → W → ℤ × W
  pub bind : ℤ → ℕ → ℕ → W → ℤ × W
  pub connect : ℤ → ℕ → ℕ → W → ℤ × W
  pub close : ℤ → W → W
  pub send : ℤ → List ℕ → W → ℤ × W
  pub sendto : ℤ → List ℕ → ℕ → ℕ → W → ℤ × W
  pub recv : ℤ → ℕ → W → ℤ × List ℕ × W
  pub clock_realtime : W → Timespec × W
  pub clock_settime : Timespec → W → ℤ × W
  pub rand : W → ℕ × W
