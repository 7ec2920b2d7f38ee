-- ===== src/W5100/Calls.antt =====
-- The calls of src/w5100_socket.c with their arguments, and programs of them.
pub mod Life
pub mod Errors
pub mod Lost
use nucleo_tests.Base.{ℕ, Bool, Option, List, [], ◌∷◌}
use nucleo_tests.Base.Run.{Run, done, ◌>>=◌}
use nucleo_tests.Base.Int.{ℤ}
use nucleo_tests.W5100.State.{SockAddr, Layer, Driver}
use nucleo_tests.W5100.Open.{socket, w5100_sock_close}
use nucleo_tests.W5100.Connect.{connect, bind, listen, accept}
use nucleo_tests.W5100.Transfer.{recvfrom}
use nucleo_tests.W5100.Send.{send, sendto}
use nucleo_tests.W5100.Query.{
  w5100_sock_poll, SetOption, setsockopt, GetOption, getsockopt, getsockname, getpeername,
}

pub data Call : Type 0 where
  a_socket : ℕ → ℕ → ℕ → Call
  a_close a_poll : ℤ → Call
  a_connect a_bind : ℤ → SockAddr → Call
  a_listen : ℤ → ℤ → Call
  an_accept : ℤ → Bool → Bool → Call
  a_recvfrom : ℤ → ℕ → Bool → Call
  a_send : ℤ → List ℕ → Call
  a_sendto : ℤ → List ℕ → Option SockAddr → Call
  a_setsockopt : ℤ → ℕ → SetOption → Call
  a_getsockopt : ℤ → ℕ → GetOption → Call
  a_getsockname a_getpeername : ℤ → Bool → Option ℤ → Call

module _ {W : Type 0} (drv : Driver W) (rounds : ℕ) where
  abbrev rest : {A : Type 0} → A × Layer W → Run (Layer W)
  rest (ret, t) = done t

  -- The state after a call.
  unfoldable pub run_call : Call → Layer W → Run (Layer W)
  run_call (a_socket domain type protocol) t = rest (socket drv domain type protocol t)
  run_call (a_close fd) t = w5100_sock_close drv rounds fd t >>= rest
  run_call (a_poll fd) t = w5100_sock_poll drv fd t >>= rest
  run_call (a_connect fd addr) t = connect drv rounds fd addr t >>= rest
  run_call (a_bind fd addr) t = bind drv rounds fd addr t >>= rest
  run_call (a_listen fd backlog) t = listen drv rounds fd backlog t >>= rest
  run_call (an_accept fd wants_addr wants_len) t =
      accept drv rounds fd wants_addr wants_len t >>= rest
  run_call (a_recvfrom fd len wants) t = recvfrom drv rounds fd len wants t >>= rest
  run_call (a_send fd buf) t = send drv rounds fd buf t >>= rest
  run_call (a_sendto fd buf dest) t = sendto drv rounds fd buf dest t >>= rest
  run_call (a_setsockopt fd level opt) t = setsockopt drv fd level opt t >>= rest
  run_call (a_getsockopt fd level opt) t = getsockopt drv fd level opt t >>= rest
  run_call (a_getsockname fd has_address len) t = getsockname drv fd has_address len t >>= rest
  run_call (a_getpeername fd has_address len) t = getpeername drv fd has_address len t >>= rest

  unfoldable pub run_calls : List Call → Layer W → Run (Layer W)
  run_calls [] t = done t
  run_calls (c ∷ cs) t = run_call c t >>= run_calls cs
