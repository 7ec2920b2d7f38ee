-- ===== src/W5100/Calls/Life.antt =====
-- The life of the chip's sockets under any calls.
use nucleo_tests.Base.{ℕ, List, [], ◌∷◌, All}
use nucleo_tests.Base.Run.{Post, Post->>=, ◌>>=◌}
use nucleo_tests.W5100.State.{Layer, Driver}
use nucleo_tests.W5100.State.Moves.{IsSound, Follows, All-Follows, Moved}
use nucleo_tests.W5100.Open.Kept.{socket-Moved, w5100_sock_close-Moved}
use nucleo_tests.W5100.Connect.Kept.{connect-Moved, bind-Moved, listen-Moved, accept-Moved}
use nucleo_tests.W5100.Transfer.Kept.{recvfrom-Moved}
use nucleo_tests.W5100.Send.Kept.{send-Moved, sendto-Moved}
use nucleo_tests.W5100.Query.{w5100_socket_init}
use nucleo_tests.W5100.Query.Kept.{
  w5100_sock_poll-Moved, setsockopt-Moved, getsockopt-Moved, getsockname-Moved, getpeername-Moved,
  w5100_socket_init-IsSound,
}
use nucleo_tests.W5100.Calls.{
  Call, a_socket, a_close, a_poll, a_connect, a_bind, a_listen, an_accept, a_recvfrom, a_send,
  a_sendto, a_setsockopt, a_getsockopt, a_getsockname, a_getpeername, run_call, run_calls,
}

module _ {W : Type 0} (drv : Driver W) (rounds : ℕ) where
  -- From a sound table every call of the socket layer that returns leaves a sound one, in which each
  -- socket is in the state that it was in, or closed, or in a state that may follow: created after
  -- none, connected or bound after created, listening after bound, accepted after listening,
  -- listening again or disconnected after accepted, and disconnected after connected.
  pub run_call-Follows :
      (c : Call) (t : Layer W)
      → All IsSound t.sockets
      → Post (λ t'. Follows t.sockets t'.sockets) (run_call drv rounds c t)
  unfolding run_call
  run_call-Follows (a_socket domain type protocol) t h = socket-Moved drv domain type protocol t h
  run_call-Follows (a_close fd) t h =
      Post->>= (Moved t) _ _ _ (w5100_sock_close-Moved drv rounds fd t h) (λ r k. k)
  run_call-Follows (a_poll fd) t h =
      Post->>= (Moved t) _ _ _ (w5100_sock_poll-Moved drv fd t h) (λ r k. k)
  run_call-Follows (a_connect fd addr) t h =
      Post->>= (Moved t) _ _ _ (connect-Moved drv rounds fd addr t h) (λ r k. k)
  run_call-Follows (a_bind fd addr) t h =
      Post->>= (Moved t) _ _ _ (bind-Moved drv rounds fd addr t h) (λ r k. k)
  run_call-Follows (a_listen fd backlog) t h =
      Post->>= (Moved t) _ _ _ (listen-Moved drv rounds fd backlog t h) (λ r k. k)
  run_call-Follows (an_accept fd wants_addr wants_len) t h =
      Post->>= (Moved t) _ _ _ (accept-Moved drv rounds fd wants_addr wants_len t h) (λ r k. k)
  run_call-Follows (a_recvfrom fd len wants) t h =
      Post->>= (Moved t) _ _ _ (recvfrom-Moved drv rounds fd len wants t h) (λ r k. k)
  run_call-Follows (a_send fd buf) t h =
      Post->>= (Moved t) _ _ _ (send-Moved drv rounds fd buf t h) (λ r k. k)
  run_call-Follows (a_sendto fd buf dest) t h =
      Post->>= (Moved t) _ _ _ (sendto-Moved drv rounds fd buf dest t h) (λ r k. k)
  run_call-Follows (a_setsockopt fd level opt) t h =
      Post->>= (Moved t) _ _ _ (setsockopt-Moved drv fd level opt t h) (λ r k. k)
  run_call-Follows (a_getsockopt fd level opt) t h =
      Post->>= (Moved t) _ _ _ (getsockopt-Moved drv fd level opt t h) (λ r k. k)
  run_call-Follows (a_getsockname fd has_address len) t h =
      Post->>= (Moved t) _ _ _ (getsockname-Moved drv fd has_address len t h) (λ r k. k)
  run_call-Follows (a_getpeername fd has_address len) t h =
      Post->>= (Moved t) _ _ _ (getpeername-Moved drv fd has_address len t h) (λ r k. k)

  run_calls-IsSound :
      (cs : List Call) (t : Layer W)
      → All IsSound t.sockets
      → Post (λ t'. All IsSound t'.sockets) (run_calls drv rounds cs t)
  unfolding run_calls
  run_calls-IsSound [] t h = h
  run_calls-IsSound (c ∷ cs) t h =
      Post->>= (λ t'. Follows t.sockets t'.sockets) _ (run_call drv rounds c t)
        (run_calls drv rounds cs) (run_call-Follows c t h)
        (λ t' f. run_calls-IsSound cs t' (All-Follows t.sockets t'.sockets f))

  -- From the start of the layer on, whatever calls a program makes in whatever order, every
  -- structure of the table is sound when they return: it is marked free exactly when it is in no
  -- state, and its two pointers are set as its state has them.
  pub run_calls-init :
      (w5100_init : W → W) (ip gateway subnet : ℕ) (cs : List Call) (t : Layer W)
      → Post
          (λ t'. All IsSound t'.sockets)
          (w5100_socket_init drv rounds w5100_init ip gateway subnet t >>= run_calls drv rounds cs)
  run_calls-init w5100_init ip gateway subnet cs t =
      Post->>= (λ t'. All IsSound t'.sockets) _
        (w5100_socket_init drv rounds w5100_init ip gateway subnet t) (run_calls drv rounds cs)
        (w5100_socket_init-IsSound drv rounds w5100_init ip gateway subnet t)
        (λ t' h. run_calls-IsSound cs t' h)
