-- ===== src/W5100/Query/Kept.antt =====
-- The calls that ask, and those that set options, keep the table sound; the start makes it so.
use nucleo_tests.Base.{refl, not, ◌&&◌, ◌||◌, Bool, Option, List, [], ◌∷◌, ◌==◌, ℕ, map, All}
use nucleo_tests.Base.Run.{Post, Post-if, Post-then, repeat}
use nucleo_tests.Base.Int.{ℤ}
use nucleo_tests.W5100.State.{
  connected, bound, listening, accepted, eqb_state, Socket, SockAddr, Layer, Driver,
}
use nucleo_tests.W5100.State.Moves.{
  IsSound, Goes, Goes-refl, SoundAt-alike, may_follow_refl, Kept, Moved, with_socket-Moved,
}
use nucleo_tests.W5100.Open.{socket_free}
use nucleo_tests.W5100.Query.{
  poll_socket, w5100_sock_poll, SetOption, so_broadcast, so_rcvtimeo, so_sndtimeo, unknown_option,
  GetOption, get_acceptconn, get_broadcast, get_rcvtimeo, get_sndtimeo, get_type, get_unknown,
  set_option, get_option, setsockopt, getsockopt, get_sockaddr_in, getsockname, getpeername,
  reset_round, w5100_socket_init,
}

set_option-Kept :
    {W : Type 0} (opt : SetOption) (s : Socket) (t : Layer W)
    → IsSound s
    → Post (Kept s t) (set_option opt s t)
set_option-Kept (so_broadcast v) s t h =
    ((SoundAt-alike s.state s _ refl refl refl h, may_follow_refl s.state), refl)
set_option-Kept (so_rcvtimeo v) s t h =
    ((SoundAt-alike s.state s _ refl refl refl h, may_follow_refl s.state), refl)
set_option-Kept (so_sndtimeo v) s t h =
    ((SoundAt-alike s.state s _ refl refl refl h, may_follow_refl s.state), refl)
set_option-Kept unknown_option s t h = (Goes-refl s h, refl)

get_option-Kept :
    {W : Type 0} (opt : GetOption) (s : Socket) (t : Layer W)
    → IsSound s
    → Post (Kept s t) (get_option opt s t)
get_option-Kept get_acceptconn s t h = (Goes-refl s h, refl)
get_option-Kept get_broadcast s t h = (Goes-refl s h, refl)
get_option-Kept get_rcvtimeo s t h = (Goes-refl s h, refl)
get_option-Kept get_sndtimeo s t h = (Goes-refl s h, refl)
get_option-Kept get_type s t h = (Goes-refl s h, refl)
get_option-Kept get_unknown s t h = (Goes-refl s h, refl)

get_sockaddr_in-Kept :
    {W : Type 0} (addr : SockAddr) (has_address : Bool) (len : Option ℤ) (s : Socket) (t : Layer W)
    → IsSound s
    → Post (Kept s t) (get_sockaddr_in addr has_address len s t)
unfolding get_sockaddr_in
get_sockaddr_in-Kept addr has_address len s t h =
    Post-if (Kept s t) (not has_address) _ _ (λ a. (Goes-refl s h, refl))
      (λ a. (Goes-refl s h, refl))

module _ {W : Type 0} (drv : Driver W) where
  pub w5100_sock_poll-Moved :
      (fd : ℤ) (t : Layer W) → All IsSound t.sockets → Post (Moved t) (w5100_sock_poll drv fd t)
  unfolding w5100_sock_poll
  w5100_sock_poll-Moved fd t h = with_socket-Moved drv _ fd (poll_socket drv) t h (λ s i.
      let same : Goes s s = Goes-refl s i in
      Post-if (Kept s t) (eqb_state s.state listening) _ _ (λ a. (same, refl))
        (λ a.
          Post-if (Kept s t)
            (s.type == 1 && (eqb_state s.state connected || eqb_state s.state accepted)) _ _
            (λ b. (same, refl))
            (λ b.
              Post-if (Kept s t)
                (s.type == 2 && (eqb_state s.state connected || eqb_state s.state bound)) _ _
                (λ c. (same, refl)) (λ c. (same, refl)))))

  pub setsockopt-Moved :
      (fd : ℤ) (level : ℕ) (opt : SetOption) (t : Layer W)
      → All IsSound t.sockets
      → Post (Moved t) (setsockopt drv fd level opt t)
  unfolding setsockopt
  setsockopt-Moved fd level opt t h = with_socket-Moved drv _ fd _ t h (λ s i.
      Post-if (Kept s t) (not (level == 255)) _ _ (λ a. (Goes-refl s i, refl))
        (λ a. set_option-Kept opt s t i))

  pub getsockopt-Moved :
      (fd : ℤ) (level : ℕ) (opt : GetOption) (t : Layer W)
      → All IsSound t.sockets
      → Post (Moved t) (getsockopt drv fd level opt t)
  unfolding getsockopt
  getsockopt-Moved fd level opt t h = with_socket-Moved drv _ fd _ t h (λ s i.
      Post-if (Kept s t) (not (level == 255)) _ _ (λ a. (Goes-refl s i, refl))
        (λ a. get_option-Kept opt s t i))

  pub getsockname-Moved :
      (fd : ℤ) (has_address : Bool) (len : Option ℤ) (t : Layer W)
      → All IsSound t.sockets
      → Post (Moved t) (getsockname drv fd has_address len t)
  unfolding getsockname
  getsockname-Moved fd has_address len t h = with_socket-Moved drv _ fd _ t h (λ s i.
      Post-if (Kept s t) (s.sockname.sin_family == 4) _ _ (λ a. (Goes-refl s i, refl))
        (λ a. get_sockaddr_in-Kept s.sockname has_address len s t i))

  pub getpeername-Moved :
      (fd : ℤ) (has_address : Bool) (len : Option ℤ) (t : Layer W)
      → All IsSound t.sockets
      → Post (Moved t) (getpeername drv fd has_address len t)
  unfolding getpeername
  getpeername-Moved fd has_address len t h = with_socket-Moved drv _ fd _ t h (λ s i.
      Post-if (Kept s t) (s.dest_address.sin_family == 4) _ _ (λ a. (Goes-refl s i, refl))
        (λ a. get_sockaddr_in-Kept s.dest_address has_address len s t i))

  map-socket_free : (xs : List Socket) → All IsSound (map socket_free xs)
  map-socket_free [] = tt
  map-socket_free (x ∷ xs) = ((refl, refl, refl), map-socket_free xs)

  pub w5100_socket_init-IsSound :
      (rounds : ℕ) (w5100_init : W → W) (ip gateway subnet : ℕ) (t : Layer W)
      → Post
          (λ t'. All IsSound t'.sockets)
          (w5100_socket_init drv rounds w5100_init ip gateway subnet t)
  unfolding w5100_socket_init
  w5100_socket_init-IsSound rounds w5100_init ip gateway subnet t =
      Post-then (λ t'. All IsSound t'.sockets) (repeat rounds (reset_round drv) _) _
        (λ w. map-socket_free t.sockets)
