-- ===== src/W5100/Connect.antt =====
-- src/w5100_socket.c: `connect`, `bind`, `listen` and `accept`. What a call writes through its other
-- pointers stands beside its value.
pub mod Kept
use nucleo_tests.Base.{
  ℕ, zero, suc, ◌+◌, ◌%◌, ◌^◌, Bool, true, false, not, ◌&&◌, ◌||◌, Option, none, some, List, [],
  ◌∷◌, ◌⊎◌, inl, inr, ◌==◌, if◌then◌else◌, get_or,
}
use nucleo_tests.Base.Bytes.{word16, word32}
use nucleo_tests.Base.Run.{Run, done, repeat, ◌>>=◌}
use nucleo_tests.Base.Int.{ℤ, pos, negsuc, minus_one}
use nucleo_tests.File.{Files, file_alloc}
use nucleo_tests.Inet.{htons}
use nucleo_tests.W5100.{w5100_read_mem, w5100_sock_reg_get}
use nucleo_tests.W5100.Ring.{w5100_command}
use nucleo_tests.W5100.State.{
  state_none, created, connected, bound, listening, accepted, eqb_state, eafnosupport, eagain,
  ebadf, econnrefused, edestaddrreq, einval, eisconn, enfile, eopnotsupp, af_inet, af_unspec,
  sock_stream, sock_dgram, Socket, SockAddr, Layer, Driver, After, refuse, with_socket, entry_at,
  nonblock_of, read_sock_reg, write_port, write_addr, wait_status,
}
use nucleo_tests.W5100.Open.{fill_fd_struct, is_closed, is_listening}

abbrev pub is_init : ℕ → Bool
is_init sr = sr == 0x13

abbrev pub is_established : ℕ → Bool
is_established sr = sr == 0x17

abbrev pub is_udp : ℕ → Bool
is_udp sr = sr == 0x22

module _ {W : Type 0} (drv : Driver W) where
  abbrev pub read_port : ℕ → ℕ → W → ℕ × W
  read_port reg isocket w =
      let (b, w') = w5100_read_mem drv.spi (w5100_sock_reg_get reg isocket) 2 w in
      (word16 (get_or b 0 0) (get_or b 1 0), w')

  abbrev pub read_addr : ℕ → ℕ → W → ℕ × W
  read_addr reg isocket w =
      let (b, w') = w5100_read_mem drv.spi (w5100_sock_reg_get reg isocket) 4 w in
      (word32 (get_or b 0 0) (get_or b 1 0) (get_or b 2 0) (get_or b 3 0), w')

  -- The sockets from `isocket` on: whether one in use has the port, up to the first that has.
  unfoldable pub port_used : ℕ → ℕ → List Socket → W → Bool × W
  port_used avail isocket [] w = (false, w)
  port_used avail isocket (s ∷ rest) w =
      let (port, w1) = read_port 0x04 isocket w in
      let next = if eqb_state s.state state_none then w else w1 in
      let later = port_used avail (suc isocket) rest next in
      if not (eqb_state s.state state_none) && port == avail then (true, w1) else later

  abbrev pub port_round : List Socket → ℕ × W → Run ((ℕ × W) ⊎ (ℕ × W))
  port_round sockets (avail, w) =
      let (used, w') = port_used avail 0 sockets w in
      done (if used then inl ((avail + 65535) % 2 ^ 16, w') else inr (avail, w'))

  unfoldable pub get_avail_port : ℕ → Layer W → Run (ℕ × W)
  get_avail_port rounds t = repeat rounds (port_round t.sockets) (htons 0x7ff0, t.world)

abbrev pub bound_udp : ℕ → Socket → Socket
bound_udp port s = record s {
  sockname = record { sin_family = af_inet; sin_addr = 0; sin_port = port };
  state = bound;
}

abbrev pub value_zero : {W : Type 0} → Socket × Layer W → Run (After W ℤ)
value_zero (s, t) = done (pos 0, s, t)

-- What `accept` gives: its value, and `*addr` and `*addrlen` where it writes them.
abbrev pub Accepted : Type 0
Accepted = ℤ × Option SockAddr × Option ℕ

module _ {W : Type 0} (drv : Driver W) (rounds : ℕ) where
  unfoldable pub bind_udp : Socket → ℕ → Layer W → Run (Socket × Layer W)
  bind_udp s port t = do
    w ← w5100_command drv.spi rounds s.isocket 0x01 (write_port drv 0x04 s.isocket port t.world)
    r ← wait_status drv rounds s.isocket is_udp w
    done (bound_udp port s, record t { world = r.1 })

  -- The search asks for the states in the table, where `s` is still created.
  unfoldable pub check_bind_udp : Socket → Layer W → Run (Socket × Layer W)
  check_bind_udp s t =
      if eqb_state s.state created
      then (do r ← get_avail_port drv rounds t; bind_udp s r.0 (record t { world = r.1 }))
      else done (s, t)

  -- `W5100_CMD_OPEN` and the wait for `W5100_SOCK_INIT`, on a port.
  abbrev pub open_tcp : ℕ → ℕ → W → Run W
  open_tcp isocket port w = do
    w1 ← w5100_command drv.spi rounds isocket 0x01 (write_port drv 0x04 isocket port w)
    r ← wait_status drv rounds isocket is_init w1
    done r.1

  abbrev pub start_connect : ℕ → SockAddr → W → Run (ℕ × W)
  start_connect isocket server w = do
    w1 ← open_tcp isocket server.sin_port w
    let w2 = write_addr drv 0x0c isocket server.sin_addr w1
    let w3 = write_port drv 0x10 isocket server.sin_port w2
    w4 ← w5100_command drv.spi rounds isocket 0x04 w3
    wait_status drv rounds isocket (λ sr. is_closed sr || is_established sr) w4

  abbrev pub connect_end : SockAddr → Socket → Layer W → ℕ × W → Run (After W ℤ)
  connect_end server s t (sr, w) =
      if is_established sr
      then done
          (pos 0, record s { state = connected; dest_address = server }, record t { world = w })
      else refuse minus_one econnrefused s (record t { world = w })

  unfoldable pub connect_tcp : SockAddr → Socket → Layer W → Run (After W ℤ)
  connect_tcp addr s t =
      if not (addr.sin_family == af_inet)
      then refuse minus_one eafnosupport s t
      else (if eqb_state s.state connected || eqb_state s.state accepted
          then refuse minus_one eisconn s t
          else (if eqb_state s.state listening || not (eqb_state s.state created)
              then refuse minus_one eopnotsupp s t
              else (start_connect s.isocket addr t.world >>= connect_end addr s t)))

  unfoldable pub connect_udp : SockAddr → Socket → Layer W → Run (After W ℤ)
  connect_udp addr s t =
      if addr.sin_family == af_unspec
      then (let d = record s.dest_address { sin_family = af_unspec } in
          check_bind_udp (record s { dest_address = d }) t >>= value_zero)
      else (if addr.sin_family == af_inet
          then (check_bind_udp (record s { dest_address = addr }) t >>= value_zero)
          else refuse minus_one eafnosupport s t)

  abbrev pub connect_socket : SockAddr → Socket → Layer W → Run (After W ℤ)
  connect_socket addr s t =
      if s.type == sock_stream
      then connect_tcp addr s t
      else (if s.type == sock_dgram
          then connect_udp addr s t
          else refuse minus_one eafnosupport s t)

  unfoldable pub connect : ℤ → SockAddr → Layer W → Run (ℤ × Layer W)
  connect sockfd addr t = with_socket drv minus_one sockfd (connect_socket addr) t

  abbrev pub bind_tcp : SockAddr → Socket → Layer W → Run (After W ℤ)
  bind_tcp addr s t = do
    w ← open_tcp s.isocket addr.sin_port t.world
    done (pos 0, record s { sockname = addr; state = bound }, record t { world = w })

  abbrev pub bind_socket : SockAddr → Socket → Layer W → Run (After W ℤ)
  bind_socket addr s t =
      if not (addr.sin_family == af_inet)
      then refuse minus_one eafnosupport s t
      else (if not (eqb_state s.state created)
          then refuse (pos 1) einval s t
          else (if s.type == sock_stream
              then bind_tcp addr s t
              else (if s.type == sock_dgram
                  then (bind_udp s addr.sin_port t >>= value_zero)
                  else refuse minus_one ebadf s t)))

  unfoldable pub bind : ℤ → SockAddr → Layer W → Run (ℤ × Layer W)
  bind sockfd addr t = with_socket drv minus_one sockfd (bind_socket addr) t

  abbrev pub listen_socket : Socket → Layer W → Run (After W ℤ)
  listen_socket s t =
      if not (eqb_state s.state bound)
      then refuse (pos 1) edestaddrreq s t
      else (if not (s.type == sock_stream) then refuse minus_one eopnotsupp s t else (do
        w ← w5100_command drv.spi rounds s.isocket 0x02 t.world
        r ← wait_status drv rounds s.isocket is_listening w
        done (pos 0, record s { state = listening }, record t { world = r.1 })))

  -- The backlog is ignored.
  unfoldable pub listen : ℤ → ℤ → Layer W → Run (ℤ × Layer W)
  listen sockfd backlog t = with_socket drv minus_one sockfd listen_socket t

  -- The loop up to a connection (`true`) or, where `O_NONBLOCK` is set, to its first failure.
  abbrev pub accept_round : ℕ → Bool → W → Run (W ⊎ (Bool × W))
  accept_round isocket nonblock w =
      let (sr, w') = read_sock_reg drv 0x03 isocket w in
      done (
        if is_established sr
        then inr (true, w')
        else (if nonblock then inr (false, w') else inl w'))

  -- `*addr` and `*addrlen`, by which of the two pointers are given.
  abbrev pub read_client : ℕ → Bool → Bool → W → Option SockAddr × Option ℕ × W
  read_client isocket false wants_len w = (none, none, w)
  read_client isocket true wants_len w =
      let (addr, w1) = read_addr drv 0x0c isocket w in
      let (port, w2) = read_port drv 0x10 isocket w1 in
      (
        some (record { sin_family = af_inet; sin_addr = addr; sin_port = port }),
        if wants_len then some 12 else none,
        w2,
      )

  abbrev pub accept_with : Bool → Bool → Socket → Layer W → ℤ × Files → Run (After W Accepted)
  accept_with wants_addr wants_len s t (negsuc _, files) = do
    w1 ← w5100_command drv.spi rounds s.isocket 0x10 t.world
    w2 ← w5100_command drv.spi rounds s.isocket 0x01 w1
    w3 ← w5100_command drv.spi rounds s.isocket 0x02 w2
    refuse (minus_one, none, none) enfile s (record t { world = w3 })
  accept_with wants_addr wants_len s t (pos fd, files) =
      let (client, len, w) = read_client s.isocket wants_addr wants_len t.world in
      done (
        (pos fd, client, len),
        record s { state = accepted; connection_data = some fd },
        record t { files = fill_fd_struct drv fd s.isocket files; world = w },
      )

  abbrev pub accept_end : Bool → Bool → Socket → Layer W → Bool × W → Run (After W Accepted)
  accept_end wants_addr wants_len s t (false, w) =
      refuse (minus_one, none, none) eagain s (record t { world = w })
  accept_end wants_addr wants_len s t (true, w) =
      accept_with wants_addr wants_len s (record t { world = w }) (file_alloc t.files)

  abbrev pub accept_socket : Bool → Bool → Socket → Layer W → Run (After W Accepted)
  accept_socket wants_addr wants_len s t =
      if not (eqb_state s.state listening)
      then refuse (pos 1, none, none) einval s t
      else (if not (s.type == sock_stream)
          then refuse (minus_one, none, none) eopnotsupp s t
          else (do
            nonblock ← nonblock_of drv (entry_at t.files s.fd_data)
            r ← repeat rounds (accept_round s.isocket nonblock) t.world
            accept_end wants_addr wants_len s t r))

  unfoldable pub accept : ℤ → Bool → Bool → Layer W → Run (Accepted × Layer W)
  accept sockfd wants_addr wants_len t =
      with_socket drv (minus_one, none, none) sockfd (accept_socket wants_addr wants_len) t
