-- ===== src/W5100/Transfer.antt =====
-- src/w5100_socket.c: timeouts, lost connections and receiving. The flags are ignored, as in the source.
pub mod Kept
use nucleo_tests.Base.{
  ℕ, zero, suc, ◌+◌, ◌-◌, ◌%◌, ◌^◌, Bool, true, false, not, ◌&&◌, ◌||◌, Option, none, some, List,
  [], ◌∷◌, ◌⊎◌, inl, inr, ◌==◌, ltb, leb, if◌then◌else◌, get_or, length, drop,
}
use nucleo_tests.Base.Bytes.{word16, word32}
use nucleo_tests.Base.Run.{Run, done, repeat, ◌>>=◌}
use nucleo_tests.Base.Int.{ℤ, pos, minus_one, eqb_ℤ, ltb_ℤ, i32}
use nucleo_tests.Inet.{ntohs}
use nucleo_tests.Timespec.{Timespec, timespec_zero, timespec_diff, timespec_incr}
use nucleo_tests.W5100.Ring.{
  w5100_command, read_buf, read_buf_len, read_buf_pstart, read_buf_sure, read_buf_recv, write_buf,
  write_buf_len, get_tx_size,
}
use nucleo_tests.W5100.State.{
  is_set, created, connected, bound, listening, accepted, disconnected, eqb_state, eagain, ebadf,
  econnreset, edestaddrreq, einval, emsgsize, enotconn, etimedout, af_unspec, sock_stream,
  sock_dgram, Socket, SockAddr, Layer, Driver, After, refuse, with_socket, entry_at, nonblock_of,
  read_sock_reg, write_port, write_addr,
}
use nucleo_tests.W5100.Open.{end_by, listen_again}
use nucleo_tests.W5100.Connect.{is_established, check_bind_udp}

-- What a receiving call gives: its value, what it writes from `buf` on, and the sender's address
-- and port where it writes them.
abbrev pub Received : Type 0
Received = ℤ × List ℕ × Option (ℕ × ℕ)

abbrev pub nothing_read : ℤ → Received
nothing_read ret = (ret, [], none)

-- The 8 bytes before a datagram: address, port and length, in network order.
abbrev pub header_addr : List ℕ → ℕ
header_addr h = word32 (get_or h 0 0) (get_or h 1 0) (get_or h 2 0) (get_or h 3 0)

abbrev pub header_port : List ℕ → ℕ
header_port h = word16 (get_or h 4 0) (get_or h 5 0)

abbrev pub header_len : List ℕ → ℕ
header_len h = ntohs (word16 (get_or h 6 0) (get_or h 7 0))

abbrev pub cannot_recv : Socket → Bool
cannot_recv s =
    s.type == sock_stream && not (eqb_state s.state accepted) && not (eqb_state s.state connected)
    || s.type == sock_dgram && not (eqb_state s.state bound) && not (eqb_state s.state created)

module _ {W : Type 0} (drv : Driver W) where
  -- `struct timeout_manager`: the end, where there is a timeout.
  unfoldable pub timeout_init : Timespec → W → Option Timespec × W
  timeout_init timeout w =
      let (now, w') = drv.clock_monotonic w in
      if not (eqb_ℤ (timespec_diff timespec_zero timeout) (pos 0))
      then (some (timespec_incr now timeout), w')
      else (none, w)

  -- Where it has ended, `errno` is set too.
  unfoldable pub timeout_ended : Option Timespec → Layer W → Bool × Layer W
  timeout_ended none t = (false, t)
  timeout_ended (some end) t =
      let (cur, w) = drv.clock_monotonic t.world in
      if ltb_ℤ (timespec_diff end cur) (pos 0)
      then (true, record t { errno = eagain; world = w })
      else (false, record t { world = w })

  -- The timeout of a call, which only a blocking one looks at.
  abbrev pub timeout_of : Bool → Timespec → Layer W → Option Timespec × Layer W
  timeout_of nonblock timeout t =
      let (tom, w) = timeout_init timeout t.world in
      if nonblock then (none, t) else (tom, record t { world = w })

module _ {W : Type 0} (drv : Driver W) (rounds : ℕ) where
  abbrev pub disconnect : Socket → Layer W → Run (After W ℤ)
  disconnect s t = do
    w ← end_by drv rounds 0x08 s.isocket t.world
    if eqb_state s.state accepted && is_set s.fd_data
        then (do
          w' ← listen_again drv rounds s.isocket w
          done (minus_one, record s { state = listening }, record t { world = w' }))
        else done (minus_one, record s { state = disconnected }, record t { world = w })

  unfoldable pub manage_disconnect : Socket → Layer W → Run (After W ℤ)
  manage_disconnect s t =
      let (sr, w) = read_sock_reg drv 0x03 s.isocket t.world in
      let reason = if sr == 0x1c then econnreset else etimedout in
      if not (is_established sr)
      then disconnect s (record t { errno = reason; world = w })
      else done (pos 0, s, record t { world = w })

  abbrev pub RecvRound : Type 0
  RecvRound = (Socket × Layer W) ⊎ After W Received

  -- The end of a round in which nothing came.
  abbrev pub recv_again : Bool → Option Timespec → Socket → Layer W → RecvRound
  recv_again nonblock tom s t =
      let (ended, t') = timeout_ended drv tom t in
      if nonblock
      then inr (nothing_read minus_one, s, record t { errno = eagain })
      else (if ended then inr (nothing_read minus_one, s, t') else inl (s, t'))

  abbrev pub recv_lost : Bool → Option Timespec → After W ℤ → RecvRound
  recv_lost nonblock tom (ret, s, t) =
      if eqb_ℤ ret minus_one
      then inr (nothing_read minus_one, s, t)
      else recv_again nonblock tom s t

  unfoldable pub recv_stream : ℕ → Bool → Option Timespec → Socket × Layer W → Run RecvRound
  recv_stream len nonblock tom (s, t) = do
    r ← read_buf drv.spi rounds s.isocket len t.world
    if not (length r.0 == 0)
        then done (inr ((pos (length r.0), r.0, none), s, record t { world = r.1 }))
        else (do
          after ← manage_disconnect s (record t { world = r.1 })
          done (recv_lost nonblock tom after))

  -- A datagram is there: all of its `msg_len` bytes go to `buf`.
  unfoldable pub take_datagram : Bool → Socket → Layer W → Run (After W Received)
  take_datagram wants s t =
      let (pread, w1) = read_buf_pstart drv.spi s.isocket t.world in
      let (header, pread1, w2) = read_buf_sure drv.spi s.isocket 8 pread w1 in
      let msg_len = header_len header in
      let (bytes, pread2, w3) = read_buf_sure drv.spi s.isocket msg_len pread1 w2 in
      let peer = if wants then some (header_addr header, header_port header) else none in
      read_buf_recv drv.spi rounds s.isocket pread2 w3 >>= λ w.
      done ((pos msg_len, bytes, peer), s, record t { world = w })

  unfoldable pub recv_dgram : Bool → Bool → Option Timespec → Socket × Layer W → Run RecvRound
  recv_dgram wants nonblock tom (s, t) =
      let (toread, w) = read_buf_len drv.spi s.isocket t.world in
      let t' = record t { world = w } in
      if leb 8 toread
      then (take_datagram wants s t' >>= λ r. done (inr r))
      else done (recv_again nonblock tom s t')

  abbrev pub recv_round : ℕ → Bool → Bool → Option Timespec → Socket × Layer W → Run RecvRound
  recv_round len wants nonblock tom (s, t) =
      if s.type == sock_stream
      then recv_stream len nonblock tom (s, t)
      else (if s.type == sock_dgram
          then recv_dgram wants nonblock tom (s, t)
          else done (recv_again nonblock tom s t))

  abbrev pub recvfrom_socket : ℕ → Bool → Socket → Layer W → Run (After W Received)
  recvfrom_socket len wants s t =
      if cannot_recv s
      then refuse (nothing_read (pos 1)) enotconn s t
      else (if len == 0 then done (nothing_read (pos 0), s, t) else (do
        nonblock ← nonblock_of drv (entry_at t.files s.fd_data)
        let t' = timeout_of drv nonblock s.recv_timeout t
        repeat rounds (recv_round len wants nonblock t'.0) (s, t'.1)))

  -- `wants` is whether both pointers to the sender's address are given; `sin_family` is not written,
  -- and `*address_len` becomes the size of the structure.
  unfoldable pub recvfrom : ℤ → ℕ → Bool → Layer W → Run (Received × Layer W)
  recvfrom sockfd len wants t =
      with_socket drv (nothing_read minus_one) sockfd (recvfrom_socket len wants) t

  unfoldable pub recv : ℤ → ℕ → Layer W → Run (Received × Layer W)
  recv sockfd len t = recvfrom sockfd len false t

  unfoldable pub w5100_sock_read : ℤ → ℕ → Layer W → Run (Received × Layer W)
  w5100_sock_read fd len t = recv fd len t
