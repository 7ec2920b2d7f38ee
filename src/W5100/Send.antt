-- ===== src/W5100/Send.antt =====
-- src/w5100_socket.c: sending. The flags are ignored, as in the source.
pub mod Kept
use nucleo_tests.Base.{
  ℕ, zero, suc, ◌+◌, ◌-◌, ◌%◌, ◌^◌, Bool, true, false, not, ◌&&◌, ◌||◌, Option, none, some, List,
  [], ◌∷◌, ◌⊎◌, inl, inr, ◌==◌, ltb, leb, if◌then◌else◌, get_or, length, drop,
}
use nucleo_tests.Base.Bytes.{word16, word32}
use nucleo_tests.Base.Run.{Run, done, repeat, ◌>>=◌}
use nucleo_tests.Base.Int.{ℤ, pos, minus_one, eqb_ℤ, ltb_ℤ, i32}
use nucleo_tests.Inet.{ntohs}
use nucleo_tests.Timespec.{Timespec, timespec_zero, timespec_diff, timespec_incr}
use nucleo_tests.W5100.Ring.{
  w5100_command, read_buf, read_buf_len, read_buf_pstart, read_buf_sure, read_buf_recv, write_buf,
  write_buf_len, get_tx_size,
}
use nucleo_tests.W5100.State.{
  created, connected, bound, listening, accepted, disconnected, eqb_state, eagain, ebadf,
  econnreset, edestaddrreq, einval, emsgsize, enotconn, etimedout, af_unspec, sock_stream,
  sock_dgram, Socket, SockAddr, Layer, Driver, After, refuse, with_socket, entry_at, nonblock_of,
  write_port, write_addr,
}
use nucleo_tests.W5100.Connect.{check_bind_udp}
use nucleo_tests.W5100.Transfer.{timeout_ended, timeout_of, manage_disconnect}

module _ {W : Type 0} (drv : Driver W) (rounds : ℕ) where
  -- Between rounds: the bytes that are left, and the state. The loop ends with the same.
  abbrev pub Left : Type 0
  Left = List ℕ × Socket × Layer W

  -- The end of a round in which nothing could be written.
  abbrev pub send_again : Bool → Option Timespec → List ℕ → After W ℤ → Left ⊎ Left
  send_again nonblock tom bytes (ret, s, t) =
      let (ended, t') = timeout_ended drv tom t in
      if eqb_ℤ ret minus_one
      then inr (bytes, s, t)
      else (if nonblock
          then inr (bytes, s, record t { errno = eagain })
          else (if ended then inr (bytes, s, t') else inl (bytes, s, t')))

  -- Some bytes were written: without blocking, that is the end.
  abbrev pub after_write : Bool → Left → Left ⊎ Left
  after_write nonblock left = if nonblock then inr left else inl left

  abbrev pub send_round : Bool → Option Timespec → Left → Run (Left ⊎ Left)
  send_round nonblock tom (bytes, s, t) =
      if length bytes == 0 then done (inr (bytes, s, t)) else (do
        r ← write_buf drv.spi rounds s.isocket bytes t.world
        if ltb 0 r.0
            then done (after_write nonblock (drop r.0 bytes, s, record t { world = r.1 }))
            else (do
              after ← manage_disconnect drv rounds s (record t { world = r.1 })
              done (send_again nonblock tom bytes after)))

  -- `ret = len - towrite`, also where `ret` was set to -1 in the loop.
  abbrev pub sent_count : ℕ → Left → After W ℤ
  sent_count len (bytes, s, t) = (i32 (pos (len - length bytes)), s, t)

  unfoldable pub send_stream : List ℕ → Socket → Layer W → Run (After W ℤ)
  send_stream buf s t =
      if not (eqb_state s.state accepted) && not (eqb_state s.state connected)
      then refuse (pos 1) enotconn s t
      else (do
        nonblock ← nonblock_of drv (entry_at t.files s.fd_data)
        let t' = timeout_of drv nonblock s.send_timeout t
        r ← repeat rounds (send_round nonblock t'.0) (buf, s, t'.1)
        done (sent_count (length buf) r))

  abbrev pub sendto_round :
      List ℕ
      → SockAddr
      → Bool
      → Option Timespec
      → Socket × Layer W
      → Run ((Socket × Layer W) ⊎ After W ℤ)
  sendto_round buf peer nonblock tom (s, t) =
      let (nfree, w) = write_buf_len drv.spi s.isocket t.world in
      let t1 = record t { world = w } in
      let (ended, t2) = timeout_ended drv tom t1 in
      if leb (length buf) nfree
      then (do
        let w1 = write_addr drv 0x0c s.isocket peer.sin_addr w
        let w2 = write_port drv 0x10 s.isocket peer.sin_port w1
        r ← write_buf drv.spi rounds s.isocket buf w2
        done (inr (pos r.0, s, record t { world = r.1 })))
      else done (
          if nonblock
          then inr (pos 1, s, record t1 { errno = eagain })
          else (if ended then inr (minus_one, s, t2) else inl (s, t2)))

  abbrev pub sendto_peer : List ℕ → SockAddr → Socket → Layer W → Run (After W ℤ)
  sendto_peer buf peer s t =
      if peer.sin_addr == 0xffffffff && not s.can_broadcast
      then refuse minus_one einval s t
      else (do
        nonblock ← nonblock_of drv (entry_at t.files s.fd_data)
        let t' = timeout_of drv nonblock s.send_timeout t
        repeat rounds (sendto_round buf peer nonblock t'.0) (s, t'.1))

  abbrev pub sendto_bound : List ℕ → Option SockAddr → Socket × Layer W → Run (After W ℤ)
  sendto_bound buf dest_address (s, t) =
      if ltb (get_tx_size s.isocket) (length buf)
      then refuse minus_one emsgsize s t
      else elim dest_address [
        | none ↦ refuse minus_one edestaddrreq s t
        | some peer ↦ sendto_peer buf peer s t
      ]

  -- `sendto` on a datagram socket.
  unfoldable pub sendto_dgram : List ℕ → Option SockAddr → Socket → Layer W → Run (After W ℤ)
  sendto_dgram buf dest_address s t =
      check_bind_udp drv rounds s t >>= sendto_bound buf dest_address

  -- `send` and `sendto` call each other with the same descriptor, for which the other call finds
  -- the same socket again and takes the branch of its type.
  abbrev pub send_socket : List ℕ → Socket → Layer W → Run (After W ℤ)
  send_socket buf s t =
      if s.type == sock_dgram
      then (if s.dest_address.sin_family == af_unspec
          then refuse minus_one edestaddrreq s t
          else sendto_dgram buf (some s.dest_address) s t)
      else (if not (s.type == sock_stream)
          then refuse minus_one edestaddrreq s t
          else send_stream buf s t)

  unfoldable pub send : ℤ → List ℕ → Layer W → Run (ℤ × Layer W)
  send sockfd buf t = with_socket drv minus_one sockfd (send_socket buf) t

  abbrev pub sendto_socket : List ℕ → Option SockAddr → Socket → Layer W → Run (After W ℤ)
  sendto_socket buf dest_address s t =
      if s.type == sock_stream
      then send_stream buf s t
      else (if s.type == sock_dgram
          then sendto_dgram buf dest_address s t
          else refuse minus_one ebadf s t)

  unfoldable pub sendto : ℤ → List ℕ → Option SockAddr → Layer W → Run (ℤ × Layer W)
  sendto sockfd buf dest_address t =
      with_socket drv minus_one sockfd (sendto_socket buf dest_address) t

  unfoldable pub w5100_sock_write : ℤ → List ℕ → Layer W → Run (ℤ × Layer W)
  w5100_sock_write fd buf t = send fd buf t
