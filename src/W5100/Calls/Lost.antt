-- ===== src/W5100/Calls/Lost.antt =====
-- A connection that is lost, and a datagram that is larger than the buffer.
use nucleo_tests.Base.{
  ℕ, suc, ◌-◌, ◌≡◌, refl, arith, true, false, Bool, List, length, ◌==◌, leb, inr, ◌⊎◌, set,
}
use nucleo_tests.Base.Run.{done, after_round, Returns, Returns->>=}
use nucleo_tests.Base.Int.{ℤ, pos, minus_one, i32}
use nucleo_tests.File.{Fd}
use nucleo_tests.W5100.Ring.{read_buf_len, read_buf_pstart, read_buf_sure, read_buf_recv, write_buf}
use nucleo_tests.W5100.Ring.Length.{length-read_buf_sure}
use nucleo_tests.W5100.State.{
  accepted, connected, bound, disconnected, eqb_state, sock_stream, sock_dgram, Socket, Layer,
  Driver, After, nonblock_of, entry_at, read_sock_reg, put_back,
}
use nucleo_tests.W5100.State.Held.{IsHeld, with_socket-IsHeld}
use nucleo_tests.W5100.Open.{end_by}
use nucleo_tests.W5100.Connect.{is_established}
use nucleo_tests.W5100.Transfer.{
  timeout_of, disconnect, manage_disconnect, Received, header_len, take_datagram, recv_dgram,
  recvfrom, recvfrom_socket,
}
use nucleo_tests.W5100.Transfer.Kept.{timeout_of-sockets}
use nucleo_tests.W5100.Send.{send, send_socket, send_stream, sent_count}

all_left : (buf left : List ℕ) → left ≡ buf → i32 (pos (length buf - length left)) ≡ pos 0
unfolding i32
all_left buf left e =
    let none_sent : length buf - length left ≡ 0 = rw e (omega arith) in rw none_sent refl

module _ {W : Type 0} (drv : Driver W) where
  -- The length that the header of the next datagram announces.
  abbrev pub announced : Socket → W → ℕ
  announced s w =
      let (pread, w1) = read_buf_pstart drv.spi s.isocket w in
      header_len (read_buf_sure drv.spi s.isocket 8 pread w1).0

  -- What is left of a socket whose connection is gone.
  abbrev pub disconnected_socket : Socket → Socket
  disconnected_socket s = record s { state = disconnected }

  IsLost : Socket → Layer W → After W ℤ → Type 0
  IsLost s t r = (r.0 ≡ minus_one) × (r.1 ≡ disconnected_socket s) × (r.2.sockets ≡ t.sockets)

  disconnect-IsLost :
      (rounds : ℕ) (s : Socket) (t u : Layer W)
      → eqb_state s.state accepted ≡ false
      → u.sockets ≡ t.sockets
      → ((w : W) → Returns (λ x. Unit) (end_by drv rounds 8 s.isocket w))
      → Returns (IsLost s t) (disconnect drv rounds s u)
  unfolding IsLost
  disconnect-IsLost rounds s t u alone m ends =
      Returns->>= (λ x. Unit) (IsLost s t) (end_by drv rounds 8 s.isocket u.world) _ (ends u.world)
        (λ w x. rw alone (refl, refl, m))

  manage_disconnect-IsLost :
      (rounds : ℕ) (s : Socket) (t u : Layer W)
      → eqb_state s.state accepted ≡ false
      → u.sockets ≡ t.sockets
      → ((w : W) → Returns (λ x. Unit) (end_by drv rounds 8 s.isocket w))
      → is_established (read_sock_reg drv 3 s.isocket u.world).0 ≡ false
      → Returns (IsLost s t) (manage_disconnect drv rounds s u)
  unfolding manage_disconnect
  manage_disconnect-IsLost rounds s t u alone m ends lost =
      rw lost (disconnect-IsLost rounds s t _ alone m ends)

  -- The loop ends with all the bytes left.
  StillLeft : List ℕ → Socket → Layer W → After W (List ℕ) ⊎ After W (List ℕ) → Type 0
  StillLeft buf s t x =
      (u : Layer W) × (x ≡ inr (buf, disconnected_socket s, u)) × (u.sockets ≡ t.sockets)

  -- Where the first bytes of a message cannot be written because the chip reports that the
  -- connection is gone, and the chip closes its side after a command, `send` on a connected stream
  -- socket returns 0, and the socket is disconnected: the -1 that was set on the way is overwritten.
  pub send_lost :
      {t : Layer W} {fd : ℕ} {f : Fd} {i : ℕ} {s : Socket} (rounds : ℕ) (nonblock : Bool)
      (buf : List ℕ) (w : W)
      → IsHeld drv t fd f i s
      → s.type ≡ sock_stream
      → s.state ≡ connected
      → nonblock_of drv (entry_at t.files s.fd_data) ≡ done nonblock
      → (length buf == 0) ≡ false
      → write_buf drv.spi
          (suc rounds)
          s.isocket
          buf
          (timeout_of drv nonblock s.send_timeout t).1.world
        ≡ done (0, w)
      → is_established (read_sock_reg drv 3 s.isocket w).0 ≡ false
      → ((v : W) → Returns (λ x. Unit) (end_by drv (suc rounds) 8 s.isocket v))
      → Returns
          (λ r. (r.0 ≡ pos 0) × (r.1.sockets ≡ set t.sockets i (disconnected_socket s)))
          (send drv (suc rounds) (pos fd) buf t)
  unfolding send send_stream StillLeft IsLost
  send_lost {t} {i} {s} rounds nonblock buf w h tcp live nb some_bytes full lost ends =
      let stream : (s.type == 1) ≡ true = ground arith in
      let not_dgram : (s.type == 2) ≡ false = ground arith in
      let alone : eqb_state s.state accepted ≡ false = rw live in
      let open_state : eqb_state s.state connected ≡ true = rw live in
      let gone = disconnected_socket s in
      let Gone = λ (r : After W ℤ). (r.0 ≡ pos 0) × (r.1 ≡ gone) × (r.2.sockets ≡ t.sockets) in
      let Rest = λ (r : After W (List ℕ)). (r.0 ≡ buf) × (r.1 ≡ gone) × (r.2.sockets ≡ t.sockets) in
      let m = timeout_of-sockets drv nonblock s.send_timeout t in
      rw
        (
          with_socket-IsHeld _ (send_socket drv (suc rounds) buf) h,
          stream,
          not_dgram,
          alone,
          open_state,
          nb,
          some_bytes,
          full,
        )
        (Returns->>= Gone (λ r. (r.0 ≡ pos 0) × (r.1.sockets ≡ set t.sockets i gone)) _ (put_back i)
          (Returns->>= Rest Gone _ (λ r. done (sent_count drv rounds (length buf) r))
            (Returns->>= (StillLeft buf s t) Rest _ (after_round _)
              (Returns->>= (IsLost s t) (StillLeft buf s t) _ _
                (manage_disconnect-IsLost (suc rounds) s t _ alone m ends lost)
                (λ r e. rw (e.0, e.1) (r.2, refl, e.2)))
              (λ x e. rw (e.1) (refl, refl, e.2)))
            (λ r e. (all_left buf r.0 e.0, e.1, e.2)))
          (λ r e. rw (e.1, e.2) (e.0, refl)))

  -- The value is the announced length, and so many bytes have been written.
  abbrev pub Took : ℕ → After W Received → Type 0
  Took n (got, s, t) = (got.0 ≡ pos n) × (length got.1 ≡ n)

  -- The round is the last one.
  TookLast : ℕ → (Socket × Layer W) ⊎ After W Received → Type 0
  TookLast n x = (r : After W Received) × (x ≡ inr r) × Took n r

  take_datagram-Took :
      (rounds : ℕ) (wants : Bool) (s : Socket) (t : Layer W)
      → ((p : ℕ) (w : W) → Returns (λ x. Unit) (read_buf_recv drv.spi rounds s.isocket p w))
      → Returns (Took (announced s t.world)) (take_datagram drv rounds wants s t)
  unfolding take_datagram
  take_datagram-Took rounds wants s t ends =
      Returns->>= (λ x. Unit) (Took (announced s t.world))
        (read_buf_recv drv.spi rounds s.isocket _ _) _ (ends _ _)
        (λ w x. (refl, length-read_buf_sure drv.spi s.isocket _ _ _))

  -- Where a datagram is waiting and the chip takes the command that ends its reception, `recvfrom`
  -- with a buffer of any size but zero on a bound datagram socket returns the length that the
  -- datagram's header announces, and has written that many bytes to the buffer: its size is not
  -- looked at.
  pub recvfrom-announced :
      {t : Layer W} {fd : ℕ} {f : Fd} {i : ℕ} {s : Socket} (rounds : ℕ) (nonblock wants : Bool)
      (size : ℕ)
      → IsHeld drv t fd f i s
      → s.type ≡ sock_dgram
      → s.state ≡ bound
      → nonblock_of drv (entry_at t.files s.fd_data) ≡ done nonblock
      → ((p : ℕ) (w : W) → Returns (λ x. Unit) (read_buf_recv drv.spi (suc rounds) s.isocket p w))
      → let waiting =
          read_buf_len drv.spi s.isocket (timeout_of drv nonblock s.recv_timeout t).1.world in
        let n = announced s waiting.1 in
        leb 8 waiting.0 ≡ true
        → Returns
            (λ r. (r.0.0 ≡ pos n) × (length r.0.1 ≡ n))
            (recvfrom drv (suc rounds) (pos fd) (suc size) wants t)
  unfolding recvfrom recv_dgram TookLast
  recvfrom-announced {t} {i} {s} rounds nonblock wants size h udp is_bound nb ends waits =
      let tom = timeout_of drv nonblock s.recv_timeout t in
      let waiting = read_buf_len drv.spi s.isocket tom.1.world in
      let n = announced s waiting.1 in
      let dgram : (s.type == 2) ≡ true = ground arith in
      let not_stream : (s.type == 1) ≡ false = ground arith in
      let some_bytes : (suc size == 0) ≡ false = ground arith in
      let state : eqb_state s.state bound ≡ true = rw is_bound in
      rw
        (
          with_socket-IsHeld _ (recvfrom_socket drv (suc rounds) (suc size) wants) h,
          dgram,
          not_stream,
          state,
          some_bytes,
          nb,
          waits,
        )
        (Returns->>= (Took n) (λ r. (r.0.0 ≡ pos n) × (length r.0.1 ≡ n)) _ (put_back i)
          (Returns->>= (TookLast n) (Took n) _ (after_round _)
            (Returns->>= (Took n) (TookLast n) (take_datagram drv (suc rounds) wants s _) _
              (take_datagram-Took (suc rounds) wants s (record tom.1 { world = waiting.1 }) ends)
              (λ r e. (r, refl, e)))
            (λ x e. rw (e.1) (e.2)))
          (λ r e. e))
