-- ===== src/W5100/Query.antt =====
-- src/w5100_socket.c: readiness, options, names, and the start of the chip.
pub mod Kept
use nucleo_tests.Base.{
  ℕ, zero, suc, Bool, true, false, not, ◌&&◌, ◌||◌, Option, none, some, List, [], ◌∷◌, ◌==◌, ltb,
  map, bit_and, bit_or, if◌then◌else◌, ◌⊎◌, inl, inr,
}
use nucleo_tests.Base.Bytes.{bytes32}
use nucleo_tests.Base.Run.{Run, done, repeat, ◌>>=◌}
use nucleo_tests.Base.Int.{ℤ, pos, minus_one, eqb_ℤ, to_unsigned}
use nucleo_tests.Poll.{pollin, pollrdnorm, pollout, pollwrnorm, pollhup, pollnval}
use nucleo_tests.Timespec.{Timeval, timespec_to_timeval, timeval_to_timespec}
use nucleo_tests.W5100.{w5100_read_byte, w5100_write_byte, w5100_write_mem}
use nucleo_tests.W5100.Ring.{read_buf_len, write_buf_len}
use nucleo_tests.W5100.State.{
  connected, bound, listening, accepted, eqb_state, einval, enotconn, af_unspec, sock_stream,
  sock_dgram, Socket, SockAddr, Layer, Driver, After, refuse, with_socket, read_sock_reg,
}
use nucleo_tests.W5100.Open.{socket_free}
use nucleo_tests.W5100.Connect.{is_established}

module _ {W : Type 0} (drv : Driver W) where
  unfoldable pub w5100_sock_poll_rw : ℕ → W → ℕ × W
  w5100_sock_poll_rw isocket w =
      let (toread, w1) = read_buf_len drv.spi isocket w in
      let (towrite, w2) = write_buf_len drv.spi isocket w1 in
      let readable = if ltb 0 toread then bit_or 0 (bit_or pollrdnorm pollin) else 0 in
      (if ltb 0 towrite then bit_or readable (bit_or pollwrnorm pollout) else readable, w2)

  abbrev pub at_world : Socket → Layer W → ℕ × W → Run (After W ℕ)
  at_world s t (bits, w) = done (bits, s, record t { world = w })

  abbrev pub poll_listening : ℕ → W → ℕ × W
  poll_listening isocket w =
      let (sr, w') = read_sock_reg drv 0x03 isocket w in
      (if is_established sr then bit_or pollrdnorm pollin else 0, w')

  abbrev pub poll_stream : ℕ → W → ℕ × W
  poll_stream isocket w =
      let (sr, w') = read_sock_reg drv 0x03 isocket w in
      if not (is_established sr) then (pollhup, w') else w5100_sock_poll_rw isocket w'

  abbrev pub poll_socket : Socket → Layer W → Run (After W ℕ)
  poll_socket s t =
      if eqb_state s.state listening
      then at_world s t (poll_listening s.isocket t.world)
      else (if s.type == sock_stream && (eqb_state s.state connected || eqb_state s.state accepted)
          then at_world s t (poll_stream s.isocket t.world)
          else (if s.type == sock_dgram && (eqb_state s.state connected || eqb_state s.state bound)
              then at_world s t (w5100_sock_poll_rw s.isocket t.world)
              else done (pollnval, s, t)))

  unfoldable pub w5100_sock_poll : ℤ → Layer W → Run (ℕ × Layer W)
  w5100_sock_poll fd t = with_socket drv pollnval fd poll_socket t

abbrev pub sol_socket : ℕ
sol_socket = 0xff

-- `option_name` with what `option_value` points at.
pub data SetOption : Type 0 where
  so_broadcast : ℤ → SetOption
  so_rcvtimeo so_sndtimeo : Timeval → SetOption
  unknown_option : SetOption

pub data GetOption : Type 0 where
  get_acceptconn get_broadcast get_rcvtimeo get_sndtimeo get_type get_unknown : GetOption

-- What `getsockopt` writes to `*option_value`.
pub data OptionValue : Type 0 where
  untouched : OptionValue
  int_value : ℕ → OptionValue
  timeval_value : Timeval → OptionValue

abbrev pub set_option : {W : Type 0} → SetOption → Socket → Layer W → Run (After W ℤ)
set_option (so_broadcast v) s t =
    done (pos 0, record s { can_broadcast = not (eqb_ℤ v (pos 0)) }, t)
set_option (so_rcvtimeo v) s t = done (pos 0, record s { recv_timeout = timeval_to_timespec v }, t)
set_option (so_sndtimeo v) s t = done (pos 0, record s { send_timeout = timeval_to_timespec v }, t)
set_option unknown_option s t = refuse minus_one einval s t

abbrev pub get_option :
    {W : Type 0} → GetOption → Socket → Layer W → Run (After W (ℤ × OptionValue))
get_option get_acceptconn s t =
    done ((pos 0, int_value (if eqb_state s.state listening then 1 else 0)), s, t)
get_option get_broadcast s t = done ((pos 0, untouched), s, t)
get_option get_rcvtimeo s t =
    done ((pos 0, timeval_value (timespec_to_timeval s.recv_timeout)), s, t)
get_option get_sndtimeo s t =
    done ((pos 0, timeval_value (timespec_to_timeval s.send_timeout)), s, t)
get_option get_type s t = done ((pos 0, int_value s.type), s, t)
get_option get_unknown s t = refuse (minus_one, untouched) einval s t

module _ {W : Type 0} (drv : Driver W) where
  unfoldable pub setsockopt : ℤ → ℕ → SetOption → Layer W → Run (ℤ × Layer W)
  setsockopt sockfd level opt t =
      with_socket drv minus_one sockfd
        (λ s t'.
          if not (level == sol_socket) then refuse minus_one einval s t' else set_option opt s t')
        t

  unfoldable pub getsockopt : ℤ → ℕ → GetOption → Layer W → Run ((ℤ × OptionValue) × Layer W)
  getsockopt sockfd level opt t =
      with_socket drv (minus_one, untouched) sockfd
        (λ s t'.
          if not (level == sol_socket)
          then refuse (minus_one, untouched) einval s t'
          else get_option opt s t')
        t

-- The size of `struct sockaddr_in`, with its padding.
abbrev pub sockaddr_size : ℕ
sockaddr_size = 12

-- What a call for a name gives: its value; how many bytes of which structure it copies to
-- `*address`; and `*address_len`, where it writes that.
abbrev pub Name : Type 0
Name = ℤ × Option (ℕ × SockAddr) × Option ℕ

-- A negative length is a large `size_t`.
abbrev pub name_len : Option ℤ → ℕ
name_len none = sockaddr_size
name_len (some len) = if ltb sockaddr_size (to_unsigned len) then sockaddr_size else to_unsigned len

abbrev pub len_after : Option ℤ → Option ℕ
len_after none = none
len_after (some len) = some (name_len (some len))

unfoldable pub get_sockaddr_in :
    {W : Type 0} → SockAddr → Bool → Option ℤ → Socket → Layer W → Run (After W Name)
get_sockaddr_in sock_addr has_address address_len s t =
    if not has_address
    then refuse (minus_one, none, len_after address_len) einval s t
    else done ((pos 0, some (name_len address_len, sock_addr), len_after address_len), s, t)

module _ {W : Type 0} (drv : Driver W) where
  -- `has_address` is whether `address` is not NULL; `address_len` is `*address_len`, if any.
  unfoldable pub getsockname : ℤ → Bool → Option ℤ → Layer W → Run (Name × Layer W)
  getsockname sockfd has_address address_len t =
      with_socket drv (minus_one, none, none) sockfd
        (λ s t'.
          if s.sockname.sin_family == af_unspec
          then refuse (minus_one, none, none) einval s t'
          else get_sockaddr_in s.sockname has_address address_len s t')
        t

  unfoldable pub getpeername : ℤ → Bool → Option ℤ → Layer W → Run (Name × Layer W)
  getpeername sockfd has_address address_len t =
      with_socket drv (minus_one, none, none) sockfd
        (λ s t'.
          if s.dest_address.sin_family == af_unspec
          then refuse (minus_one, none, none) enotconn s t'
          else get_sockaddr_in s.dest_address has_address address_len s t')
        t

  abbrev pub w5100_mac_addr : List ℕ
  w5100_mac_addr = 0x80 ∷ 0x81 ∷ 0x82 ∷ 0x83 ∷ 0x84 ∷ 0x85 ∷ []

  abbrev pub reset_round : W → Run (W ⊎ W)
  reset_round w =
      let (mr, w') = w5100_read_byte drv.spi 0x0000 w in
      done (if bit_and mr 0x80 == 0 then inr w' else inl w')

  abbrev pub configure : ℕ → ℕ → ℕ → W → W
  configure ip gateway subnet w =
      let w1 = w5100_write_byte drv.spi 0x001b 0x55 (w5100_write_byte drv.spi 0x001a 0x55 w) in
      let w2 = w5100_write_mem drv.spi 0x0009 w5100_mac_addr w1 in
      let w3 = w5100_write_mem drv.spi 0x000f (bytes32 ip) w2 in
      let w4 = w5100_write_mem drv.spi 0x0001 (bytes32 gateway) w3 in
      w5100_write_mem drv.spi 0x0005 (bytes32 subnet) w4

  -- `w5100_init` sets up the pins, through the hardware library; the addresses are the values of
  -- `inet_addr` on the three constants.
  unfoldable pub w5100_socket_init : ℕ → (W → W) → ℕ → ℕ → ℕ → Layer W → Run (Layer W)
  w5100_socket_init rounds w5100_init ip gateway subnet t = do
    w ← repeat rounds reset_round (w5100_write_byte drv.spi 0x0000 0x80 (w5100_init t.world))
    done (record t { sockets = map socket_free t.sockets; world = configure ip gateway subnet w })
