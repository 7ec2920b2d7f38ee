-- ===== src/W5100/State.antt =====
-- src/w5100_socket.c and include/sys/socket.h: the table of sockets, one for each of the chip's.
-- A pointer into the table or into the file table is an index; as a file's `opaque`, one more than
-- the index, 0 being NULL. A function given `s` takes the structure that it points at and returns
-- it changed; `with_socket` puts it back. A loop that waits has `rounds`.
pub mod Moves
pub mod Held
use nucleo_tests.Base.{
  ℕ, zero, suc, ◌+◌, ◌-◌, ◌%◌, ◌^◌, Bool, true, false, not, ◌||◌, Option, none, some, List, [], ◌∷◌,
  ◌⊎◌, inl, inr, map, ◌==◌, if◌then◌else◌, get_elem?, set,
}
use nucleo_tests.Base.Bytes.{word16, bytes16, word32, bytes32}
use nucleo_tests.Base.Run.{Run, done, fault, repeat, ◌>>=◌}
use nucleo_tests.Base.Int.{ℤ, pos, negsuc, minus_one, eqb_ℤ}
use nucleo_tests.File.{Fd, Files, Stat, file_struct_get, deref}
use nucleo_tests.Inet.{htons}
use nucleo_tests.Timespec.{Timespec, timespec_zero}
use nucleo_tests.W5100.{
  Spi, w5100_read_byte, w5100_write_byte, w5100_read_mem, w5100_write_mem, w5100_sock_reg_get,
}

pub data SockState : Type 0 where
  state_none created connected bound listening accepted disconnected : SockState

-- The values of the enumeration.
abbrev pub state_code : SockState → ℕ
state_code state_none = 0
state_code created = 1
state_code connected = 2
state_code bound = 3
state_code listening = 4
state_code accepted = 5
state_code disconnected = 6

abbrev pub eqb_state : SockState → SockState → Bool
eqb_state a b = state_code a == state_code b

-- The values of `errno` that the calls set.
pub data SockErrno : Type 0 where
  eafnosupport eagain ebadf econnrefused econnreset edestaddrreq einval eisconn emsgsize enfile
        enomem enotconn enotsock eopnotsupp eprotonosupport eprototype etimedout :
      SockErrno
  other : ℕ → SockErrno

abbrev pub af_inet : ℕ
af_inet = 1

abbrev pub af_unspec : ℕ
af_unspec = 4

abbrev pub sock_stream : ℕ
sock_stream = 1

abbrev pub sock_dgram : ℕ
sock_dgram = 2

abbrev pub sock_raw : ℕ
sock_raw = 3

-- `struct sockaddr_in`, the address and the port in network order.
pub record SockAddr : Type 0 where
  pub sin_family : ℕ
  pub sin_addr : ℕ
  pub sin_port : ℕ

pub record Socket : Type 0 where
  pub fd : ℤ
  pub isocket : ℕ
  pub domain : ℕ
  pub type : ℕ
  pub protocol : ℕ
  pub state : SockState
  pub sockname : SockAddr
  pub dest_address : SockAddr
  pub can_broadcast : Bool
  pub recv_timeout : Timespec
  pub send_timeout : Timespec
  pub fd_data : Option ℕ
  pub connection_data : Option ℕ

pub record Layer (W : Type 0) : Type 0 where
  pub sockets : List Socket
  pub files : Files
  pub errno : SockErrno
  pub world : W

-- Whether a pointer is not NULL.
abbrev pub is_set : Option ℕ → Bool
is_set none = false
is_set (some j) = true

-- The chip's link; `CLOCK_MONOTONIC`; the toolchain's file modes and flags; and the addresses of
-- the four functions that the file layer calls.
pub record Driver (W : Type 0) : Type 0 where
  pub spi : Spi W
  pub clock_monotonic : W → Timespec × W
  pub s_issock : ℕ → Bool
  pub sock_mode : ℕ
  pub o_rdwr : ℤ
  pub o_nonblock : ℤ → Bool
  pub sock_write : ℕ
  pub sock_read : ℕ
  pub sock_close : ℕ
  pub sock_poll : ℕ

-- What a function on `s` gives: its value, `*s` and the rest.
abbrev pub After : Type 0 → Type 0 → Type 0
After W A = A × Socket × Layer W

abbrev pub refuse : {W A : Type 0} → A → SockErrno → Socket → Layer W → Run (After W A)
refuse ret e s t = done (ret, s, record t { errno = e })

-- `w5100_sockets[isocket]` where the index is in range, as all the calls have it.
unfoldable pub get_socket_from_isocket : {W : Type 0} → ℕ → Layer W → Option Socket
get_socket_from_isocket isocket t = get_elem? t.sockets isocket

module _ {W : Type 0} (drv : Driver W) where
  abbrev pub socket_of_entry : Option Fd → Layer W → Run (Option ℕ × Layer W)
  socket_of_entry none t = fault
  socket_of_entry (some f) t =
      if not (drv.s_issock f.stat.st_mode)
      then done (none, record t { errno = enotsock })
      else (if f.opaque == 0
          then done (none, record t { errno = ebadf })
          else done (some (f.opaque - 1), t))

  abbrev pub socket_of_pointer : Option ℤ → Layer W → Run (Option ℕ × Layer W)
  socket_of_pointer none t = done (none, record t { errno = ebadf })
  socket_of_pointer (some p) t = socket_of_entry (deref t.files p) t

  unfoldable pub get_socket_from_fd : ℤ → Layer W → Run (Option ℕ × Layer W)
  get_socket_from_fd fd t = socket_of_pointer (file_struct_get fd) t

-- `*s`, handed to the rest of the call and put back.
abbrev pub put_back : {W A : Type 0} → ℕ → After W A → Run (A × Layer W)
put_back i (ret, s, t) = done (ret, record t { sockets = set t.sockets i s })

abbrev pub on_socket :
    {W A : Type 0}
    → ℕ
    → Option Socket
    → (Socket → Layer W → Run (After W A))
    → Layer W
    → Run (A × Layer W)
on_socket i none k t = fault
on_socket i (some s) k t = k s t >>= put_back i

abbrev pub on_found :
    {W A : Type 0}
    → A
    → (Socket → Layer W → Run (After W A))
    → Option ℕ × Layer W
    → Run (A × Layer W)
on_found nothing k (none, t) = done (nothing, t)
on_found nothing k (some i, t) = on_socket i (get_socket_from_isocket i t) k t

-- `s = get_socket_from_fd(fd)`, the value returned where that is NULL, and the rest of the call.
abbrev pub with_socket :
    {W A : Type 0}
    → Driver W
    → A
    → ℤ
    → (Socket → Layer W → Run (After W A))
    → Layer W
    → Run (A × Layer W)
with_socket drv nothing fd k t = get_socket_from_fd drv fd t >>= on_found nothing k

-- `fds->status_flags` through a pointer that may be NULL.
abbrev pub nonblock_of : {W : Type 0} → Driver W → Option Fd → Run Bool
nonblock_of drv none = fault
nonblock_of drv (some f) = done (drv.o_nonblock f.status_flags)

abbrev pub entry_at : Files → Option ℕ → Option Fd
entry_at files none = none
entry_at files (some j) = get_elem? files j

module _ {W : Type 0} (drv : Driver W) where
  -- `w5100_read_sock_reg` and `w5100_write_sock_reg`.
  abbrev pub read_sock_reg : ℕ → ℕ → W → ℕ × W
  read_sock_reg reg isocket w = w5100_read_byte drv.spi (w5100_sock_reg_get reg isocket) w

  abbrev pub write_sock_reg : ℕ → ℕ → ℕ → W → W
  write_sock_reg reg isocket val w = w5100_write_byte drv.spi (w5100_sock_reg_get reg isocket) val w

  -- `w5100_write_sock_regx` of a port or an address, which stays in network order.
  abbrev pub write_port : ℕ → ℕ → ℕ → W → W
  write_port reg isocket port w =
      w5100_write_mem drv.spi (w5100_sock_reg_get reg isocket) (bytes16 port) w

  abbrev pub write_addr : ℕ → ℕ → ℕ → W → W
  write_addr reg isocket addr w =
      w5100_write_mem drv.spi (w5100_sock_reg_get reg isocket) (bytes32 addr) w

  abbrev pub status_round : ℕ → (ℕ → Bool) → W → Run (W ⊎ (ℕ × W))
  status_round isocket enough w =
      let (sr, w') = read_sock_reg 3 isocket w in done (if enough sr then inr (sr, w') else inl w')

  -- `do { sr = w5100_read_sock_reg(W5100_Sn_SR, isocket); } while (...)`
  unfoldable pub wait_status : ℕ → ℕ → (ℕ → Bool) → W → Run (ℕ × W)
  wait_status rounds isocket enough w = repeat rounds (status_round isocket enough) w
