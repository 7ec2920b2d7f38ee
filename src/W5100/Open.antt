-- ===== src/W5100/Open.antt =====
-- src/w5100_socket.c: making a socket and closing a descriptor of one.
pub mod Kept
pub mod Outcome
pub mod Close
use nucleo_tests.Base.{
  ℕ, zero, suc, ◌+◌, Bool, true, false, not, ◌&&◌, ◌||◌, Option, none, some, List, [], ◌∷◌, ◌==◌,
  if◌then◌else◌, get_elem?, set,
}
use nucleo_tests.Base.Run.{Run, done, fault, ◌>>=◌}
use nucleo_tests.Base.Int.{ℤ, pos, negsuc, minus_one, eqb_ℤ}
use nucleo_tests.File.{Fd, Files, Stat, file_alloc, file_free}
use nucleo_tests.Timespec.{timespec_zero}
use nucleo_tests.W5100.Ring.{w5100_command}
use nucleo_tests.W5100.State.{
  SockState, state_none, created, connected, listening, accepted, eqb_state, SockErrno,
  eafnosupport, ebadf, enfile, enomem, eprotonosupport, eprototype, af_inet, af_unspec, sock_stream,
  sock_dgram, sock_raw, Socket, SockAddr, Layer, Driver, After, refuse, with_socket, entry_at,
  write_sock_reg, wait_status,
}

abbrev pub filled : {W : Type 0} → Driver W → ℕ → Fd → Fd
filled drv isocket f = record f {
  isatty = false;
  isopen = true;
  write = drv.sock_write;
  read = drv.sock_read;
  close = drv.sock_close;
  poll = drv.sock_poll;
  stat = record f.stat { st_mode = drv.sock_mode };
  status_flags = drv.o_rdwr;
  opaque = suc isocket;
}

abbrev pub put_filled : {W : Type 0} → Driver W → ℕ → ℕ → Option Fd → Files → Files
put_filled drv sockfd isocket none files = files
put_filled drv sockfd isocket (some f) files = set files sockfd (filled drv isocket f)

-- The file table after `fill_fd_struct`, which returns the index `sockfd`; `st_blksize` is not read
-- by the layer. Its callers have `sockfd` from `file_alloc`.
unfoldable pub fill_fd_struct : {W : Type 0} → Driver W → ℕ → ℕ → Files → Files
fill_fd_struct drv sockfd isocket files =
    put_filled drv sockfd isocket (get_elem? files sockfd) files

-- The first free socket from index `i` on.
unfoldable pub free_from : ℕ → List Socket → Option (ℕ × Socket)
free_from i [] = none
free_from i (s ∷ rest) =
    let later = free_from (suc i) rest in if eqb_ℤ s.fd minus_one then some (i, s) else later

abbrev pub mark : {W : Type 0} → Option (ℕ × Socket) → Layer W → Option (ℕ × Socket) × Layer W
mark none t = (none, record t { errno = enfile })
mark (some (i, s)) t = (
  some (i, record s { fd = pos i }),
  record t { sockets = set t.sockets i (record s { fd = pos i }) },
)

-- The index with its structure, which is marked by the index.
unfoldable pub socket_alloc : {W : Type 0} → Layer W → Option (ℕ × Socket) × Layer W
socket_alloc t = mark (free_from 0 t.sockets) t

abbrev pub socket_free : Socket → Socket
socket_free s = record s {
  fd = minus_one;
  fd_data = none;
  connection_data = none;
  state = state_none;
}

abbrev pub sock_mode_of : ℕ → ℕ
sock_mode_of type =
    if type == sock_stream
    then 1
    else (if type == sock_dgram then 2 else (if type == sock_raw then 3 else 1))

abbrev pub new_socket : ℕ → ℕ → ℕ → Socket → Socket
new_socket fd isocket type s = record s {
  fd = pos fd;
  isocket = isocket;
  domain = af_inet;
  type = type;
  protocol = 0;
  state = created;
  dest_address = record s.dest_address { sin_family = af_unspec };
  sockname = record s.sockname { sin_family = af_unspec };
  fd_data = some fd;
  connection_data = none;
  recv_timeout = timespec_zero;
  send_timeout = timespec_zero;
  can_broadcast = false;
}

module _ {W : Type 0} (drv : Driver W) where
  abbrev pub with_descriptor : ℕ → ℕ → Socket → ℤ × Files → Layer W → ℤ × Layer W
  with_descriptor type i s (negsuc _, files) t =
      (minus_one, record t { sockets = set t.sockets i (socket_free s); errno = enfile })
  with_descriptor type i s (pos fd, files) t = (
    pos fd,
    record t {
      sockets = set t.sockets i (new_socket fd i type s);
      files = fill_fd_struct drv fd i files;
      world = write_sock_reg drv 0 i (sock_mode_of type) t.world;
    },
  )

  abbrev pub with_slot : ℕ → Option (ℕ × Socket) × Layer W → ℤ × Layer W
  with_slot type (none, t) = (minus_one, record t { errno = enomem })
  with_slot type (some (i, s), t) = with_descriptor type i s (file_alloc t.files) t

  unfoldable pub socket_create : ℕ → Layer W → ℤ × Layer W
  socket_create type t = with_slot type (socket_alloc t)

  unfoldable pub socket : ℕ → ℕ → ℕ → Layer W → ℤ × Layer W
  socket domain type protocol t =
      if not (domain == af_inet)
      then (minus_one, record t { errno = eafnosupport })
      else (if not (type == sock_stream) && not (type == sock_dgram) && not (type == sock_raw)
          then (minus_one, record t { errno = eprototype })
          else (if not (protocol == 0)
              then (minus_one, record t { errno = eprotonosupport })
              else socket_create type t))

-- `p->isopen = 0; file_free(p->fd);`
abbrev pub release : ℕ → Option Fd → Files → Files
release j none files = files
release j (some f) files =
    let files' = set files j (record f { isopen = false }) in file_free files' (pos f.fd)

-- Whether a pointer is not NULL and its structure has this descriptor.
abbrev pub has_fd : ℤ → Option Fd → Bool
has_fd fd none = false
has_fd fd (some f) = eqb_ℤ (pos f.fd) fd

abbrev pub release_at : Option ℕ → Files → Files
release_at none files = files
release_at (some j) files = release j (get_elem? files j) files

abbrev pub is_closed : ℕ → Bool
is_closed sr = sr == 0

-- `W5100_SOCK_LISTEN` and `W5100_SOCK_ESTABLISHED`.
abbrev pub is_listening : ℕ → Bool
is_listening sr = sr == 0x14 || sr == 0x17

module _ {W : Type 0} (drv : Driver W) (rounds : ℕ) where
  -- A command and the wait for `W5100_SOCK_CLOSED`.
  abbrev pub end_by : ℕ → ℕ → W → Run W
  end_by cmd isocket w = do
    w1 ← w5100_command drv.spi rounds isocket cmd w
    r ← wait_status drv rounds isocket is_closed w1
    done r.1

  -- Opening again and listening.
  abbrev pub listen_again : ℕ → W → Run W
  listen_again isocket w = do
    w1 ← w5100_command drv.spi rounds isocket 0x01 w
    w2 ← w5100_command drv.spi rounds isocket 0x02 w1
    r ← wait_status drv rounds isocket is_listening w2
    done r.1

  -- The descriptor is the socket's own.
  unfoldable pub close_own : Socket → Layer W → Run (After W ℤ)
  close_own s t =
      let s1 = record s { fd_data = none } in
      let t1 = record t { files = release_at s.fd_data t.files } in
      if eqb_state s.state accepted then done (pos 0, s1, t1) else (do
        w ← end_by (if eqb_state s.state connected then 0x08 else 0x10) s.isocket t1.world
        done (pos 0, socket_free s1, record t1 { world = w }))

  -- The descriptor is that of the accepted connection.
  unfoldable pub close_connection : Socket → Layer W → Run (After W ℤ)
  close_connection s t = do
    w ← end_by 0x08 s.isocket t.world
    let s1 = record s { connection_data = none }
    let t1 = record t { files = release_at s.connection_data t.files; world = w }
    elim s.fd_data [
      | none ↦ done (pos 0, socket_free s1, t1)
      | some j ↦ (do
        w' ← listen_again s.isocket w
        done (pos 0, record s1 { state = listening }, record t1 { world = w' }))
    ]

  abbrev pub close_socket : ℤ → Socket → Layer W → Run (After W ℤ)
  close_socket fd s t =
      if has_fd fd (entry_at t.files s.fd_data)
      then close_own s t
      else (if has_fd fd (entry_at t.files s.connection_data)
          then close_connection s t
          else refuse minus_one ebadf s t)

  unfoldable pub w5100_sock_close : ℤ → Layer W → Run (ℤ × Layer W)
  w5100_sock_close fd t = with_socket drv minus_one fd (close_socket fd) t
