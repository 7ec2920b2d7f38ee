-- ===== src/Tests/Sockets.antt =====
-- Sockets on a chip that answers 0 to everything, and on one with a fixed memory.
use nucleo_tests.Base.{
  ℕ, zero, suc, ◌+◌, ◌*◌, ◌≡◌, refl, arith, true, false, none, some, List, [], ◌∷◌, ◌==◌, length,
  replicate, set, All, if◌then◌else◌,
}
use nucleo_tests.Base.Run.{Post, Returns, done, fault, ◌>>=◌}
use nucleo_tests.Base.Int.{pos, minus_one, i32, ◌-ℤ◌}
use nucleo_tests.File.{Fd, Files, zero_fd, fresh_fd, file_alloc, file_alloc_from}
use nucleo_tests.Timespec.{timespec_zero, timespec_diff, diff_of}
use nucleo_tests.Inet.{ntohs}
use nucleo_tests.W5100.{Spi, w5100_read_mem, read_mem_from, w5100_read_byte, w5100_write_byte}
use nucleo_tests.W5100.Ring.{
  write_buf, write_buf_len, read_buf_len, read_buf_recv, w5100_command, wait_command,
}
use nucleo_tests.W5100.State.{
  SockErrno, state_none, connected, disconnected, accepted, bound, SockAddr, Socket, Layer, Driver,
  wait_status,
}
use nucleo_tests.W5100.State.Moves.{IsSound, Follows}
use nucleo_tests.W5100.State.Held.{IsHeld}
use nucleo_tests.W5100.Open.{
  filled, new_socket, socket_create, socket_alloc, free_from, socket, w5100_sock_close, end_by,
}
use nucleo_tests.W5100.Open.Close.{IsGone, socket-close}
use nucleo_tests.W5100.Query.{w5100_socket_init}
use nucleo_tests.W5100.Calls.{Call, a_socket, a_close, run_call, run_calls}
use nucleo_tests.W5100.Calls.Life.{run_call-Follows, run_calls-init}
use nucleo_tests.W5100.Calls.Errors.{close-then_faults}
use nucleo_tests.W5100.Calls.Lost.{announced, send_lost, recvfrom-announced}
use nucleo_tests.W5100.Transfer.{recvfrom, timeout_init}
use nucleo_tests.W5100.Send.{send}

-- The state is the time.
abbrev silent : Spi ℕ
silent = record { transfer = λ b w. (0, w); select = λ w. w; deselect = λ w. w }

abbrev driver : {W : Type 0} → Spi W → Driver W
driver spi = record {
  spi = spi;
  clock_monotonic = λ w. (timespec_zero, w);
  s_issock = λ mode. mode == 0xc000;
  sock_mode = 0xc000;
  o_rdwr = pos 2;
  o_nonblock = λ flags. false;
  sock_write = 1;
  sock_read = 2;
  sock_close = 3;
  sock_poll = 4;
}

abbrev drv : Driver ℕ
drv = driver silent

abbrev nowhere : SockAddr
nowhere = record { sin_family = 4; sin_addr = 0; sin_port = 0 }

abbrev free_socket : Socket
free_socket = record {
  fd = minus_one;
  isocket = 0;
  domain = 0;
  type = 0;
  protocol = 0;
  state = state_none;
  sockname = nowhere;
  dest_address = nowhere;
  can_broadcast = false;
  recv_timeout = timespec_zero;
  send_timeout = timespec_zero;
  fd_data = none;
  connection_data = none;
}

abbrev layer_with : {W : Type 0} → W → Socket → Files → Layer W
layer_with w s files = record {
  sockets = s ∷ free_socket ∷ free_socket ∷ free_socket ∷ [];
  files = files;
  errno = SockErrno.other 0;
  world = w;
}

abbrev no_files : Files
no_files = replicate 20 zero_fd

abbrev entry : Fd
entry = filled drv 0 (fresh_fd 3)

abbrev start : Layer ℕ
start = layer_with 5 free_socket no_files

abbrev created_socket : Socket
created_socket = new_socket 3 0 1 free_socket

-- A socket of descriptor 3.
abbrev holding : Socket → Layer ℕ
holding s = layer_with 5 s (set no_files 3 entry)

holding_it : (s : Socket) → IsHeld drv (holding s) 3 entry 0 s
holding_it s = record {
  in_range = omega arith;
  entry = refl;
  is_socket = refl;
  points = refl;
  structure = refl;
}

All-free : All IsSound start.sockets
All-free =
    ((refl, refl, refl), ((refl, refl, refl), ((refl, refl, refl), ((refl, refl, refl), tt))))

All-IsSound : All IsSound (holding created_socket).sockets
All-IsSound =
    ((refl, refl, refl), ((refl, refl, refl), ((refl, refl, refl), ((refl, refl, refl), tt))))

closes : (cmd i : ℕ) (w : ℕ) → Returns (λ x. Unit) (end_by drv 3 cmd i w)
unfolding w5100_command wait_command wait_status w5100_read_byte w5100_write_byte
closes cmd i w = tt

made : (socket drv 1 1 0 start).0 ≡ pos 3
unfolding socket socket_create socket_alloc free_from file_alloc file_alloc_from
made = refl

run_call-Follows_example :
    Post
      (λ t'. Follows (holding created_socket).sockets t'.sockets)
      (run_call drv 3 (a_close (pos 3)) (holding created_socket))
run_call-Follows_example =
    run_call-Follows drv 3 (a_close (pos 3)) (holding created_socket) All-IsSound

abbrev program : List Call
program = a_socket 1 1 0 ∷ a_close (pos 3) ∷ []

run_calls-init_example :
    Post
      (λ t'. All IsSound t'.sockets)
      (w5100_socket_init drv 3 (λ w. w) 1 2 3 start >>= run_calls drv 3 program)
run_calls-init_example = run_calls-init drv 3 (λ w. w) 1 2 3 program start

socket-close_example :
    Returns (IsGone start 3) (w5100_sock_close drv 3 (pos 3) (socket drv 1 1 0 start).1)
socket-close_example = socket-close drv 3 1 3 start refl All-free refl refl closes made

-- A connection on descriptor 4 that was accepted on descriptor 3.
abbrev served : Socket
served = record created_socket { state = accepted; connection_data = some 4 }

abbrev its_entry : Fd
its_entry = filled drv 0 (fresh_fd 4)

abbrev serving : Layer ℕ
serving = layer_with 5 served (set (set no_files 3 entry) 4 its_entry)

close-then_faults_example :
    (t' : Layer ℕ) × (w5100_sock_close drv 3 (pos 3) serving ≡ done (pos 0, t'))
    × (recvfrom drv 3 (pos 4) 100 false t' ≡ fault)
    × (send drv 3 (pos 4) (7 ∷ []) t' ≡ fault)
close-then_faults_example =
    close-then_faults drv 3 false 99 (7 ∷ []) on_listener on_connection (ground arith) refl refl
      refl refl
  where
    on_listener : IsHeld drv serving 3 entry 0 served
    on_listener = record {
      in_range = omega arith;
      entry = refl;
      is_socket = refl;
      points = refl;
      structure = refl;
    }

    on_connection : IsHeld drv serving 4 its_entry 0 served
    on_connection = record {
      in_range = omega arith;
      entry = refl;
      is_socket = refl;
      points = refl;
      structure = refl;
    }

abbrev client : Socket
client = record created_socket { state = connected }

send_lost_example :
    Returns
      (λ r.
        (r.0 ≡ pos 0) × (r.1.sockets ≡ (holding (record client { state = disconnected })).sockets))
      (send drv 3 (pos 3) (7 ∷ []) (holding client))
unfolding write_buf write_buf_len w5100_read_mem read_mem_from w5100_read_byte ntohs timeout_init
    timespec_diff diff_of i32 ◌-ℤ◌
send_lost_example =
    send_lost drv 2 false (7 ∷ []) 5 (holding_it client) refl refl refl refl refl refl
      (λ w. closes 8 0 w)

-- A chip with a fixed memory, and the bytes of a frame since it was selected.
record Rom : Type 0 where
  count : ℕ
  high : ℕ
  low : ℕ

abbrev rom_byte : ℕ → ℕ
rom_byte a = if a == 0x0401 then 0 else 9

abbrev answered : ℕ → ℕ → Rom → ℕ × Rom
answered zero b c = (0, record c { count = 1 })
answered (suc zero) b c = (0, record c { high = b; count = 2 })
answered (suc (suc zero)) b c = (0, record c { low = b; count = 3 })
answered (suc (suc (suc n))) b c = (rom_byte (256 * c.high + c.low), c)

abbrev rom : Spi Rom
rom = record {
  transfer = λ b c. answered c.count b c;
  select = λ c. record c { count = 0 };
  deselect = λ c. c;
}

abbrev receiver : Socket
receiver = record created_socket { type = 2; state = bound }

abbrev rom_layer : Layer Rom
rom_layer = layer_with (record { count = 0; high = 0; low = 0 }) receiver (set no_files 3 entry)

rom_holding : IsHeld (driver rom) rom_layer 3 entry 0 receiver
rom_holding = record {
  in_range = omega arith;
  entry = refl;
  is_socket = refl;
  points = refl;
  structure = refl;
}

takes : (p : ℕ) (w : Rom) → Returns (λ x. Unit) (read_buf_recv rom 3 0 p w)
unfolding read_buf_recv w5100_command wait_command w5100_read_byte w5100_write_byte
takes p w = tt

recvfrom-announced_example :
    Returns
      (λ r.
        (r.0.0 ≡ pos (announced (driver rom) receiver (read_buf_len rom 0 rom_layer.world).1))
        × (length r.0.1 ≡ announced (driver rom) receiver (read_buf_len rom 0 rom_layer.world).1))
      (recvfrom (driver rom) 3 (pos 3) 4 true rom_layer)
unfolding read_buf_len w5100_read_mem read_mem_from w5100_read_byte ntohs timeout_init timespec_diff
    diff_of i32 ◌-ℤ◌
recvfrom-announced_example =
    recvfrom-announced (driver rom) 2 false true 3 rom_holding refl refl refl takes refl
