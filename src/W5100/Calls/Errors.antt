-- ===== src/W5100/Calls/Errors.antt =====
-- Calls on a connection whose listening descriptor has been closed.
use nucleo_tests.Base.{
  ℕ, suc, ◌≡◌, ◌≢◌, ◌∙◌, refl, arith, true, false, Bool, none, some, List, set, ◌==◌,
  get_elem?-set_self, lt_of_get_elem?,
}
use nucleo_tests.Base.Run.{done, fault}
use nucleo_tests.Base.Int.{pos, eqb_ℤ_iff}
use nucleo_tests.File.{Fd}
use nucleo_tests.W5100.State.{accepted, eqb_state, sock_stream, Socket, Layer, Driver, entry_at}
use nucleo_tests.W5100.State.Held.{IsHeld, with_socket-IsHeld}
use nucleo_tests.W5100.Open.{close_own, close_socket, has_fd, release, release_at, w5100_sock_close}
use nucleo_tests.W5100.Open.Close.{release_lem}
use nucleo_tests.W5100.Transfer.{recvfrom, recvfrom_socket}
use nucleo_tests.W5100.Send.{send, send_socket, send_stream}

module _ {W : Type 0} (drv : Driver W) (rounds : ℕ) where
  -- Where the structure of an accepted connection has no descriptor of its own, a `recvfrom` of one
  -- byte or more and every `send` on the connection read through the null pointer.
  no_own_descriptor_faults :
      {t : Layer W} {fd : ℕ} {f : Fd} {i : ℕ} {s : Socket} (wants : Bool) (len : ℕ) (buf : List ℕ)
      → IsHeld drv t fd f i s
      → s.type ≡ sock_stream
      → s.state ≡ accepted
      → s.fd_data ≡ none
      → (recvfrom drv rounds (pos fd) (suc len) wants t ≡ fault)
        × (send drv rounds (pos fd) buf t ≡ fault)
  unfolding recvfrom send send_stream
  no_own_descriptor_faults {s} wants len buf h tcp a own =
      let some_bytes : (suc len == 0) ≡ false = ground arith in
      let stream : (s.type == 1) ≡ true = ground arith in
      let not_dgram : (s.type == 2) ≡ false = ground arith in
      let live : eqb_state s.state accepted ≡ true = rw a in
      (
        rw
            (
              with_socket-IsHeld _ (recvfrom_socket drv rounds (suc len) wants) h,
              stream,
              not_dgram,
              live,
              some_bytes,
              own,
            )
            refl,
        rw (with_socket-IsHeld _ (send_socket drv rounds buf) h, stream, not_dgram, live, own) refl,
      )

  -- The structure after the listening descriptor of an accepted connection is closed.
  abbrev without_own : Socket → Socket
  without_own s = record s { fd_data = none }

  close_own-accepted :
      {t : Layer W} {fd : ℕ} {f : Fd} {i : ℕ} {s : Socket}
      → IsHeld drv t fd f i s
      → f.fd ≡ fd
      → s.fd_data ≡ some fd
      → s.state ≡ accepted
      → w5100_sock_close drv rounds (pos fd) t
        ≡ done (
          pos 0,
          record t {
            files = release fd (some f) t.files;
            sockets = set t.sockets i (without_own s);
          },
        )
  unfolding w5100_sock_close close_own
  close_own-accepted {t} {fd} {f} {i} {s} h e own a =
      let live : eqb_state s.state accepted ≡ true = rw a in
      let mine : has_fd (pos fd) (entry_at t.files s.fd_data) ≡ true =
        rw (own, h.entry, e) ((eqb_ℤ_iff (pos fd) (pos fd)).1 refl) in
      let files : release_at s.fd_data t.files ≡ release fd (some f) t.files = rw (own, h.entry) in
      rw (with_socket-IsHeld _ (close_socket drv rounds (pos fd)) h, mine, live, files) refl

  -- Where a stream socket has accepted a connection, `close` of the descriptor that it listened on
  -- returns 0; and after it, on the descriptor of the connection, a `recvfrom` of one byte or more
  -- and every `send` read through the null pointer.
  pub close-then_faults :
      {t : Layer W} {fd fd' : ℕ} {f f' : Fd} {i : ℕ} {s : Socket} (wants : Bool) (len : ℕ)
      (buf : List ℕ)
      → IsHeld drv t fd f i s
      → IsHeld drv t fd' f' i s
      → fd ≢ fd'
      → f.fd ≡ fd
      → s.fd_data ≡ some fd
      → s.type ≡ sock_stream
      → s.state ≡ accepted
      → (t' : Layer W) × (w5100_sock_close drv rounds (pos fd) t ≡ done (pos 0, t'))
        × (recvfrom drv rounds (pos fd') (suc len) wants t' ≡ fault)
        × (send drv rounds (pos fd') buf t' ≡ fault)
  close-then_faults {t} {fd} {fd'} {f} {f'} {i} {s} wants len buf h h' ne e own tcp a =
      let t' : Layer W = record t {
        files = release fd (some f) t.files;
        sockets = set t.sockets i (without_own s);
      } in
      let others = (release_lem t.files fd f h.in_range e).1 in
      let held : IsHeld drv t' fd' f' i (without_own s) = record {
        in_range = h'.in_range;
        entry = others fd' ne ∙ h'.entry;
        is_socket = h'.is_socket;
        points = h'.points;
        structure =
            get_elem?-set_self t.sockets i (without_own s)
              (lt_of_get_elem? t.sockets i s h.structure);
      } in
      let faults = no_own_descriptor_faults wants len buf held tcp a refl in
      (t', close_own-accepted h e own a, faults.0, faults.1)
