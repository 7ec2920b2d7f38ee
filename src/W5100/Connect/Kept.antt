-- ===== src/W5100/Connect/Kept.antt =====
-- `connect`, `bind`, `listen` and `accept` keep the table sound.
use nucleo_tests.Base.{ℕ, ◌≡◌, refl, arith, true, false, not, ◌||◌, Bool, some, ◌==◌, All}
use nucleo_tests.Base.Run.{Post, Post->>=, Post-if, Post-then, repeat}
use nucleo_tests.Base.Int.{ℤ, pos, negsuc, minus_one}
use nucleo_tests.File.{Files, file_alloc}
use nucleo_tests.W5100.Ring.{w5100_command}
use nucleo_tests.W5100.State.{
  created, connected, bound, listening, accepted, eqb_state, Socket, SockAddr, Layer, Driver,
  nonblock_of, entry_at, wait_status, af_unspec,
}
use nucleo_tests.W5100.State.Moves.{
  IsSound, Goes, Goes-refl, Goes-tested, SoundAt-tested, SoundAt-alike, Kept, Moved,
  with_socket-Moved,
}
use nucleo_tests.W5100.Open.{is_listening}
use nucleo_tests.W5100.Connect.{
  get_avail_port, is_udp, is_established, bind_udp, bound_udp, check_bind_udp, connect_tcp,
  connect_udp, connect_socket, connect, start_connect, value_zero, open_tcp, bind_socket, bind,
  listen_socket, listen, accept_round, accept_with, accept_end, accept_socket, accept,
}

-- The same for a function that returns `*s` and the rest only.
abbrev pub KeptAlone : {W : Type 0} → Socket → Layer W → Socket × Layer W → Type 0
KeptAlone s t (s', t') = Goes s s' × (t'.sockets ≡ t.sockets)

pub true_of_not : (b : Bool) → not b ≡ false → b ≡ true
true_of_not true h = refl
true_of_not false h = cc

module _ {W : Type 0} (drv : Driver W) (rounds : ℕ) where
  pub refuse-Kept :
      {A : Type 0} (ret : A) (s : Socket) (t t' : Layer W)
      → IsSound s
      → t'.sockets ≡ t.sockets
      → Kept s t (ret, s, t')
  refuse-Kept ret s t t' h e = (Goes-refl s h, e)

  bind_udp-KeptAlone :
      (s : Socket) (port : ℕ) (t u : Layer W)
      → IsSound s
      → eqb_state s.state created ≡ true
      → u.sockets ≡ t.sockets
      → Post (KeptAlone s t) (bind_udp drv rounds s port u)
  unfolding bind_udp
  bind_udp-KeptAlone s port t u h e m =
      Post-then (KeptAlone s t) (w5100_command drv.spi rounds s.isocket 1 _) _ (λ w.
        Post-then (KeptAlone s t) (wait_status drv rounds s.isocket is_udp w) _ (λ r. (
          Goes-tested created bound s (bound_udp port s) e refl refl (SoundAt-tested created s h e),
          m,
        )))

  pub check_bind_udp-KeptAlone :
      (s : Socket) (t : Layer W) → IsSound s → Post (KeptAlone s t) (check_bind_udp drv rounds s t)
  unfolding check_bind_udp
  check_bind_udp-KeptAlone s t h =
      Post-if (KeptAlone s t) (eqb_state s.state created) _ _
        (λ e.
          Post-then (KeptAlone s t) (get_avail_port drv rounds t) _
            (λ r. bind_udp-KeptAlone s r.0 t (record t { world = r.1 }) h e refl))
        (λ e. (Goes-refl s h, refl))

  connect_tcp-Kept :
      (addr : SockAddr) (s : Socket) (t : Layer W)
      → IsSound s
      → Post (Kept s t) (connect_tcp drv rounds addr s t)
  unfolding connect_tcp
  connect_tcp-Kept addr s t h =
      let same : Goes s s = Goes-refl s h in
      Post-if (Kept s t) (not (addr.sin_family == 1)) _ _ (λ a. (same, refl))
        (λ a.
          Post-if (Kept s t) (eqb_state s.state connected || eqb_state s.state accepted) _ _
            (λ b. (same, refl))
            (λ b.
              Post-if (Kept s t) (eqb_state s.state listening || not (eqb_state s.state created)) _
                _ (λ c. (same, refl))
                (λ c.
                  let e : eqb_state s.state created ≡ true = ground arith in
                  let s' = record s { state = connected; dest_address = addr } in
                  Post-then (Kept s t) (start_connect drv rounds s.isocket addr t.world) _ (λ r.
                    Post-if (Kept s t) (is_established r.0) _ _
                      (λ d. (
                        Goes-tested created connected s s' e refl refl
                            (SoundAt-tested created s h e),
                        refl,
                      ))
                      (λ d. (same, refl))))))

  connect_udp-Kept :
      (addr : SockAddr) (s : Socket) (t : Layer W)
      → IsSound s
      → Post (Kept s t) (connect_udp drv rounds addr s t)
  unfolding connect_udp
  connect_udp-Kept addr s t h =
      let same : Goes s s = Goes-refl s h in
      let reset = record s.dest_address { sin_family = af_unspec } in
      Post-if (Kept s t) (addr.sin_family == 4) _ _
        (λ a.
          Post->>= (KeptAlone s t) (Kept s t)
            (check_bind_udp drv rounds (record s { dest_address = reset }) t) value_zero
            (check_bind_udp-KeptAlone (record s { dest_address = reset }) t
              (SoundAt-alike s.state s (record s { dest_address = reset }) refl refl refl h))
            (λ r k. k))
        (λ a.
          Post-if (Kept s t) (addr.sin_family == 1) _ _
            (λ b.
              Post->>= (KeptAlone s t) (Kept s t)
                (check_bind_udp drv rounds (record s { dest_address = addr }) t) value_zero
                (check_bind_udp-KeptAlone (record s { dest_address = addr }) t
                  (SoundAt-alike s.state s (record s { dest_address = addr }) refl refl refl h))
                (λ r k. k))
            (λ b. (same, refl)))

  pub connect-Moved :
      (fd : ℤ) (addr : SockAddr) (t : Layer W)
      → All IsSound t.sockets
      → Post (Moved t) (connect drv rounds fd addr t)
  unfolding connect
  connect-Moved fd addr t h =
      with_socket-Moved drv minus_one fd (connect_socket drv rounds addr) t h (λ s i.
        Post-if (Kept s t) (s.type == 1) _ _ (λ a. connect_tcp-Kept addr s t i)
          (λ a.
            Post-if (Kept s t) (s.type == 2) _ _ (λ b. connect_udp-Kept addr s t i)
              (λ b. (Goes-refl s i, refl))))

  bind_socket-Kept :
      (addr : SockAddr) (s : Socket) (t : Layer W)
      → IsSound s
      → Post (Kept s t) (bind_socket drv rounds addr s t)
  bind_socket-Kept addr s t h =
      let same : Goes s s = Goes-refl s h in
      let s' = record s { sockname = addr; state = bound } in
      Post-if (Kept s t) (not (addr.sin_family == 1)) _ _ (λ a. (same, refl))
        (λ a.
          Post-if (Kept s t) (not (eqb_state s.state created)) _ _ (λ b. (same, refl))
            (λ b.
              let e = true_of_not (eqb_state s.state created) b in
              Post-if (Kept s t) (s.type == 1) _ _
                (λ c.
                  Post-then (Kept s t) (open_tcp drv rounds s.isocket addr.sin_port t.world) _ (λ w.
                    (
                      Goes-tested created bound s s' e refl refl (SoundAt-tested created s h e),
                      refl,
                    )))
                (λ c.
                  Post-if (Kept s t) (s.type == 2) _ _
                    (λ d.
                      Post->>= (KeptAlone s t) (Kept s t) (bind_udp drv rounds s addr.sin_port t)
                        value_zero (bind_udp-KeptAlone s addr.sin_port t t h e refl) (λ r k. k))
                    (λ d. (same, refl)))))

  pub bind-Moved :
      (fd : ℤ) (addr : SockAddr) (t : Layer W)
      → All IsSound t.sockets
      → Post (Moved t) (bind drv rounds fd addr t)
  unfolding bind
  bind-Moved fd addr t h =
      with_socket-Moved drv minus_one fd (bind_socket drv rounds addr) t h
        (λ s i. bind_socket-Kept addr s t i)

  pub listen-Moved :
      (fd backlog : ℤ) (t : Layer W)
      → All IsSound t.sockets
      → Post (Moved t) (listen drv rounds fd backlog t)
  unfolding listen
  listen-Moved fd backlog t h =
      with_socket-Moved drv minus_one fd (listen_socket drv rounds) t h (λ s i.
        let same : Goes s s = Goes-refl s i in
        Post-if (Kept s t) (not (eqb_state s.state bound)) _ _ (λ a. (same, refl))
          (λ a.
            let e = true_of_not (eqb_state s.state bound) a in
            let b = SoundAt-tested bound s i e in
            Post-if (Kept s t) (not (s.type == 1)) _ _ (λ c. (same, refl))
              (λ c. Post-then (Kept s t) (w5100_command drv.spi rounds s.isocket 2 t.world) _ (λ w.
                Post-then (Kept s t) (wait_status drv rounds s.isocket is_listening w) _ (λ r. (
                  Goes-tested bound listening s (record s { state = listening }) e refl refl
                      (b.0, b.1),
                  refl,
                ))))))

  accept_with-Kept :
      (wants_addr wants_len : Bool) (s : Socket) (t u : Layer W) (r : ℤ × Files)
      → IsSound s
      → eqb_state s.state listening ≡ true
      → u.sockets ≡ t.sockets
      → Post (Kept s t) (accept_with drv rounds wants_addr wants_len s u r)
  accept_with-Kept wants_addr wants_len s t u (negsuc n, files) h e m =
      Post-then (Kept s t) (w5100_command drv.spi rounds s.isocket 16 u.world) _ (λ w1.
        Post-then (Kept s t) (w5100_command drv.spi rounds s.isocket 1 w1) _ (λ w2.
          Post-then (Kept s t) (w5100_command drv.spi rounds s.isocket 2 w2) _
            (λ w3. (Goes-refl s h, m))))
  accept_with-Kept wants_addr wants_len s t u (pos fd, files) h e m = (
    Goes-tested listening accepted s (record s { state = accepted; connection_data = some fd }) e
        refl refl ((SoundAt-tested listening s h e).0, refl),
    m,
  )

  accept_end-Kept :
      (wants_addr wants_len : Bool) (s : Socket) (t : Layer W) (r : Bool × W)
      → IsSound s
      → eqb_state s.state listening ≡ true
      → Post (Kept s t) (accept_end drv rounds wants_addr wants_len s t r)
  accept_end-Kept wants_addr wants_len s t (false, w) h e = (Goes-refl s h, refl)
  accept_end-Kept wants_addr wants_len s t (true, w) h e =
      accept_with-Kept wants_addr wants_len s t (record t { world = w }) (file_alloc t.files) h e
        refl

  pub accept-Moved :
      (fd : ℤ) (wants_addr wants_len : Bool) (t : Layer W)
      → All IsSound t.sockets
      → Post (Moved t) (accept drv rounds fd wants_addr wants_len t)
  unfolding accept
  accept-Moved fd wants_addr wants_len t h =
      with_socket-Moved drv _ fd (accept_socket drv rounds wants_addr wants_len) t h (λ s i.
        let same : Goes s s = Goes-refl s i in
        Post-if (Kept s t) (not (eqb_state s.state listening)) _ _ (λ a. (same, refl))
          (λ a.
            let e = true_of_not (eqb_state s.state listening) a in
            Post-if (Kept s t) (not (s.type == 1)) _ _ (λ c. (same, refl))
              (λ c.
                Post-then (Kept s t) (nonblock_of drv (entry_at t.files s.fd_data)) _ (λ nonblock.
                  Post-then (Kept s t)
                    (repeat rounds (accept_round drv rounds s.isocket nonblock) t.world) _
                    (λ r. accept_end-Kept wants_addr wants_len s t r i e)))))
