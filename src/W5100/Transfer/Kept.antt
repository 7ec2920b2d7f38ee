-- ===== src/W5100/Transfer/Kept.antt =====
-- Receiving keeps the table sound, and so does a lost connection.
use nucleo_tests.Base.{
  ℕ, ◌≡◌, ◌⊎◌, inl, inr, refl, sym, ◌∙◌, subst, arith, true, false, not, ◌&&◌, ◌||◌, Bool, Option,
  none, some, ◌==◌, leb, All, Bool-cases, if_both, length,
}
use nucleo_tests.Base.Run.{Post, Post->>=, Post-if, Post-then, Post-repeat, Either, done}
use nucleo_tests.Base.Int.{ℤ, minus_one, eqb_ℤ}
use nucleo_tests.Timespec.{Timespec}
use nucleo_tests.W5100.Ring.{read_buf, read_buf_len, read_buf_recv}
use nucleo_tests.W5100.State.{
  is_set, connected, listening, accepted, disconnected, eqb_state, Socket, Layer, Driver, After,
  nonblock_of, entry_at, read_sock_reg,
}
use nucleo_tests.W5100.State.Moves.{
  IsSound, Goes, Goes-refl, Goes-tested, SoundAt-tested, Kept, Moved, with_socket-Moved,
}
use nucleo_tests.W5100.Open.{end_by, listen_again}
use nucleo_tests.W5100.Connect.{is_established}
use nucleo_tests.W5100.Transfer.{
  timeout_ended, timeout_of, disconnect, manage_disconnect, recv_again, recv_lost, recv_stream,
  take_datagram, recv_dgram, recv_round, cannot_recv, recvfrom_socket, recvfrom,
}

-- The socket has a connection.
abbrev pub is_live : Socket → Bool
is_live s = eqb_state s.state accepted || eqb_state s.state connected

-- A lost connection after which the chip does not listen again.
Goes-disconnected :
    (s : Socket)
    → IsSound s
    → is_live s ≡ true
    → (eqb_state s.state accepted && is_set s.fd_data) ≡ false
    → Goes s (record s { state = disconnected })
Goes-disconnected s h live alone = elim (Bool-cases (eqb_state s.state accepted)) [
  | inl e ↦
      let a = SoundAt-tested accepted s h e in
      let none_own : is_set s.fd_data ≡ false = cc (e, alone) in
      Goes-tested accepted disconnected s (record s { state = disconnected }) e refl refl
        (a.0, rw none_own)
  | inr e ↦
      let c : eqb_state s.state connected ≡ true = cc (e, live) in
      let a = SoundAt-tested connected s h c in
      Goes-tested connected disconnected s (record s { state = disconnected }) c refl refl
        (a.0, rw (a.1, a.2))
]

true_of_and : (a b : Bool) → (a && b) ≡ true → (a ≡ true) × (b ≡ true)
true_of_and true b h = (refl, h)
true_of_and false b h = cc

-- What holds after `manage_disconnect`: unless it reports a lost connection, `*s` is as it was.
abbrev pub Managed : {W : Type 0} → Socket → Layer W → After W ℤ → Type 0
Managed s t (ret, s', t') =
    (Goes s s' × (t'.sockets ≡ t.sockets)) × ((eqb_ℤ ret minus_one ≡ true) ⊎ (s' ≡ s))

-- What holds before a round of a loop: `*s` is as it was.
abbrev pub Before : {W : Type 0} → Socket → Layer W → Socket × Layer W → Type 0
Before s t (s', t') = (s' ≡ s) × (t'.sockets ≡ t.sockets)

module _ {W : Type 0} (drv : Driver W) where
  pub timeout_ended-sockets :
      (tom : Option Timespec) (t : Layer W) → (timeout_ended drv tom t).1.sockets ≡ t.sockets
  unfolding timeout_ended
  timeout_ended-sockets none t = refl
  timeout_ended-sockets (some end) t =
      if_both (λ (r : Bool × Layer W). r.1.sockets ≡ t.sockets) _ _ _ refl refl

  pub timeout_of-sockets :
      (nonblock : Bool) (timeout : Timespec) (t : Layer W)
      → (timeout_of drv nonblock timeout t).1.sockets ≡ t.sockets
  timeout_of-sockets nonblock timeout t =
      if_both (λ (r : Option Timespec × Layer W). r.1.sockets ≡ t.sockets) nonblock _ _ refl refl

module _ {W : Type 0} (drv : Driver W) (rounds : ℕ) where
  disconnect-Managed :
      (s : Socket) (t u : Layer W)
      → IsSound s
      → is_live s ≡ true
      → u.sockets ≡ t.sockets
      → Post (Managed s t) (disconnect drv rounds s u)
  disconnect-Managed s t u h live m =
      Post-then (Managed s t) (end_by drv rounds 8 s.isocket u.world) _ (λ w.
        Post-if (Managed s t) (eqb_state s.state accepted && is_set s.fd_data) _ _
          (λ e.
            let both = true_of_and (eqb_state s.state accepted) (is_set s.fd_data) e in
            let a = both.0 in
            let own = both.1 in
            Post-then (Managed s t) (listen_again drv rounds s.isocket w) _ (λ w'. (
              (
                Goes-tested accepted listening s (record s { state = listening }) a refl refl
                    ((SoundAt-tested accepted s h a).0, own),
                m,
              ),
              inl refl,
            )))
          (λ e. ((Goes-disconnected s h live e, m), inl refl)))

  pub manage_disconnect-Managed :
      (s : Socket) (t u : Layer W)
      → IsSound s
      → is_live s ≡ true
      → u.sockets ≡ t.sockets
      → Post (Managed s t) (manage_disconnect drv rounds s u)
  unfolding manage_disconnect
  manage_disconnect-Managed s t u h live m =
      Post-if (Managed s t) (not (is_established (read_sock_reg drv 3 s.isocket u.world).0)) _ _
        (λ e. disconnect-Managed s t _ h live m) (λ e. ((Goes-refl s h, m), inr refl))

  recv_again-Either :
      (nonblock : Bool) (tom : Option Timespec) (s s' : Socket) (t u : Layer W)
      → IsSound s
      → Before s t (s', u)
      → Either (Before s t) (Kept s t) (recv_again drv rounds nonblock tom s' u)
  recv_again-Either nonblock tom s s' t u h b =
      let kept : Goes s s' = subst (λ x. Goes s x) (sym b.0) (Goes-refl s h) in
      let m : (timeout_ended drv tom u).1.sockets ≡ t.sockets =
        timeout_ended-sockets drv tom u ∙ b.1 in
      if_both (Either (Before s t) (Kept s t)) nonblock _ _ (kept, b.1)
        (if_both (Either (Before s t) (Kept s t)) (timeout_ended drv tom u).0 _ _ (kept, m)
          (b.0, m))

  recv_lost-Either :
      (nonblock : Bool) (tom : Option Timespec) (s : Socket) (t : Layer W) (r : After W ℤ)
      → IsSound s
      → Managed s t r
      → Either (Before s t) (Kept s t) (recv_lost drv rounds nonblock tom r)
  recv_lost-Either nonblock tom s t (ret, s', u) h (k, inl e) = rw e k
  recv_lost-Either nonblock tom s t (ret, s', u) h (k, inr e) =
      if_both (Either (Before s t) (Kept s t)) (eqb_ℤ ret minus_one) _ _ k
        (recv_again-Either nonblock tom s s' t u h (e, k.1))

  recv_stream-Either :
      (len : ℕ) (nonblock : Bool) (tom : Option Timespec) (s : Socket) (t u : Layer W)
      → IsSound s
      → is_live s ≡ true
      → u.sockets ≡ t.sockets
      → Post (Either (Before s t) (Kept s t)) (recv_stream drv rounds len nonblock tom (s, u))
  unfolding recv_stream
  recv_stream-Either len nonblock tom s t u h live m =
      Post-then _ (read_buf drv.spi rounds s.isocket len u.world) _ (λ r.
        Post-if _ (not (length r.0 == 0)) _ _ (λ e. (Goes-refl s h, m))
          (λ e.
            Post->>= (Managed s t) (Either (Before s t) (Kept s t))
              (manage_disconnect drv rounds s (record u { world = r.1 })) _
              (manage_disconnect-Managed s t (record u { world = r.1 }) h live m)
              (λ after k. recv_lost-Either nonblock tom s t after h k)))

  take_datagram-Kept :
      (wants : Bool) (s : Socket) (t u : Layer W)
      → IsSound s
      → u.sockets ≡ t.sockets
      → Post (Kept s t) (take_datagram drv rounds wants s u)
  unfolding take_datagram
  take_datagram-Kept wants s t u h m =
      Post-then (Kept s t) (read_buf_recv drv.spi rounds s.isocket _ _) _ (λ w. (Goes-refl s h, m))

  recv_dgram-Either :
      (wants nonblock : Bool) (tom : Option Timespec) (s : Socket) (t u : Layer W)
      → IsSound s
      → u.sockets ≡ t.sockets
      → Post (Either (Before s t) (Kept s t)) (recv_dgram drv rounds wants nonblock tom (s, u))
  unfolding recv_dgram
  recv_dgram-Either wants nonblock tom s t u h m =
      let r = read_buf_len drv.spi s.isocket u.world in
      let u' = record u { world = r.1 } in
      Post-if (Either (Before s t) (Kept s t)) (leb 8 r.0) _ _
        (λ e.
          Post->>= (Kept s t) (Either (Before s t) (Kept s t)) (take_datagram drv rounds wants s u')
            (λ a. done (inr a)) (take_datagram-Kept wants s t u' h m) (λ a k. k))
        (λ e. recv_again-Either nonblock tom s s t u' h (refl, m))

  recv_round-Either :
      (len : ℕ) (wants nonblock : Bool) (tom : Option Timespec) (s : Socket) (t : Layer W)
      (r : Socket × Layer W)
      → IsSound s
      → (s.type == 1 ≡ true → is_live s ≡ true)
      → Before s t r
      → Post (Either (Before s t) (Kept s t)) (recv_round drv rounds len wants nonblock tom r)
  recv_round-Either len wants nonblock tom s t (s', u) h live b =
      subst
        (λ x.
          Post (Either (Before s t) (Kept s t))
            (recv_round drv rounds len wants nonblock tom (x, u)))
        (sym b.0)
        (Post-if _ (s.type == 1) _ _ (λ e. recv_stream-Either len nonblock tom s t u h (live e) b.1)
          (λ e.
            Post-if _ (s.type == 2) _ _ (λ e'. recv_dgram-Either wants nonblock tom s t u h b.1)
              (λ e'. recv_again-Either nonblock tom s s t u h (refl, b.1))))

  recvfrom_socket-Kept :
      (len : ℕ) (wants : Bool) (s : Socket) (t : Layer W)
      → IsSound s
      → Post (Kept s t) (recvfrom_socket drv rounds len wants s t)
  recvfrom_socket-Kept len wants s t h =
      Post-if (Kept s t) (cannot_recv s) _ _ (λ a. (Goes-refl s h, refl))
        (λ a.
          Post-if (Kept s t) (len == 0) _ _ (λ b. (Goes-refl s h, refl))
            (λ b. Post-then (Kept s t) (nonblock_of drv (entry_at t.files s.fd_data)) _ (λ nonblock.
              Post-repeat (Before s t) (Kept s t) rounds _
                (λ r k.
                  recv_round-Either len wants nonblock _ s t r h (λ e. ground (arith, a, e)) k)
                _ (refl, timeout_of-sockets drv nonblock s.recv_timeout t))))

  pub recvfrom-Moved :
      (fd : ℤ) (len : ℕ) (wants : Bool) (t : Layer W)
      → All IsSound t.sockets
      → Post (Moved t) (recvfrom drv rounds fd len wants t)
  unfolding recvfrom
  recvfrom-Moved fd len wants t h =
      with_socket-Moved drv _ fd (recvfrom_socket drv rounds len wants) t h
        (λ s i. recvfrom_socket-Kept len wants s t i)
