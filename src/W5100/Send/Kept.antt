-- ===== src/W5100/Send/Kept.antt =====
-- Sending keeps the table sound.
use nucleo_tests.Base.{
  ℕ, ◌≡◌, inl, inr, refl, sym, ◌∙◌, subst, arith, true, not, ◌&&◌, Bool, Option, none, some, ◌==◌,
  ltb, leb, All, if_both, List, length,
}
use nucleo_tests.Base.Run.{Post, Post->>=, Post-if, Post-then, Post-repeat, Either, repeat}
use nucleo_tests.Base.Int.{ℤ, minus_one, eqb_ℤ}
use nucleo_tests.Timespec.{Timespec}
use nucleo_tests.W5100.Ring.{write_buf, write_buf_len}
use nucleo_tests.W5100.State.{
  accepted, connected, eqb_state, Socket, SockAddr, Layer, Driver, After, nonblock_of, entry_at,
}
use nucleo_tests.W5100.State.Moves.{IsSound, Goes, Goes-refl, Kept, Moved, with_socket-Moved}
use nucleo_tests.W5100.Connect.{check_bind_udp}
use nucleo_tests.W5100.Connect.Kept.{KeptAlone, check_bind_udp-KeptAlone}
use nucleo_tests.W5100.Transfer.{timeout_ended, timeout_of, manage_disconnect}
use nucleo_tests.W5100.Transfer.Kept.{
  is_live, Managed, Before, manage_disconnect-Managed, timeout_ended-sockets, timeout_of-sockets,
}
use nucleo_tests.W5100.Send.{
  send_again, send_round, send_stream, sendto_round, sendto_peer, sendto_bound, sendto_dgram,
  send_socket, send, sendto_socket, sendto,
}

-- What holds before a round of the loop of `send`: `*s` is as it was.
BeforeSend : {W : Type 0} → Socket → Layer W → List ℕ × Socket × Layer W → Type 0
BeforeSend s t (bytes, s', t') = (s' ≡ s) × (t'.sockets ≡ t.sockets)

module _ {W : Type 0} (drv : Driver W) (rounds : ℕ) where
  send_again-Either :
      (nonblock : Bool) (tom : Option Timespec) (bytes : List ℕ) (s : Socket) (t : Layer W)
      (r : After W ℤ)
      → IsSound s
      → Managed s t r
      → Either (BeforeSend s t) (Kept s t) (send_again drv rounds nonblock tom bytes r)
  unfolding BeforeSend
  send_again-Either nonblock tom bytes s t (ret, s', u) h (k, inl e) = rw e k
  send_again-Either nonblock tom bytes s t (ret, s', u) h (k, inr e) =
      let m : (timeout_ended drv tom u).1.sockets ≡ t.sockets =
        timeout_ended-sockets drv tom u ∙ k.1 in
      if_both (Either (BeforeSend s t) (Kept s t)) (eqb_ℤ ret minus_one) _ _ k (
        if_both (Either (BeforeSend s t) (Kept s t)) nonblock _ _ k (
          if_both (Either (BeforeSend s t) (Kept s t)) (timeout_ended drv tom u).0 _ _ (k.0, m)
            (e, m)))

  send_round-Either :
      (nonblock : Bool) (tom : Option Timespec) (bytes : List ℕ) (s : Socket) (t u : Layer W)
      → IsSound s
      → is_live s ≡ true
      → u.sockets ≡ t.sockets
      → Post (Either (BeforeSend s t) (Kept s t)) (send_round drv rounds nonblock tom (bytes, s, u))
  unfolding BeforeSend
  send_round-Either nonblock tom bytes s t u h live m =
      let Q = Either (BeforeSend s t) (Kept {A = List ℕ} s t) in
      Post-if Q (length bytes == 0) _ _ (λ e. (Goes-refl s h, m))
        (λ e. Post-then Q (write_buf drv.spi rounds s.isocket bytes u.world) _ (λ r.
          let u' = record u { world = r.1 } in
          Post-if Q (ltb 0 r.0) _ _ (λ e'. if_both Q nonblock _ _ (Goes-refl s h, m) (refl, m))
            (λ e'.
              Post->>= (Managed s t) Q (manage_disconnect drv rounds s u') _
                (manage_disconnect-Managed drv rounds s t u' h live m)
                (λ after k. send_again-Either nonblock tom bytes s t after h k))))

  send_stream-Kept :
      (buf : List ℕ) (s : Socket) (t : Layer W)
      → IsSound s
      → Post (Kept s t) (send_stream drv rounds buf s t)
  unfolding send_stream BeforeSend
  send_stream-Kept buf s t h =
      Post-if (Kept s t) (not (eqb_state s.state accepted) && not (eqb_state s.state connected)) _ _
        (λ a. (Goes-refl s h, refl))
        (λ a. Post-then (Kept s t) (nonblock_of drv (entry_at t.files s.fd_data)) _ (λ nonblock.
          let tom = timeout_of drv nonblock s.send_timeout t in
          let live : is_live s ≡ true = ground arith in
          Post->>= (Kept s t) (Kept s t)
            (repeat rounds (send_round drv rounds nonblock tom.0) (buf, s, tom.1)) _
            (Post-repeat (BeforeSend s t) (Kept s t) rounds (send_round drv rounds nonblock tom.0)
              (λ r b.
                subst
                  (λ x.
                    Post (Either (BeforeSend s t) (Kept s t))
                      (send_round drv rounds nonblock tom.0 (r.0, x, r.2)))
                  (sym b.0) (send_round-Either nonblock tom.0 r.0 s t r.2 h live b.1))
              (buf, s, tom.1) (refl, timeout_of-sockets drv nonblock s.send_timeout t))
            (λ r k. k)))

  sendto_round-Either :
      (buf : List ℕ) (peer : SockAddr) (nonblock : Bool) (tom : Option Timespec) (s s' : Socket)
      (t : Layer W) (r : Socket × Layer W)
      → Goes s s'
      → Before s' t r
      → Post (Either (Before s' t) (Kept s t)) (sendto_round drv rounds buf peer nonblock tom r)
  sendto_round-Either buf peer nonblock tom s s' t (x, u) g b =
      let Q = Either (Before s' t) (Kept {A = ℤ} s t) in
      let r = write_buf_len drv.spi x.isocket u.world in
      let u1 = record u { world = r.1 } in
      let m : (timeout_ended drv tom u1).1.sockets ≡ t.sockets =
        timeout_ended-sockets drv tom u1 ∙ b.1 in
      let g' : Goes s x = subst (Goes s) (sym b.0) g in
      Post-if Q (leb (length buf) r.0) _ _
        (λ e. Post-then Q (write_buf drv.spi rounds x.isocket buf _) _ (λ a. (g', b.1)))
        (λ e.
          if_both Q nonblock _ _ (g', b.1)
            (if_both Q (timeout_ended drv tom u1).0 _ _ (g', m) (b.0, m)))

  sendto_peer-Kept :
      (buf : List ℕ) (peer : SockAddr) (s s' : Socket) (t u : Layer W)
      → Goes s s'
      → u.sockets ≡ t.sockets
      → Post (Kept s t) (sendto_peer drv rounds buf peer s' u)
  sendto_peer-Kept buf peer s s' t u g m =
      Post-if (Kept s t) (peer.sin_addr == 0xffffffff && not s'.can_broadcast) _ _ (λ a. (g, m))
        (λ a. Post-then (Kept s t) (nonblock_of drv (entry_at u.files s'.fd_data)) _ (λ nonblock.
          let tom = timeout_of drv nonblock s'.send_timeout u in
          Post-repeat (Before s' t) (Kept s t) rounds
            (sendto_round drv rounds buf peer nonblock tom.0)
            (λ r b. sendto_round-Either buf peer nonblock tom.0 s s' t r g b) (s', tom.1)
            (refl, timeout_of-sockets drv nonblock s'.send_timeout u ∙ m)))

  sendto_bound-Kept :
      (buf : List ℕ) (dest : Option SockAddr) (s : Socket) (t : Layer W) (r : Socket × Layer W)
      → KeptAlone s t r
      → Post (Kept s t) (sendto_bound drv rounds buf dest r)
  sendto_bound-Kept buf none s t (s', u) k =
      Post-if (Kept s t) (ltb 2048 (length buf)) _ _ (λ a. k) (λ a. k)
  sendto_bound-Kept buf (some peer) s t (s', u) k =
      Post-if (Kept s t) (ltb 2048 (length buf)) _ _ (λ a. k)
        (λ a. sendto_peer-Kept buf peer s s' t u k.0 k.1)

  sendto_dgram-Kept :
      (buf : List ℕ) (dest : Option SockAddr) (s : Socket) (t : Layer W)
      → IsSound s
      → Post (Kept s t) (sendto_dgram drv rounds buf dest s t)
  unfolding sendto_dgram
  sendto_dgram-Kept buf dest s t h =
      Post->>= (KeptAlone s t) (Kept s t) (check_bind_udp drv rounds s t)
        (sendto_bound drv rounds buf dest) (check_bind_udp-KeptAlone drv rounds s t h)
        (λ r k. sendto_bound-Kept buf dest s t r k)

  pub send-Moved :
      (fd : ℤ) (buf : List ℕ) (t : Layer W)
      → All IsSound t.sockets
      → Post (Moved t) (send drv rounds fd buf t)
  unfolding send
  send-Moved fd buf t h =
      with_socket-Moved drv minus_one fd (send_socket drv rounds buf) t h (λ s i.
        let same : Goes s s = Goes-refl s i in
        Post-if (Kept s t) (s.type == 2) _ _
          (λ a.
            Post-if (Kept s t) (s.dest_address.sin_family == 4) _ _ (λ b. (same, refl))
              (λ b. sendto_dgram-Kept buf (some s.dest_address) s t i))
          (λ a.
            Post-if (Kept s t) (not (s.type == 1)) _ _ (λ b. (same, refl))
              (λ b. send_stream-Kept buf s t i)))

  pub sendto-Moved :
      (fd : ℤ) (buf : List ℕ) (dest : Option SockAddr) (t : Layer W)
      → All IsSound t.sockets
      → Post (Moved t) (sendto drv rounds fd buf dest t)
  unfolding sendto
  sendto-Moved fd buf dest t h =
      with_socket-Moved drv minus_one fd (sendto_socket drv rounds buf dest) t h (λ s i.
        let same : Goes s s = Goes-refl s i in
        Post-if (Kept s t) (s.type == 1) _ _ (λ a. send_stream-Kept buf s t i)
          (λ a.
            Post-if (Kept s t) (s.type == 2) _ _ (λ b. sendto_dgram-Kept buf dest s t i)
              (λ b. (same, refl))))
