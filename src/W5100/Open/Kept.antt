-- ===== src/W5100/Open/Kept.antt =====
-- Making and closing sockets keep the table sound.
use nucleo_tests.Base.{
  ℕ, suc, ◌≡◌, refl, subst, inl, inr, arith, true, false, not, ◌&&◌, Option, none, some, List, [],
  ◌∷◌, get_elem?, set, All, All-get, ◌+◌, ◌==◌, Bool-cases, Option-cases, if_both, set-set,
}
use nucleo_tests.Base.Run.{Post, Post-if, Post-then}
use nucleo_tests.Base.Int.{ℤ, pos, negsuc, minus_one, eqb_ℤ, eqb_ℤ-minus_one}
use nucleo_tests.File.{Files, file_alloc}
use nucleo_tests.W5100.State.{
  is_set, SockState, state_none, created, connected, bound, listening, accepted, disconnected,
  eqb_state, Socket, Layer, Driver, entry_at,
}
use nucleo_tests.W5100.State.Moves.{
  SoundAt, IsSound, Goes-refl, Goes-closed, Goes-tested, SoundAt-tested, eq_of_eqb_state,
  may_follow, Follows-refl, Follows-set, Kept, Moved, with_socket-Moved,
}
use nucleo_tests.W5100.Open.{
  has_fd, socket_free, end_by, listen_again, close_own, close_connection, close_socket,
  w5100_sock_close, free_from, mark, new_socket, socket_alloc, socket_create, socket,
  with_descriptor, with_slot,
}

is_set-has_fd :
    (fd : ℤ) (files : Files) (o : Option ℕ) → has_fd fd (entry_at files o) ≡ true → is_set o ≡ true
is_set-has_fd fd files none h = h
is_set-has_fd fd files (some j) h = refl

-- A socket with a connection and its own descriptor is not lost.
may_relisten :
    (a : SockState) (s : Socket)
    → SoundAt a s
    → is_set s.connection_data ≡ true
    → is_set s.fd_data ≡ true
    → (eqb_ℤ s.fd minus_one ≡ false) × (may_follow a listening ≡ true)
may_relisten state_none s h c d = cc
may_relisten created s h c d = cc
may_relisten connected s h c d = cc
may_relisten bound s h c d = cc
may_relisten listening s h c d = (h.0, refl)
may_relisten accepted s h c d = (h.0, refl)
may_relisten disconnected s h c d = absurd (ground arith)

module _ {W : Type 0} (drv : Driver W) (rounds : ℕ) where
  close_own-Kept :
      (s : Socket) (t : Layer W) → IsSound s → Post (Kept s t) (close_own drv rounds s t)
  unfolding close_own
  close_own-Kept s t h =
      Post-if (Kept s t) (eqb_state s.state accepted) _ _
        (λ e. (
          Goes-tested accepted accepted s (record s { fd_data = none }) e refl
              (eq_of_eqb_state s.state accepted e) (SoundAt-tested accepted s h e),
          refl,
        ))
        (λ e.
          Post-then (Kept s t) (end_by drv rounds _ s.isocket t.world) _
            (λ w. (Goes-closed s (socket_free s) (refl, refl, refl) refl, refl)))

  close_connection-Kept :
      (s : Socket) (t : Layer W)
      → IsSound s
      → is_set s.connection_data ≡ true
      → Post (Kept s t) (close_connection drv rounds s t)
  unfolding close_connection
  close_connection-Kept s t h c =
      Post-then (Kept s t) (end_by drv rounds 8 s.isocket t.world) _ (λ w.
        elim (Option-cases s.fd_data) [
          | inl e ↦ rw e (Goes-closed s (socket_free s) (refl, refl, refl) refl, refl)
          | inr (j, e) ↦
              let own : is_set s.fd_data ≡ true = rw e in
              let r = may_relisten s.state s h c own in
              rw e (
                Post-then (Kept s t) (listen_again drv rounds s.isocket w) _
                  (λ w'. (((r.0, own), r.1), refl)))
        ])

  close_socket-Kept :
      (fd : ℤ) (s : Socket) (t : Layer W)
      → IsSound s
      → Post (Kept s t) (close_socket drv rounds fd s t)
  close_socket-Kept fd s t h =
      Post-if (Kept s t) (has_fd fd (entry_at t.files s.fd_data)) _ _ (λ e. close_own-Kept s t h)
        (λ e.
          Post-if (Kept s t) (has_fd fd (entry_at t.files s.connection_data)) _ _
            (λ e'. close_connection-Kept s t h (is_set-has_fd fd t.files s.connection_data e'))
            (λ e'. (Goes-refl s h, refl)))

  pub w5100_sock_close-Moved :
      (fd : ℤ) (t : Layer W)
      → All IsSound t.sockets
      → Post (Moved t) (w5100_sock_close drv rounds fd t)
  unfolding w5100_sock_close
  w5100_sock_close-Moved fd t h =
      with_socket-Moved drv minus_one fd (close_socket drv rounds fd) t h
        (λ s i. close_socket-Kept fd s t i)

-- The entry that a search from index `k` finds.
abbrev pub FreeAt : ℕ → List Socket → Option (ℕ × Socket) → Type 0
FreeAt k xs none = Unit
FreeAt k xs (some (i, s)) =
    (j : ℕ) × (i ≡ k + j) × (get_elem? xs j ≡ some s) × (eqb_ℤ s.fd minus_one ≡ true)

FreeAt-suc :
    (k : ℕ) (x : Socket) (xs : List Socket) (o : Option (ℕ × Socket))
    → FreeAt (suc k) xs o
    → FreeAt k (x ∷ xs) o
FreeAt-suc k x xs none h = tt
FreeAt-suc k x xs (some (i, s)) (j, e, at, free) = (suc j, omega arith, at, free)

pub free_from-FreeAt : (k : ℕ) (xs : List Socket) → FreeAt k xs (free_from k xs)
unfolding free_from
free_from-FreeAt k [] = tt
free_from-FreeAt k (x ∷ xs) = elim (Bool-cases (eqb_ℤ x.fd minus_one)) [
  | inl e ↦ rw e (0, omega arith, refl, e)
  | inr e ↦ rw e (FreeAt-suc k x xs (free_from (suc k) xs) (free_from-FreeAt (suc k) xs))
]

-- A free structure is in no state.
pub none_of_free :
    (a : SockState) (s : Socket) → SoundAt a s → eqb_ℤ s.fd minus_one ≡ true → a ≡ state_none
none_of_free state_none s h e = refl
none_of_free created s h e = cc (h.0)
none_of_free connected s h e = cc (h.0)
none_of_free bound s h e = cc (h.0)
none_of_free listening s h e = cc (h.0)
none_of_free accepted s h e = cc (h.0)
none_of_free disconnected s h e = cc (h.0)

module _ {W : Type 0} (drv : Driver W) where
  -- The table, where entry `i` was the free `s` and has been marked.
  with_descriptor-Moved :
      (type i : ℕ) (s s1 : Socket) (r : ℤ × Files) (t u : Layer W)
      → All IsSound t.sockets
      → get_elem? t.sockets i ≡ some s
      → s.state ≡ state_none
      → u.sockets ≡ set t.sockets i s1
      → Moved t (with_descriptor drv type i s1 r u)
  with_descriptor-Moved type i s s1 (negsuc n, files) t u h at e m =
      rw (m, set-set t.sockets i s1 (socket_free s1))
        (Follows-set t.sockets i s (socket_free s1) h at
          (Goes-closed s (socket_free s1) (refl, refl, refl) refl))
  with_descriptor-Moved type i s s1 (pos fd, files) t u h at e m =
      let s2 = new_socket fd i type s1 in
      rw (m, set-set t.sockets i s1 s2)
        (Follows-set t.sockets i s s2 h at ((eqb_ℤ-minus_one fd, refl, refl), rw e refl))

  with_slot-Moved :
      (type : ℕ) (t : Layer W) (o : Option (ℕ × Socket))
      → All IsSound t.sockets
      → FreeAt 0 t.sockets o
      → Moved t (with_slot drv type (mark o t))
  with_slot-Moved type t none h found = Follows-refl t.sockets h
  with_slot-Moved type t (some (i, s)) h (j, e, there, free) =
      let at : get_elem? t.sockets i ≡ some s =
        subst (λ n. get_elem? t.sockets n ≡ some s) (omega (arith, e)) there in
      let s1 = record s { fd = pos i } in
      with_descriptor-Moved type i s s1 (file_alloc t.files) t
        (record t { sockets = set t.sockets i s1 }) h at
        (none_of_free s.state s (All-get IsSound t.sockets i s h at) free) refl

  socket_create-Moved :
      (type : ℕ) (t : Layer W) → All IsSound t.sockets → Moved t (socket_create drv type t)
  unfolding socket_create socket_alloc
  socket_create-Moved type t h =
      with_slot-Moved type t (free_from 0 t.sockets) h (free_from-FreeAt 0 t.sockets)

  pub socket-Moved :
      (domain type protocol : ℕ) (t : Layer W)
      → All IsSound t.sockets
      → Moved t (socket drv domain type protocol t)
  unfolding socket
  socket-Moved domain type protocol t h =
      let same = Follows-refl t.sockets h in
      if_both (Moved t) (not (domain == 1)) _ _ same (
        if_both (Moved t) (not (type == 1) && not (type == 2) && not (type == 3)) _ _ same
          (if_both (Moved t) (not (protocol == 0)) _ _ same (socket_create-Moved type t h)))
