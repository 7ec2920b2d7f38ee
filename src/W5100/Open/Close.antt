-- ===== src/W5100/Open/Close.antt =====
-- Closing gives back the socket and its descriptor.
use nucleo_tests.Base.{
  ℕ, ◌<◌, ◌≡◌, ◌≢◌, refl, sym, ◌∙◌, subst, inl, inr, arith, true, false, not, ◌&&◌, some, get_elem?,
  set, set-set, length, All, ◌==◌, get_elem?-set_self, get_elem?-set_ne, lt_of_get_elem?,
}
use nucleo_tests.Base.Run.{Returns, Returns->>=, Returns-weaken, ◌>>=◌}
use nucleo_tests.Base.Int.{ℤ, pos, minus_one, eqb_ℤ_iff}
use nucleo_tests.File.{Fd, Files, file_free, fresh_fd, is_allocated, open_max}
use nucleo_tests.File.Free.{file_free_lem}
use nucleo_tests.W5100.State.{
  state_none, accepted, eqb_state, af_inet, Socket, Layer, Driver, entry_at, After, put_back,
}
use nucleo_tests.W5100.State.Moves.{IsSound}
use nucleo_tests.W5100.State.Held.{IsHeld, with_socket-IsHeld}
use nucleo_tests.W5100.Open.{
  filled, socket_free, new_socket, socket, close_own, close_socket, end_by, has_fd, release,
  release_at, w5100_sock_close,
}
use nucleo_tests.W5100.Open.Outcome.{IsMade, socket-Made}

-- What `close` leaves: the structure free, the descriptor free, and the rest as it was.
abbrev pub IsReleased : {W : Type 0} → Layer W → ℕ → ℕ → Socket → ℤ × Layer W → Type 0
IsReleased t fd i s (ret, t') =
    (ret ≡ pos 0)
    × (t'.sockets ≡ set t.sockets i (socket_free s))
    × (is_allocated t'.files fd ≡ false)
    × ((j : ℕ) → fd ≢ j → get_elem? t'.files j ≡ get_elem? t.files j)

-- As before a socket was made on `fd`, but for a free structure and a free descriptor.
abbrev pub IsGone : {W : Type 0} → Layer W → ℕ → ℤ × Layer W → Type 0
IsGone t fd (ret, t') =
    (ret ≡ pos 0)
    × (is_allocated t'.files fd ≡ false)
    × ((j : ℕ) → fd ≢ j → get_elem? t'.files j ≡ get_elem? t.files j)
    × ((i : ℕ) × ((s : Socket) × (get_elem? t'.sockets i ≡ some s)
          × (s.fd ≡ minus_one)
          × (s.state ≡ state_none))
        × ((j : ℕ) → i ≢ j → get_elem? t'.sockets j ≡ get_elem? t.sockets j))

pub release_lem :
    (files : Files) (fd : ℕ) (f : Fd)
    → fd < open_max
    → f.fd ≡ fd
    → (is_allocated (release fd (some f) files) fd ≡ false)
      × ((j : ℕ) → fd ≢ j → get_elem? (release fd (some f) files) j ≡ get_elem? files j)
release_lem files fd f l e =
    let shut = record f { isopen = false } in
    let freed = file_free_lem (set files fd shut) fd l in
    subst
      (λ d.
        (is_allocated (file_free (set files fd shut) (pos d)) fd ≡ false)
        × ((j : ℕ)
            → fd ≢ j
            → get_elem? (file_free (set files fd shut) (pos d)) j ≡ get_elem? files j))
      (sym e) (freed.0, λ j ne. freed.1 j ne ∙ get_elem?-set_ne files shut ne)

module _ {W : Type 0} (drv : Driver W) (rounds : ℕ) where
  close_own-IsReleased :
      (t : Layer W) (fd i : ℕ) (f : Fd) (s : Socket)
      → fd < open_max
      → get_elem? t.files fd ≡ some f
      → f.fd ≡ fd
      → s.fd_data ≡ some fd
      → eqb_state s.state accepted ≡ false
      → ((cmd : ℕ) (w : W) → Returns (λ x. Unit) (end_by drv rounds cmd s.isocket w))
      → Returns (IsReleased t fd i s) (close_own drv rounds s t >>= put_back i)
  unfolding close_own
  close_own-IsReleased t fd i f s l at e own live ends =
      let files : release_at s.fd_data t.files ≡ release fd (some f) t.files = rw (own, at) in
      let r = release_lem t.files fd f l e in
      let Q = λ (a : After W ℤ).
        IsReleased t fd i s (a.0, record a.2 { sockets = set a.2.sockets i a.1 }) in
      rw live (
        Returns->>= Q (IsReleased t fd i s) _ (put_back i)
          (Returns->>= (λ x. Unit) Q (end_by drv rounds _ s.isocket t.world) _ (ends _ _)
            (λ w u. (refl, refl, rw files (r.0), rw files (r.1))))
          (λ a q. q))

  -- `close` of the descriptor of a socket, where it is the socket's own and no connection is accepted,
  -- and where the chip closes its side after a command: 0 is returned; the structure is free and in
  -- no state; the descriptor is free; and the other structures and file entries are as they were.
  pub close_releases :
      {t : Layer W} {fd : ℕ} {f : Fd} {i : ℕ} {s : Socket}
      → IsHeld drv t fd f i s
      → f.fd ≡ fd
      → s.fd_data ≡ some fd
      → eqb_state s.state accepted ≡ false
      → ((cmd : ℕ) (w : W) → Returns (λ x. Unit) (end_by drv rounds cmd s.isocket w))
      → Returns (IsReleased t fd i s) (w5100_sock_close drv rounds (pos fd) t)
  unfolding w5100_sock_close
  close_releases {t} {fd} {f} {i} {s} h e own live ends =
      let mine : has_fd (pos fd) (entry_at t.files s.fd_data) ≡ true =
        rw (own, h.entry, e) ((eqb_ℤ_iff (pos fd) (pos fd)).1 refl) in
      rw (with_socket-IsHeld _ (close_socket drv rounds (pos fd)) h, mine)
        (close_own-IsReleased t fd i f s h.in_range h.entry e own live ends)

  -- What `socket` has made, `close` takes back.
  made_then_closed :
      (type fd i : ℕ) (t t' : Layer W) (s : Socket)
      → length t.files ≡ open_max
      → drv.s_issock drv.sock_mode ≡ true
      → ((cmd i : ℕ) (w : W) → Returns (λ x. Unit) (end_by drv rounds cmd i w))
      → IsMade drv type t t' fd i s
      → Returns (IsGone t fd) (w5100_sock_close drv rounds (pos fd) t')
  made_then_closed type fd i t t' s size mode ends m =
      let f = filled drv i (fresh_fd fd) in
      let new = new_socket fd i type s in
      let in_files : fd < length t.files = omega (arith, m.lowest_range, size) in
      let in_table = lt_of_get_elem? t.sockets i s m.was_free in
      let held : IsHeld drv t' fd f i new = record {
        in_range = m.lowest_range.1;
        entry = rw (m.files) (get_elem?-set_self t.files fd f in_files);
        is_socket = mode;
        points = refl;
        structure = rw (m.sockets) (get_elem?-set_self t.sockets i new in_table);
      } in
      Returns-weaken (IsReleased t' fd i new) (IsGone t fd) _
        (close_releases held refl refl refl (λ cmd w. ends cmd i w))
        (λ r c. (
          c.0,
          c.2,
          λ j ne. c.3 j ne ∙ rw (m.files) (get_elem?-set_ne t.files f ne),
          (
            i,
            (
              socket_free new,
              rw (c.1, m.sockets, set-set t.sockets i new (socket_free new))
                  (get_elem?-set_self t.sockets i (socket_free new) in_table),
              refl,
              refl,
            ),
            λ j ne.
                rw (c.1, m.sockets, set-set t.sockets i new (socket_free new))
                  (get_elem?-set_ne t.sockets (socket_free new) ne),
          ),
        ))

  -- `socket` and then `close` of the descriptor that it returned, in a sound table and with the
  -- whole file table, where the chip closes its side after a command: 0 is returned, the structure
  -- that was taken is free and in no state, the descriptor is free, and every other structure and
  -- file entry is as it was before `socket`.
  pub socket-close :
      (type fd : ℕ) (t : Layer W)
      → length t.files ≡ open_max
      → All IsSound t.sockets
      → (not (type == 1) && not (type == 2) && not (type == 3)) ≡ false
      → drv.s_issock drv.sock_mode ≡ true
      → ((cmd i : ℕ) (w : W) → Returns (λ x. Unit) (end_by drv rounds cmd i w))
      → (socket drv af_inet type 0 t).0 ≡ pos fd
      → Returns (IsGone t fd) (w5100_sock_close drv rounds (pos fd) (socket drv af_inet type 0 t).1)
  socket-close type fd t size h valid mode ends made = elim (socket-Made drv type t size h valid) [
    | inl (failed, _, _) ↦ absurd (cc (failed, made))
    | inr (fd', i, s, e, m) ↦
        let same : fd' ≡ fd = cc (e, made) in
        made_then_closed type fd i t (socket drv af_inet type 0 t).1 s size mode ends
          (subst (λ d. IsMade drv type t (socket drv af_inet type 0 t).1 d i s) same m)
  ]
