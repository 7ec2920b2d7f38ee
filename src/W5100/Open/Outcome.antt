-- ===== src/W5100/Open/Outcome.antt =====
-- What `socket` makes or leaves alone, and what `close` gives back.
use nucleo_tests.Base.{
  ℕ, ◌≤◌, ◌<◌, ◌≡◌, ◌⊎◌, refl, sym, ◌∙◌, subst, ap, inl, inr, arith, true, false, not, ◌&&◌, Option,
  none, some, get_elem?, set, set-set, set_same, length, All, All-get, ◌==◌, get_elem?-set_self,
}
use nucleo_tests.Base.Int.{ℤ, pos, minus_one, eqb_ℤ, eqb_ℤ_iff}
use nucleo_tests.File.{Files, file_alloc, fresh_fd, is_allocated, open_max}
use nucleo_tests.File.Alloc.{Outcome, file_alloc-Outcome}
use nucleo_tests.W5100.State.{state_none, is_set, af_inet, Socket, Layer, Driver}
use nucleo_tests.W5100.State.Moves.{IsSound, SoundAt}
use nucleo_tests.W5100.Open.{
  filled, fill_fd_struct, mark, free_from, socket_alloc, socket_free, new_socket, with_descriptor,
  with_slot, socket_create, socket,
}
use nucleo_tests.W5100.Open.Kept.{FreeAt, free_from-FreeAt, none_of_free}

-- What a successful `socket` has made of the tables.
pub record IsMade {W : Type 0} (drv : Driver W) (type : ℕ) (t t' : Layer W) (fd i : ℕ) (s : Socket)
    : Type 0 where
  pub was_free : get_elem? t.sockets i ≡ some s
  pub no_state : s.state ≡ state_none
  pub lowest_range : (3 ≤ fd) × (fd < open_max)
  pub not_allocated : is_allocated t.files fd ≡ false
  pub sockets : t'.sockets ≡ set t.sockets i (new_socket fd i type s)
  pub files : t'.files ≡ set t.files fd (filled drv i (fresh_fd fd))

none_of_unset : (o : Option ℕ) → is_set o ≡ false → o ≡ none
none_of_unset none h = refl
none_of_unset (some j) h = cc

-- Freeing a structure that has only been marked gives the free one back.
socket_free-mark :
    (s : Socket) (i : ℕ)
    → IsSound s
    → eqb_ℤ s.fd minus_one ≡ true
    → socket_free (record s { fd = pos i }) ≡ s
socket_free-mark s i h free =
    let a : s.state ≡ state_none = none_of_free s.state s h free in
    let n : SoundAt state_none s = subst (λ b. SoundAt b s) a h in
    let d : s.fd ≡ minus_one = (eqb_ℤ_iff s.fd minus_one).0 free in
    let p : s.fd_data ≡ none = none_of_unset s.fd_data n.1 in
    let q : s.connection_data ≡ none = none_of_unset s.connection_data n.2 in
    sym (λ k. record s { fd = d k; state = a k; fd_data = p k; connection_data = q k })

module _ {W : Type 0} (drv : Driver W) where
  abbrev Made : ℕ → Layer W → ℤ × Layer W → Type 0
  Made type t r =
      ((r.0 ≡ minus_one) × (r.1.sockets ≡ t.sockets) × (r.1.files ≡ t.files))
      ⊎ ((fd : ℕ) × (i : ℕ) × (s : Socket) × (r.0 ≡ pos fd) × IsMade drv type t r.1 fd i s)

  -- The file table after `file_alloc` and `fill_fd_struct`.
  files_filled :
      (files files' : Files) (i fd : ℕ)
      → fd < length files
      → files' ≡ set files fd (fresh_fd fd)
      → fill_fd_struct drv fd i files' ≡ set files fd (filled drv i (fresh_fd fd))
  unfolding fill_fd_struct
  files_filled files files' i fd l e =
      rw (e, get_elem?-set_self files fd (fresh_fd fd) l)
        (set-set files fd (fresh_fd fd) (filled drv i (fresh_fd fd)))

  with_file-Made :
      (type : ℕ) (t : Layer W) (i : ℕ) (s : Socket) (r : ℤ × Files)
      → length t.files ≡ open_max
      → get_elem? t.sockets i ≡ some s
      → IsSound s
      → eqb_ℤ s.fd minus_one ≡ true
      → Outcome t.files 3 open_max r
      → Made type t (
          with_descriptor drv type i
            (record s { fd = pos i })
            r
            (record t { sockets = set t.sockets i (record s { fd = pos i }) }))
  unfolding Outcome
  with_file-Made type t i s r size at sound free (inr (e, all)) =
      rw (e, set-set t.sockets i (record s { fd = pos i }) (socket_free (record s { fd = pos i })))
        (inl (
          refl,
          ap (set t.sockets i) (socket_free-mark s i sound free) ∙ set_same t.sockets i s at,
          refl,
        ))
  with_file-Made type t i s (ret, files') size at sound free (inl (fd, e, found)) = rw e (
      inr (
        fd,
        i,
        s,
        refl,
        record {
          was_free = at;
          no_state = none_of_free s.state s sound free;
          lowest_range = found.in_range;
          not_allocated = found.was_free;
          sockets = set-set t.sockets i (record s { fd = pos i }) (new_socket fd i type s);
          files =
              files_filled t.files files' i fd (omega (arith, found.in_range, size)) found.entry;
        },
      ))

  with_slot-Made :
      (type : ℕ) (t : Layer W) (o : Option (ℕ × Socket))
      → length t.files ≡ open_max
      → All IsSound t.sockets
      → FreeAt 0 t.sockets o
      → Made type t (with_slot drv type (mark o t))
  with_slot-Made type t none size h found = inl (refl, refl, refl)
  with_slot-Made type t (some (i, s)) size h (j, e, there, free) =
      let at : get_elem? t.sockets i ≡ some s =
        subst (λ n. get_elem? t.sockets n ≡ some s) (omega (arith, e)) there in
      let sound = All-get IsSound t.sockets i s h at in
      with_file-Made type t i s (file_alloc t.files) size at sound free (file_alloc-Outcome t.files)

  pub socket-Made :
      (type : ℕ) (t : Layer W)
      → length t.files ≡ open_max
      → All IsSound t.sockets
      → (not (type == 1) && not (type == 2) && not (type == 3)) ≡ false
      → ((socket drv af_inet type 0 t).0 ≡ minus_one)
          × ((socket drv af_inet type 0 t).1.sockets ≡ t.sockets)
          × ((socket drv af_inet type 0 t).1.files ≡ t.files)
        ⊎ ((fd : ℕ) × (i : ℕ) × (s : Socket) × ((socket drv af_inet type 0 t).0 ≡ pos fd)
            × IsMade drv type t (socket drv af_inet type 0 t).1 fd i s)
  unfolding socket socket_create socket_alloc
  socket-Made type t size h valid =
      rw valid (with_slot-Made type t (free_from 0 t.sockets) size h (free_from-FreeAt 0 t.sockets))
