-- ===== src/W5100/State/Moves.antt =====
-- The life of a socket: which states may follow which, and what a structure holds in each state.
use nucleo_tests.Base.{
  ℕ, zero, suc, ◌≡◌, ◌≢◌, inl, inr, Bool-cases, refl, ap, sym, ◌∙◌, subst, arith, All-get, ◌==◌,
  true, false, not, Bool, ◌&&◌, ◌||◌, Option, none, some, List, [], ◌∷◌, get_elem?, set, All,
}
use mathlib.Core.Option.{some-injective}
use nucleo_tests.Base.Run.{Run, Post, Post->>=, Post-if}
use nucleo_tests.Base.Int.{ℤ, minus_one, eqb_ℤ}
use nucleo_tests.File.{Fd, file_struct_get, deref}
use nucleo_tests.W5100.State.{
  is_set, socket_of_entry, socket_of_pointer, SockState, state_none, created, connected, bound,
  listening, accepted, disconnected, eqb_state, state_code, Socket, Layer, Driver, After, on_found,
  on_socket, put_back, with_socket, get_socket_from_fd, get_socket_from_isocket,
}

-- The states that may follow a state, other than itself and being closed.
abbrev pub is_next : SockState → SockState → Bool
is_next state_none b = eqb_state b created
is_next created b = eqb_state b connected || eqb_state b bound
is_next connected b = eqb_state b disconnected
is_next bound b = eqb_state b listening
is_next listening b = eqb_state b accepted
is_next accepted b = eqb_state b listening || eqb_state b disconnected
is_next disconnected b = false

abbrev pub may_follow : SockState → SockState → Bool
may_follow a b = eqb_state a b || eqb_state b state_none || is_next a b

-- What a structure holds in a state: whether it is taken, and which of its two pointers are set.
abbrev pub SoundAt : SockState → Socket → Type 0
SoundAt state_none s =
    (eqb_ℤ s.fd minus_one ≡ true) × (is_set s.fd_data ≡ false) × (is_set s.connection_data ≡ false)
SoundAt created s =
    (eqb_ℤ s.fd minus_one ≡ false) × (is_set s.fd_data ≡ true) × (is_set s.connection_data ≡ false)
SoundAt connected s =
    (eqb_ℤ s.fd minus_one ≡ false) × (is_set s.fd_data ≡ true) × (is_set s.connection_data ≡ false)
SoundAt bound s =
    (eqb_ℤ s.fd minus_one ≡ false) × (is_set s.fd_data ≡ true) × (is_set s.connection_data ≡ false)
SoundAt listening s = (eqb_ℤ s.fd minus_one ≡ false) × (is_set s.fd_data ≡ true)
SoundAt accepted s = (eqb_ℤ s.fd minus_one ≡ false) × (is_set s.connection_data ≡ true)
SoundAt disconnected s =
    (eqb_ℤ s.fd minus_one ≡ false) × (is_set s.fd_data && is_set s.connection_data ≡ false)

abbrev pub IsSound : Socket → Type 0
IsSound s = SoundAt s.state s

-- A change of one structure that a call may make.
abbrev pub Goes : Socket → Socket → Type 0
Goes s s' = IsSound s' × (may_follow s.state s'.state ≡ true)

-- The same of a whole table.
abbrev pub Follows : List Socket → List Socket → Type 0
Follows [] [] = Unit
Follows [] (x ∷ ys) = ⊥
Follows (x ∷ xs) [] = ⊥
Follows (x ∷ xs) (y ∷ ys) = Goes x y × Follows xs ys

state_of : ℕ → SockState
state_of zero = state_none
state_of (suc zero) = created
state_of (suc (suc zero)) = connected
state_of (suc (suc (suc zero))) = bound
state_of (suc (suc (suc (suc zero)))) = listening
state_of (suc (suc (suc (suc (suc zero))))) = accepted
state_of (suc (suc (suc (suc (suc (suc n)))))) = disconnected

state_of-state_code : (a : SockState) → state_of (state_code a) ≡ a
unfolding state_of
state_of-state_code state_none = refl
state_of-state_code created = refl
state_of-state_code connected = refl
state_of-state_code bound = refl
state_of-state_code listening = refl
state_of-state_code accepted = refl
state_of-state_code disconnected = refl

pub eq_of_eqb_state : (a b : SockState) → eqb_state a b ≡ true → a ≡ b
eq_of_eqb_state a b h =
    let e : state_code a ≡ state_code b = ground arith in
    sym (state_of-state_code a) ∙ ap state_of e ∙ state_of-state_code b

pub eqb_state-false : (a b : SockState) → a ≢ b → eqb_state a b ≡ false
eqb_state-false a b ne = elim (Bool-cases (eqb_state a b)) [
  | inl e ↦ absurd (ne (eq_of_eqb_state a b e))
  | inr e ↦ e
]

pub may_follow_refl : (a : SockState) → may_follow a a ≡ true
may_follow_refl state_none = refl
may_follow_refl created = refl
may_follow_refl connected = refl
may_follow_refl bound = refl
may_follow_refl listening = refl
may_follow_refl accepted = refl
may_follow_refl disconnected = refl

-- Only three fields count.
pub SoundAt-alike :
    (a : SockState) (s s' : Socket)
    → s'.fd ≡ s.fd
    → s'.fd_data ≡ s.fd_data
    → s'.connection_data ≡ s.connection_data
    → SoundAt a s
    → SoundAt a s'
SoundAt-alike state_none s s' e f g h = rw (e, f, g) h
SoundAt-alike created s s' e f g h = rw (e, f, g) h
SoundAt-alike connected s s' e f g h = rw (e, f, g) h
SoundAt-alike bound s s' e f g h = rw (e, f, g) h
SoundAt-alike listening s s' e f g h = rw (e, f) h
SoundAt-alike accepted s s' e f g h = rw (e, g) h
SoundAt-alike disconnected s s' e f g h = rw (e, f, g) h

pub Goes-refl : (s : Socket) → IsSound s → Goes s s
Goes-refl s h = (h, may_follow_refl s.state)

-- Closing may follow every state.
pub Goes-closed : (s s' : Socket) → SoundAt state_none s' → s'.state ≡ state_none → Goes s s'
Goes-closed s s' h e = (subst (λ a. SoundAt a s') (sym e) h, rw e (ground arith))

-- A change from a state that the code has tested for.
pub SoundAt-tested :
    (a : SockState) (s : Socket) → IsSound s → eqb_state s.state a ≡ true → SoundAt a s
SoundAt-tested a s h e = subst (λ b. SoundAt b s) (eq_of_eqb_state s.state a e) h

pub Goes-tested :
    (a b : SockState) (s s' : Socket)
    → eqb_state s.state a ≡ true
    → may_follow a b ≡ true
    → s'.state ≡ b
    → SoundAt b s'
    → Goes s s'
Goes-tested a b s s' e f e' h =
    (subst (λ c. SoundAt c s') (sym e') h, rw (eq_of_eqb_state s.state a e, e') f)

pub Follows-refl : (xs : List Socket) → All IsSound xs → Follows xs xs
Follows-refl [] h = tt
Follows-refl (x ∷ xs) h = (Goes-refl x h.0, Follows-refl xs h.1)

-- One structure changes, and the others are as they were.
pub Follows-set :
    (xs : List Socket) (i : ℕ) (s s' : Socket)
    → All IsSound xs
    → get_elem? xs i ≡ some s
    → Goes s s'
    → Follows xs (set xs i s')
Follows-set [] i s s' h e g = tt
Follows-set (x ∷ xs) zero s s' h e g =
    (subst (λ y. Goes y s') (sym (some-injective x s e)) g, Follows-refl xs h.1)
Follows-set (x ∷ xs) (suc i) s s' h e g = (Goes-refl x h.0, Follows-set xs i s s' h.1 e g)

pub All-Follows : (xs ys : List Socket) → Follows xs ys → All IsSound ys
All-Follows [] [] h = tt
All-Follows [] (y ∷ ys) h = absurd h
All-Follows (x ∷ xs) [] h = absurd h
All-Follows (x ∷ xs) (y ∷ ys) h = (h.0.0, All-Follows xs ys h.1)

-- What holds after a function on `s`: `*s` has made a permitted change, and the table has not been
-- touched otherwise.
abbrev pub Kept : {W A : Type 0} → Socket → Layer W → After W A → Type 0
Kept s t (ret, s', t') = Goes s s' × (t'.sockets ≡ t.sockets)

-- What holds after a call.
abbrev pub Moved : {W A : Type 0} → Layer W → A × Layer W → Type 0
Moved t (ret, t') = Follows t.sockets t'.sockets

on_socket-Moved :
    {W A : Type 0} (i : ℕ) (o : Option Socket) (k : Socket → Layer W → Run (After W A))
    (t : Layer W)
    → All IsSound t.sockets
    → get_elem? t.sockets i ≡ o
    → ((s : Socket) → IsSound s → Post (Kept s t) (k s t))
    → Post (Moved t) (on_socket i o k t)
on_socket-Moved i none k t h e step = tt
on_socket-Moved i (some s) k t h e step =
    Post->>= (Kept s t) (Moved t) (k s t) (put_back i) (step s (All-get IsSound t.sockets i s h e))
      (λ r g. rw (g.1) (Follows-set t.sockets i s r.1 h e g.0))

-- A descriptor's socket is found in the state as it was.
abbrev Looked : {W : Type 0} → Layer W → Option ℕ × Layer W → Type 0
Looked t (none, t') = t'.sockets ≡ t.sockets
Looked t (some i, t') = t' ≡ t

socket_of_entry-Looked :
    {W : Type 0} (drv : Driver W) (o : Option Fd) (t : Layer W)
    → Post (Looked t) (socket_of_entry drv o t)
socket_of_entry-Looked drv none t = tt
socket_of_entry-Looked drv (some f) t =
    Post-if (Looked t) (not (drv.s_issock f.stat.st_mode)) _ _ (λ a. refl)
      (λ b. Post-if (Looked t) (f.opaque == 0) _ _ (λ a. refl) (λ c. refl))

socket_of_pointer-Looked :
    {W : Type 0} (drv : Driver W) (o : Option ℤ) (t : Layer W)
    → Post (Looked t) (socket_of_pointer drv o t)
socket_of_pointer-Looked drv none t = refl
socket_of_pointer-Looked drv (some p) t = socket_of_entry-Looked drv (deref t.files p) t

on_found-Moved :
    {W A : Type 0} (nothing : A) (k : Socket → Layer W → Run (After W A)) (t : Layer W)
    (r : Option ℕ × Layer W)
    → All IsSound t.sockets
    → ((s : Socket) → IsSound s → Post (Kept s t) (k s t))
    → Looked t r
    → Post (Moved t) (on_found nothing k r)
unfolding get_socket_from_isocket
on_found-Moved nothing k t (none, t') h step e = rw e (Follows-refl t.sockets h)
on_found-Moved nothing k t (some i, t') h step e =
    subst (λ u. Post (Moved t) (on_socket i (get_elem? u.sockets i) k u)) (sym e)
      (on_socket-Moved i (get_elem? t.sockets i) k t h refl step)

-- A call that works on the socket of a descriptor, by what it does to that socket.
pub with_socket-Moved :
    {W A : Type 0} (drv : Driver W) (nothing : A) (fd : ℤ) (k : Socket → Layer W → Run (After W A))
    (t : Layer W)
    → All IsSound t.sockets
    → ((s : Socket) → IsSound s → Post (Kept s t) (k s t))
    → Post (Moved t) (with_socket drv nothing fd k t)
unfolding get_socket_from_fd
with_socket-Moved drv nothing fd k t h step =
    Post->>= (Looked t) (Moved t) (socket_of_pointer drv (file_struct_get fd) t)
      (on_found nothing k) (socket_of_pointer-Looked drv (file_struct_get fd) t)
      (λ r e. on_found-Moved nothing k t r h step e)
