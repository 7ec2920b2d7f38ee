-- ===== src/Dhcp/Message/Filled.antt =====
-- The writes of a request stay in the message and leave none of its bytes as they were.
use nucleo_tests.Base.{
  ℕ, zero, suc, ◌+◌, ◌-◌, ◌<◌, ◌≤◌, ◌≡◌, arith, refl, ap, ◌∙◌, Bool, true, false, ◌&&◌, ◌||◌, List,
  [], ◌∷◌, length, take, get_or, ltb, leb, if◌then◌else◌, Bool-cases, inl, inr, ◌⊎◌, All,
  length-replicate, length-take,
}
use nucleo_tests.Base.Bits.{every_byte, every_byte-lt}
use nucleo_tests.Dhcp.State.{Binding, same_state, selecting, mac_addr_len}
use nucleo_tests.Dhcp.Message.{
  Write, options_of, overwrite, write_at, apply_writes, request_writes, request_message,
  dhcp_message_len_max,
}

length-overwrite : (bytes buf : List ℕ) → length (overwrite bytes buf) ≡ length buf
unfolding overwrite
length-overwrite [] buf = refl
length-overwrite (b ∷ bytes) [] = refl
length-overwrite (b ∷ bytes) (x ∷ buf) = ap suc (length-overwrite bytes buf)

length-write_at : (n : ℕ) (bytes buf : List ℕ) → length (write_at n bytes buf) ≡ length buf
unfolding write_at
length-write_at zero bytes buf = length-overwrite bytes buf
length-write_at (suc n) bytes [] = refl
length-write_at (suc n) bytes (x ∷ buf) = ap suc (length-write_at n bytes buf)

length-apply_writes : (ws : List Write) (buf : List ℕ) → length (apply_writes ws buf) ≡ length buf
unfolding apply_writes
length-apply_writes [] buf = refl
length-apply_writes (w ∷ ws) buf =
    length-apply_writes ws (write_at w.offset w.bytes buf) ∙ length-write_at w.offset w.bytes buf

-- Whether a byte lies in a range of some length that starts at an offset.
abbrev in_range : ℕ → ℕ → ℕ → Bool
in_range offset size i = leb offset i && ltb i (offset + size)

get_or-overwrite :
    (bytes buf : List ℕ) (i : ℕ)
    → i < length buf
    → get_or (overwrite bytes buf) i 0
      ≡ (if ltb i (length bytes) then get_or bytes i 0 else get_or buf i 0)
unfolding overwrite
get_or-overwrite [] buf i h = ground arith
get_or-overwrite (b ∷ bytes) [] i h = absurd (omega arith)
get_or-overwrite (b ∷ bytes) (x ∷ buf) zero h = ground arith
get_or-overwrite (b ∷ bytes) (x ∷ buf) (suc i) h = ground (arith, get_or-overwrite bytes buf i)

get_or-write_at :
    (n : ℕ) (bytes buf : List ℕ) (i : ℕ)
    → i < length buf
    → get_or (write_at n bytes buf) i 0
      ≡ (if in_range n (length bytes) i then get_or bytes (i - n) 0 else get_or buf i 0)
unfolding write_at
get_or-write_at zero bytes buf i h = ground (arith, get_or-overwrite bytes buf i)
get_or-write_at (suc n) bytes [] i h = absurd (omega arith)
get_or-write_at (suc n) bytes (x ∷ buf) zero h = ground arith
get_or-write_at (suc n) bytes (x ∷ buf) (suc i) h = ground (arith, get_or-write_at n bytes buf i)

-- Whether some write of a list reaches a byte.
abbrev covered : List Write → ℕ → Bool
covered [] i = false
covered (w ∷ ws) i = in_range w.offset (length w.bytes) i || covered ws i

write_at-same :
    (n : ℕ) (bytes buf buf' : List ℕ) (i : ℕ)
    → i < length buf
    → i < length buf'
    → (in_range n (length bytes) i ≡ true) ⊎ (get_or buf i 0 ≡ get_or buf' i 0)
    → get_or (write_at n bytes buf) i 0 ≡ get_or (write_at n bytes buf') i 0
write_at-same n bytes buf buf' i h h' (inl e) =
    ground (arith, get_or-write_at n bytes buf i, get_or-write_at n bytes buf' i)
write_at-same n bytes buf buf' i h h' (inr e) =
    ground (arith, get_or-write_at n bytes buf i, get_or-write_at n bytes buf' i)

apply_writes-same :
    (ws : List Write) (buf buf' : List ℕ) (i : ℕ)
    → i < length buf
    → i < length buf'
    → (covered ws i ≡ true) ⊎ (get_or buf i 0 ≡ get_or buf' i 0)
    → get_or (apply_writes ws buf) i 0 ≡ get_or (apply_writes ws buf') i 0
unfolding apply_writes
apply_writes-same [] buf buf' i h h' (inl e) = absurd (cc)
apply_writes-same [] buf buf' i h h' (inr e) = e
apply_writes-same (w ∷ ws) buf buf' i h h' c =
    apply_writes-same ws (write_at w.offset w.bytes buf) (write_at w.offset w.bytes buf') i
      (omega (arith, length-write_at w.offset w.bytes buf))
      (omega (arith, length-write_at w.offset w.bytes buf'))
      (next (Bool-cases (in_range w.offset (length w.bytes) i)) c)
  where
    next :
        (in_range w.offset (length w.bytes) i ≡ true)
          ⊎ (in_range w.offset (length w.bytes) i ≡ false)
        → (covered (w ∷ ws) i ≡ true) ⊎ (get_or buf i 0 ≡ get_or buf' i 0)
        → (covered ws i ≡ true)
          ⊎ (get_or (write_at w.offset w.bytes buf) i 0
              ≡ get_or (write_at w.offset w.bytes buf') i 0)
    next (inl e) c = inr (write_at-same w.offset w.bytes buf buf' i h h' (inl e))
    next (inr e) (inl c) = inl (rw e at c)
    next (inr e) (inr c) = inr (write_at-same w.offset w.bytes buf buf' i h h' (inr c))

list_ext :
    (xs ys : List ℕ)
    → length xs ≡ length ys
    → ((i : ℕ) → i < length xs → get_or xs i 0 ≡ get_or ys i 0)
    → xs ≡ ys
list_ext [] [] e h = refl
list_ext [] (y ∷ ys) e h = absurd (omega arith)
list_ext (x ∷ xs) [] e h = absurd (omega arith)
list_ext (x ∷ xs) (y ∷ ys) e h =
    let s = h 0 (omega arith) in
    let t = list_ext xs ys (omega arith) (λ i l. h (suc i) (omega arith)) in cc

length-options_of : (b : Binding) → (length (options_of b) ≡ 15) ⊎ (length (options_of b) ≡ 27)
unfolding options_of
length-options_of b = elim (Bool-cases (same_state b.state selecting)) [
  | inl e ↦ inr (rw e)
  | inr e ↦ inl (rw e)
]

-- The ranges of the writes, given how long the options are.
abbrev with_options : ℕ → List (ℕ × ℕ)
with_options n =
    (4, 4)
    ∷ (12, 4)
    ∷ (28, 6)
    ∷ (0, 1)
    ∷ (1, 1)
    ∷ (2, 1)
    ∷ (3, 1)
    ∷ (8, 2)
    ∷ (10, 2)
    ∷ (16, 4)
    ∷ (20, 4)
    ∷ (24, 4)
    ∷ (34, 202)
    ∷ (236, 4)
    ∷ (240, n)
    ∷ (240 + n, 548 - (240 + n))
    ∷ []

abbrev reached : List (ℕ × ℕ) → ℕ → Bool
reached [] i = false
reached (r ∷ rs) i = in_range r.0 r.1 i || reached rs i

all_reached :
    (every_byte (reached (with_options 15)) 548 ≡ true)
    × (every_byte (reached (with_options 27)) 548 ≡ true)
all_reached = (refl, refl)

covered-request :
    (b : Binding) (i : ℕ)
    → length b.mac_addr ≡ mac_addr_len
    → covered (request_writes b) i ≡ reached (with_options (length (options_of b))) i
unfolding request_writes
covered-request b i m =
    let t = length-take mac_addr_len b.mac_addr in
    let z : ℕ = 0 in
    let t' : length (take mac_addr_len b.mac_addr) ≡ 6 = omega arith in
    rw (t', length-replicate (548 - (240 + length (options_of b))) z)

in_message :
    (b : Binding)
    → length b.mac_addr ≡ mac_addr_len
    → All (λ w. w.offset + length w.bytes ≤ dhcp_message_len_max) (request_writes b)
unfolding request_writes
in_message b m =
    let z : ℕ = 0 in
    omega (
      arith,
      length-take mac_addr_len b.mac_addr,
      length-replicate (548 - (240 + length (options_of b))) z,
      length-options_of b,
    )

request-reached :
    (b : Binding) (i : ℕ)
    → length b.mac_addr ≡ mac_addr_len
    → i < dhcp_message_len_max
    → covered (request_writes b) i ≡ true
request-reached b i m h = elim (length-options_of b) [
  | inl e ↦
      covered-request b i m ∙ rw e (every_byte-lt (reached (with_options 15)) 548 i h all_reached.0)
  | inr e ↦
      covered-request b i m ∙ rw e (every_byte-lt (reached (with_options 27)) 548 i h all_reached.1)
]

-- Each write of a request lies in the message, and the writes leave no byte of it as it was: for an
-- address of six bytes and a buffer of the full length, what is sent does not depend on what the
-- buffer held, and it has that length.
pub request_message-filled :
    (b : Binding) (junk junk' : List ℕ)
    → length b.mac_addr ≡ mac_addr_len
    → length junk ≡ dhcp_message_len_max
    → length junk' ≡ dhcp_message_len_max
    → (request_message b junk ≡ request_message b junk')
      × (length (request_message b junk) ≡ dhcp_message_len_max)
      × All (λ w. w.offset + length w.bytes ≤ dhcp_message_len_max) (request_writes b)
unfolding request_message
request_message-filled b junk junk' m h h' = (
  list_ext (apply_writes ws junk) (apply_writes ws junk')
      (omega (arith, length-apply_writes ws junk, length-apply_writes ws junk'))
      (λ i l.
        let k : i < dhcp_message_len_max = omega (arith, length-apply_writes ws junk) in
        apply_writes-same ws junk junk' i (omega arith) (omega arith)
          (inl (request-reached b i m k))),
  omega (arith, length-apply_writes ws junk),
  in_message b m,
)
  where
    ws : List Write
    ws = request_writes b
