-- ===== src/Dns/Name.antt =====
-- src/getaddrinfo.c: domain names in a message. A pointer into the message is an offset; a read past
-- its buffer is a `fault`. The loops have rounds, as a message may make them go on for ever.
pub mod Labels
pub mod Loop
use nucleo_tests.Base.{
  ℕ, zero, suc, ◌+◌, ◌*◌, ◌%◌, ◌^◌, bit_and, Bool, true, false, ◌&&◌, Option, none, some, List, [],
  ◌∷◌, ◌++◌, drop, take, length, ltb, leb, ◌==◌, if◌then◌else◌,
}
use nucleo_tests.Base.Bytes.{word16}
use nucleo_tests.Base.Run.{Run, done, fault, more, ◌>>=◌}
use nucleo_tests.Inet.{ntohs}

abbrev pub first : List ℕ → Run ℕ
first [] = fault
first (b ∷ _) = done b

abbrev pub byte_at : List ℕ → ℕ → Run ℕ
byte_at msg at = first (drop at msg)

-- As many bytes from an offset.
abbrev pub bytes_at : List ℕ → ℕ → ℕ → Run (List ℕ)
bytes_at msg at n =
    let rest = drop at msg in if leb n (length rest) then done (take n rest) else fault

unfoldable pub dns_response_get16 : List ℕ → ℕ → Run ℕ
dns_response_get16 msg at =
    byte_at msg at >>= λ a. byte_at msg (suc at) >>= λ b. done (ntohs (word16 a b))

unfoldable pub label_ispointer : ℕ → Bool
label_ispointer label = bit_and label 0xc0 == 0xc0

abbrev pub label_isend : ℕ → Bool
label_isend label = label == 0

abbrev pub label_isstr : ℕ → Bool
label_isstr label = ltb 0 label && ltb label 0xc0

unfoldable pub get_label_offset : List ℕ → ℕ → Run ℕ
unfolding dns_response_get16
get_label_offset msg at = dns_response_get16 msg at >>= λ w. done (bit_and w 0x3fff)

unfoldable pub get_label_len : ℕ → ℕ
get_label_len label = bit_and label 0x3f

-- `some` offset behind the name, or `none` for NULL.
unfoldable pub skip_labels : ℕ → List ℕ → ℕ → Run (Option ℕ)
skip_labels zero msg at = more
skip_labels (suc rounds) msg at = byte_at msg at >>= λ b.
    if label_isend b
    then done (some (at + 1))
    else if label_ispointer b
    then done (some (at + 2))
    else if label_isstr b
    then skip_labels rounds msg (at + (get_label_len b + 1))
    else done none

-- What a pass has made: `str_len`, and what was written to `*dst`.
abbrev pub Text : Type 0
Text = ℕ × List ℕ

-- More text, which is written only where `dst` is given.
abbrev pub put : Bool → Text → List ℕ → Text
put dst (n, out) s = ((n + length s) % 2 ^ 16, (if dst then out ++ s else out))

abbrev pub put_n : ℕ → Text → List ℕ → Text
put_n len (n, out) s = ((n + len) % 2 ^ 16, out ++ s)

-- The bytes of a label; without `dst` only their number is looked at.
abbrev pub label_text : Bool → List ℕ → ℕ → ℕ → Run (List ℕ)
label_text true msg at len = bytes_at msg at len
label_text false msg at len = done []

-- The loop of `parse_name`.
unfoldable pub parse_from : Bool → ℕ → List ℕ → ℕ → Bool → Text → Run Text
parse_from dst zero msg at first_label t = more
parse_from dst (suc rounds) msg at first_label t = byte_at msg at >>= λ b.
    if label_ispointer b
    then (get_label_offset msg at >>= λ to. parse_from dst rounds msg to first_label t)
    else if label_isend b
    then done (put dst t (0 ∷ []))
    else if label_isstr b
    then (let dotted = if first_label then t else put dst t (b'.' ∷ []) in
        label_text dst msg (suc at) (get_label_len b) >>= λ s.
        parse_from dst rounds msg (at + (get_label_len b + 1)) false
          (put_n (get_label_len b) dotted s))
    else done (0, t.1)

unfoldable pub parse_name : ℕ → List ℕ → ℕ → Bool → Run Text
parse_name rounds msg pstart dst = parse_from dst rounds msg pstart true (0, [])

unfoldable pub get_name_size : ℕ → List ℕ → ℕ → Run ℕ
get_name_size rounds msg pstart = parse_name rounds msg pstart false >>= λ t. done t.0

-- The text of a name in a new block, or `none` for NULL; a `malloc` that fails is not looked for.
unfoldable pub new_name : ℕ → List ℕ → ℕ → Run (Option (List ℕ))
new_name rounds msg pstart = get_name_size rounds msg pstart >>= λ len.
    if len == 0 then done none else (parse_name rounds msg pstart true >>= λ t. done (some t.1))
