-- ===== src/Dns/Name/Labels.antt =====
-- A name written as a sequence of labels is read back.
use mathlib.Core.List.{append_assoc, append-nil}
use nucleo_tests.Base.{
  ℕ, zero, suc, ◌+◌, ◌%◌, ◌^◌, ◌<◌, ◌≤◌, ◌≡◌, arith, refl, ap, sym, ◌∙◌, Bool, true, false, not,
  ◌&&◌, some, List, [], ◌∷◌, ◌++◌, length, drop, length-append, drop-add, drop-length-append,
  take-length-append, All, leb, ◌==◌, if◌then◌else◌,
}
use nucleo_tests.Base.Bits.{every_byte, every_byte-lt}
use nucleo_tests.Base.Run.{done}
use nucleo_tests.Dns.Name.{
  Text, put, put_n, label_ispointer, get_label_len, label_text, parse_from, parse_name, skip_labels,
  new_name, get_name_size, label_isstr,
}

-- A label of a domain name has 1 to 63 bytes.
abbrev pub IsLabel : List ℕ → Type 0
IsLabel l = (1 ≤ length l) × (length l < 64)

-- How the labels of a name lie in a message.
abbrev pub encode_labels : List (List ℕ) → List ℕ
encode_labels [] = 0 ∷ []
encode_labels (l ∷ ls) = length l ∷ l ++ encode_labels ls

-- The text of a name: its labels with dots between them.
abbrev pub dotted : List (List ℕ) → List ℕ
dotted [] = []
dotted (l ∷ []) = l
dotted (l ∷ m ∷ ls) = l ++ b'.' ∷ dotted (m ∷ ls)

label_table : every_byte (λ b. not (label_ispointer b) && (get_label_len b == b)) 64 ≡ true
unfolding label_ispointer get_label_len
label_table = refl

label_lem : (b : ℕ) → b < 64 → (label_ispointer b ≡ false) × (get_label_len b ≡ b)
label_lem b h =
    let e =
      every_byte-lt (λ b. not (label_ispointer b) && (get_label_len b == b)) 64 b h label_table in
    (ground (arith, e), ground (arith, e))

isstr_lem : (b : ℕ) → 1 ≤ b → b < 64 → (label_isstr b ≡ true) × ((b == 0) ≡ false)
isstr_lem b h k = (ground arith, ground arith)

-- Behind a label.
drop-label :
    (msg l rest : List ℕ) (at : ℕ)
    → drop at msg ≡ length l ∷ l ++ rest
    → (drop (suc at) msg ≡ l ++ rest) × (drop (at + (length l + 1)) msg ≡ rest)
drop-label msg l rest at e = (
  next ∙ ap (drop 1) e,
  (ap (λ k. drop k msg) {x = at + (length l + 1)} {y = suc at + length l} (omega arith)
      ∙ (drop-add (suc at) (length l) msg
          ∙ (ap (drop (length l)) (next ∙ ap (drop 1) e) ∙ drop-length-append l rest))),
)
  where
    next : drop (suc at) msg ≡ drop 1 (drop at msg)
    next = ap (λ k. drop k msg) {x = suc at} {y = at + 1} (omega arith) ∙ drop-add at 1 msg

-- What a pass adds to its text, from the first label or from a later one.
abbrev text_of : Bool → List (List ℕ) → List ℕ
text_of first_label [] = 0 ∷ []
text_of true (l ∷ ls) = l ++ text_of false ls
text_of false (l ∷ ls) = b'.' ∷ l ++ text_of false ls

text_of-dotted : (ls : List (List ℕ)) → text_of true ls ≡ dotted ls ++ 0 ∷ []
text_of-dotted [] = refl
text_of-dotted (l ∷ []) = refl
text_of-dotted (l ∷ m ∷ ls) =
    ap (λ t. l ++ b'.' ∷ t) (text_of-dotted (m ∷ ls))
    ∙ sym (append_assoc l (b'.' ∷ dotted (m ∷ ls)) (0 ∷ []))

skip_labels-encode :
    (ls : List (List ℕ))
    → All IsLabel ls
    → (rounds at : ℕ) (msg rest : List ℕ) → length ls < rounds
    → drop at msg ≡ encode_labels ls ++ rest
    → skip_labels rounds msg at ≡ done (some (at + length (encode_labels ls)))
unfolding skip_labels
skip_labels-encode ls h zero at msg rest k e = absurd (omega arith)
skip_labels-encode [] h (suc rounds) at msg rest k e = rw e
skip_labels-encode (l ∷ ls) h (suc rounds) at msg rest k e =
    let e' : drop at msg ≡ length l ∷ l ++ (encode_labels ls ++ rest) =
      e ∙ ap (λ t. length l ∷ t) (append_assoc l (encode_labels ls) rest) in
    let (p, q) = label_lem (length l) h.0.1 in
    let (r, s) = isstr_lem (length l) h.0.0 h.0.1 in
    rw (e', s, p, q, r)
      (skip_labels-encode ls h.1 rounds (at + (length l + 1)) msg rest (omega arith)
          (drop-label msg l (encode_labels ls ++ rest) at e').1
        ∙ ap (λ n. done (some n)) (omega (arith, length-append {0} l (encode_labels ls))))

-- The text that a pass adds for a label and what follows it, and for a dot before it.
put-label :
    (dst : Bool) (t : Text) (l rest : List ℕ)
    → put dst (put_n (length l) t (if dst then l else [])) rest ≡ put dst t (l ++ rest)
put-label true (n, out) l rest =
    let p = length-append {0} l rest in
    let e : ((n + length l) % 2 ^ 16 + length rest) % 2 ^ 16 ≡ (n + length (l ++ rest)) % 2 ^ 16 =
      omega arith in
    rw (e, append_assoc out l rest)
put-label false (n, out) l rest =
    let p = length-append {0} l rest in
    let e : ((n + length l) % 2 ^ 16 + length rest) % 2 ^ 16 ≡ (n + length (l ++ rest)) % 2 ^ 16 =
      omega arith in
    rw (e, append-nil out)

put-put :
    (dst : Bool) (t : Text) (dot rest : List ℕ)
    → put dst (put dst t dot) rest ≡ put dst t (dot ++ rest)
put-put true (n, out) dot rest =
    let p = length-append {0} dot rest in
    let e : ((n + length dot) % 2 ^ 16 + length rest) % 2 ^ 16
        ≡ (n + length (dot ++ rest)) % 2 ^ 16 =
      omega arith in
    rw (e, append_assoc out dot rest)
put-put false (n, out) dot rest =
    let p = length-append {0} dot rest in
    let e : ((n + length dot) % 2 ^ 16 + length rest) % 2 ^ 16
        ≡ (n + length (dot ++ rest)) % 2 ^ 16 =
      omega arith in
    rw e

label_text-encode :
    (dst : Bool) (msg l rest : List ℕ) (at : ℕ)
    → drop at msg ≡ l ++ rest
    → label_text dst msg at (length l) ≡ done (if dst then l else [])
label_text-encode true msg l rest at e =
    let fits : leb (length l) (length (l ++ rest)) ≡ true =
      ground (arith, length-append {0} l rest) in
    rw (e, fits, take-length-append l rest)
label_text-encode false msg l rest at e = refl

parse-encode :
    (dst : Bool) (ls : List (List ℕ))
    → All IsLabel ls
    → (rounds at : ℕ) (msg rest : List ℕ) (first_label : Bool) (t : Text) → length ls < rounds
    → drop at msg ≡ encode_labels ls ++ rest
    → parse_from dst rounds msg at first_label t ≡ done (put dst t (text_of first_label ls))
unfolding parse_from
parse-encode dst ls h zero at msg rest f t k e = absurd (omega arith)
parse-encode dst [] h (suc rounds) at msg rest f t k e =
    let (p, q) = label_lem 0 (omega arith) in rw (e, p)
parse-encode dst (l ∷ ls) h (suc rounds) at msg rest true t k e =
    let e' : drop at msg ≡ length l ∷ l ++ (encode_labels ls ++ rest) =
      e ∙ ap (λ t. length l ∷ t) (append_assoc l (encode_labels ls) rest) in
    let (p, q) = label_lem (length l) h.0.1 in
    let (r, s) = isstr_lem (length l) h.0.0 h.0.1 in
    let (d, d') = drop-label msg l (encode_labels ls ++ rest) at e' in
    rw (e', p, s, r, q, label_text-encode dst msg l (encode_labels ls ++ rest) (suc at) d)
      (parse-encode dst ls h.1 rounds (at + (length l + 1)) msg rest false
          (put_n (length l) t (if dst then l else [])) (omega arith) d'
        ∙ ap done (put-label dst t l (text_of false ls)))
parse-encode dst (l ∷ ls) h (suc rounds) at msg rest false t k e =
    let e' : drop at msg ≡ length l ∷ l ++ (encode_labels ls ++ rest) =
      e ∙ ap (λ t. length l ∷ t) (append_assoc l (encode_labels ls) rest) in
    let (p, q) = label_lem (length l) h.0.1 in
    let (r, s) = isstr_lem (length l) h.0.0 h.0.1 in
    let (d, d') = drop-label msg l (encode_labels ls ++ rest) at e' in
    rw (e', p, s, r, q, label_text-encode dst msg l (encode_labels ls ++ rest) (suc at) d)
      (parse-encode dst ls h.1 rounds (at + (length l + 1)) msg rest false
          (put_n (length l) (put dst t (b'.' ∷ [])) (if dst then l else [])) (omega arith) d'
        ∙ ap done (
            put-label dst (put dst t (b'.' ∷ [])) l (text_of false ls)
            ∙ put-put dst t (b'.' ∷ []) (l ++ text_of false ls)))

-- A name of any labels of 1 to 63 bytes, wherever it lies in a message, is read back with dots between
-- the labels and a NUL behind, as long as its length fits the 16 bits of the code; and the skipping of
-- a name goes to just behind it. A round for each label and one more suffice.
pub new_name-encode :
    (ls : List (List ℕ)) (rounds at : ℕ) (msg rest : List ℕ)
    → All IsLabel ls
    → length ls < rounds
    → length (dotted ls) + 1 < 2 ^ 16
    → drop at msg ≡ encode_labels ls ++ rest
    → (new_name rounds msg at ≡ done (some (dotted ls ++ 0 ∷ [])))
      × (skip_labels rounds msg at ≡ done (some (at + length (encode_labels ls))))
unfolding new_name get_name_size parse_name
new_name-encode ls rounds at msg rest h k small e =
    let size = parse-encode false ls h rounds at msg rest true (0, []) k e in
    let text = parse-encode true ls h rounds at msg rest true (0, []) k e in
    let n = length-append {0} (dotted ls) (0 ∷ []) in
    let pos_size : ((0 + length (text_of true ls)) % 2 ^ 16 == 0) ≡ false =
      rw (text_of-dotted ls) (ground arith) in
    (
      rw (size, pos_size, text) (ap (λ s. done (some s)) (text_of-dotted ls)),
      skip_labels-encode ls h rounds at msg rest k e,
    )
