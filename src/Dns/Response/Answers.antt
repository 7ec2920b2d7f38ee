-- ===== src/Dns/Response/Answers.antt =====
-- What the answers of a response are read as.
use nucleo_tests.Base.{
  ℕ, suc, ◌+◌, ◌/◌, ◌%◌, ◌^◌, ◌<◌, ◌≡◌, ◌≢◌, ◌⊎◌, ◌∙◌, arith, refl, ap, List, [], ◌∷◌, ◌++◌, length,
  drop, drop-add, some, false, ◌&&◌, ◌==◌, bit_and,
}
use nucleo_tests.Base.Bytes.{word16, word32}
use mathlib.Core.List.{append-nil, append_assoc}
use nucleo_tests.Base.Run.{done}
use nucleo_tests.Base.Int.{pos}
use nucleo_tests.Inet.{ntohs}
use nucleo_tests.Dns.Name.{byte_at, dns_response_get16, skip_labels, new_name}
use nucleo_tests.Dns.Response.{AddrInfo, read_entry, answers_from, read_response, skip_questions}

-- What follows the name of an answer: an address, or another kind of data.
pub data Record : Type 0 where
  address : (ttl : ℕ × ℕ × ℕ × ℕ) → ℕ → ℕ → ℕ → ℕ → Record
  other : (type class : ℕ) (ttl : ℕ × ℕ × ℕ × ℕ) → List ℕ → Record

abbrev pub big_endian16 : ℕ → List ℕ
big_endian16 v = (v / 256) ∷ (v % 256) ∷ []

abbrev pub ttl_bytes : ℕ × ℕ × ℕ × ℕ → List ℕ
ttl_bytes (a, b, c, d) = a ∷ b ∷ c ∷ d ∷ []

-- How it lies in a message.
abbrev pub encode : Record → List ℕ
encode (address ttl a b c d) =
    0 ∷ 1 ∷ 0 ∷ 1 ∷ ttl.0 ∷ ttl.1 ∷ ttl.2 ∷ ttl.3 ∷ 0 ∷ 4 ∷ a ∷ b ∷ c ∷ d ∷ []
encode (other type class ttl rdata) =
    (type / 256)
    ∷ (type % 256)
    ∷ (class / 256)
    ∷ (class % 256)
    ∷ ttl.0
    ∷ ttl.1
    ∷ ttl.2
    ∷ ttl.3
    ∷ (length rdata / 256)
    ∷ (length rdata % 256)
    ∷ rdata

abbrev pub IsRecord : Record → Type 0
IsRecord (address ttl a b c d) = Unit
IsRecord (other type class ttl rdata) =
    (type < 2 ^ 16) × (class < 2 ^ 16) × (length rdata < 2 ^ 16) × ((type ≢ 1) ⊎ (class ≢ 1))

-- The bytes from an offset on, as those from an earlier one.
drop-at : (msg : List ℕ) (at k : ℕ) (xs : List ℕ) → drop at msg ≡ xs → drop (at + k) msg ≡ drop k xs
drop-at msg at k xs e = drop-add at k msg ∙ ap (drop k) e

get16-at :
    (msg : List ℕ) (at a b : ℕ) (rest : List ℕ)
    → drop at msg ≡ a ∷ b ∷ rest
    → dns_response_get16 msg at ≡ done (ntohs (word16 a b))
unfolding dns_response_get16
get16-at msg at a b rest e =
    let e1 : drop (suc at) msg ≡ b ∷ rest =
      ap (λ n. drop n msg) {x = suc at} {y = at + 1} (omega arith)
      ∙ drop-at msg at 1 (a ∷ b ∷ rest) e in
    rw (e, e1) refl

ntohs-big_endian16 : (v : ℕ) → v < 2 ^ 16 → ntohs (word16 (v / 256) (v % 256)) ≡ v
unfolding ntohs
ntohs-big_endian16 v h = omega arith

-- The results of a record, with the name before it.
abbrev pub results : List ℕ → Record → List AddrInfo
results text (address ttl a b c d) = (record { ai_addr = word32 a b c d; ai_canonname = text }) ∷ []
results text (other type class ttl rdata) = []

not_address : (type class : ℕ) → (type ≢ 1) ⊎ (class ≢ 1) → (type == 1 && class == 1) ≡ false
not_address type class h = ground arith

read_entry-encode :
    (msg text : List ℕ) (at : ℕ) (r : Record) (rest : List ℕ) (found : List AddrInfo)
    → IsRecord r
    → drop at msg ≡ encode r ++ rest
    → read_entry msg text at found ≡ done (found ++ results text r, at + length (encode r))
unfolding read_entry ntohs
read_entry-encode msg text at (address ttl a b c d) rest found h e =
    let all = encode (address ttl a b c d) ++ rest in
    let t = get16-at msg at 0 1 _ e in
    let k = get16-at msg (at + 2) 0 1 _ (drop-at msg at 2 all e) in
    let l = get16-at msg (at + 8) 0 4 _ (drop-at msg at 8 all e) in
    let b0 = drop-at msg at 10 all e in
    let b1 = drop-at msg (at + 10) 1 _ b0 in
    let b2 = drop-at msg (at + 10) 2 _ b0 in
    let b3 = drop-at msg (at + 10) 3 _ b0 in rw (t, k, l, b0, b1, b2, b3) refl
read_entry-encode msg text at (other type class ttl rdata) rest found h e =
    let all = encode (other type class ttl rdata) ++ rest in
    let t = get16-at msg at _ _ _ e ∙ ap done (ntohs-big_endian16 type h.0) in
    let k =
      get16-at msg (at + 2) _ _ _ (drop-at msg at 2 all e)
      ∙ ap done (ntohs-big_endian16 class h.1) in
    let l =
      get16-at msg (at + 8) _ _ _ (drop-at msg at 8 all e)
      ∙ ap done (ntohs-big_endian16 (length rdata) h.2) in
    let to : at + (10 + length rdata) ≡ at + length (encode (other type class ttl rdata)) =
      omega arith in
    rw (t, k, l, not_address type class h.3, append-nil found, to) refl

-- Records lie one behind the other from an offset on, each behind a name that can be read.
pub data Lie (steps : ℕ) (msg : List ℕ) : ℕ → List (List ℕ × Record) → Type 0 where
  all_read : {at : ℕ} → Lie steps msg at []
  next :
      {at : ℕ} (to : ℕ) (text : List ℕ) (r : Record) (rest : List ℕ) {rs : List (List ℕ × Record)}
      → new_name steps msg at ≡ done (some text)
      → skip_labels steps msg at ≡ done (some to)
      → drop to msg ≡ encode r ++ rest
      → IsRecord r
      → Lie steps msg (to + length (encode r)) rs
      → Lie steps msg at ((text, r) ∷ rs)

abbrev pub all_results : List (List ℕ × Record) → List AddrInfo
all_results [] = []
all_results ((text, r) ∷ rs) = results text r ++ all_results rs

answers_from-Lie :
    {steps : ℕ} {msg : List ℕ} {at : ℕ} {rs : List (List ℕ × Record)} (found : List AddrInfo)
    → Lie steps msg at rs
    → answers_from steps (length rs) msg at found ≡ done (some (found ++ all_results rs))
unfolding answers_from
answers_from-Lie found all_read = rw (append-nil found) refl
answers_from-Lie {steps} {msg} {at} found (next to text r rest {rs} name skip e h more_left) =
    rw
      (
        name,
        skip,
        read_entry-encode msg text to r rest found h e,
        answers_from-Lie (found ++ results text r) more_left,
        append_assoc found (results text r) (all_results rs),
      )
      refl

-- A response without an error, whose questions can be skipped and whose answers lie behind them, as
-- many as its header says, gives the addresses of its answers with their names, in their order, and
-- nothing for the others.
pub read_response-Lie :
    (steps : ℕ) (msg : List ℕ) (flags at : ℕ) (rs : List (List ℕ × Record))
    → byte_at msg 3 ≡ done flags
    → bit_and flags 0x0f ≡ 0
    → skip_questions steps msg ≡ done (some at)
    → dns_response_get16 msg 6 ≡ done (length rs)
    → Lie steps msg at rs
    → read_response steps msg ≡ done (pos 0, some (all_results rs))
unfolding read_response
read_response-Lie steps msg flags at rs f z q n l = rw (f, z, q, n, answers_from-Lie [] l) refl
