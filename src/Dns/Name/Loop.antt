-- ===== src/Dns/Name/Loop.antt =====
-- A name that points to itself.
use nucleo_tests.Base.{
  ℕ, zero, suc, ◌+◌, ◌*◌, ◌/◌, ◌%◌, ◌<◌, ◌≡◌, arith, refl, ap, ◌∙◌, bit_and, Bool, true, false,
  ◌&&◌, List, [], ◌∷◌, drop, drop-add, ◌==◌,
}
use nucleo_tests.Base.Bits.{every_byte, every_byte-lt}
use nucleo_tests.Base.Run.{done, more}
use nucleo_tests.Inet.{ntohs}
use nucleo_tests.Dns.Name.{
  Text, label_ispointer, get_label_offset, parse_from, parse_name, new_name, get_name_size,
}

-- Every offset that a name can point to in a message of 512 bytes.
offset_table :
    every_byte (λ at. (bit_and (0xc000 + at) 0x3fff == at) && label_ispointer (0xc0 + at / 256)) 512
    ≡ true
unfolding label_ispointer
offset_table = refl

abbrev points_to : ℕ → List ℕ → List ℕ
points_to at rest = (0xc0 + at / 256) ∷ (at % 256) ∷ rest

offset_lem :
    (at : ℕ) (msg rest : List ℕ)
    → at < 512
    → drop at msg ≡ points_to at rest
    → (get_label_offset msg at ≡ done at) × (label_ispointer (0xc0 + at / 256) ≡ true)
unfolding get_label_offset ntohs
offset_lem at msg rest h e =
    let t =
      every_byte-lt
        (λ at. (bit_and (0xc000 + at) 0x3fff == at) && label_ispointer (0xc0 + at / 256)) 512 at h
        offset_table in
    let next : drop (suc at) msg ≡ (at % 256) ∷ rest =
      ap (λ k. drop k msg) {x = suc at} {y = at + 1} (omega arith)
      ∙ (drop-add at 1 msg ∙ ap (drop 1) e) in
    let word : ((0xc0 + at / 256) + at % 256 * 256) / 256 % 256
          + ((0xc0 + at / 256) + at % 256 * 256) % 256 * 256
        ≡ 0xc000 + at =
      omega arith in
    let offset : bit_and (0xc000 + at) 0x3fff ≡ at = ground (arith, t) in
    (rw (e, next, word, offset), ground (arith, t))

parse_self :
    (dst : Bool) (rounds at : ℕ) (msg rest : List ℕ) (f : Bool) (t : Text)
    → at < 512
    → drop at msg ≡ points_to at rest
    → parse_from dst rounds msg at f t ≡ more
unfolding parse_from
parse_self dst zero at msg rest f t h e = refl
parse_self dst (suc rounds) at msg rest f t h e =
    let (p, q) = offset_lem at msg rest h e in
    rw (e, q, p) (parse_self dst rounds at msg rest f t h e)

-- A name that is a pointer to itself is never read to its end: no number of rounds suffices.
pub new_name_self :
    (rounds at : ℕ) (msg rest : List ℕ)
    → at < 512
    → drop at msg ≡ points_to at rest
    → new_name rounds msg at ≡ more
unfolding new_name get_name_size parse_name
new_name_self rounds at msg rest h e = rw (parse_self false rounds at msg rest true (0, []) h e)
