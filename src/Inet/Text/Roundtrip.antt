-- ===== src/Inet/Text/Roundtrip.antt =====
-- `inet_addr` reads what `inet_ntoa` prints.
use nucleo_tests.Base.{
  ℕ, zero, suc, ◌+◌, ◌*◌, ◌/◌, ◌%◌, ◌^◌, ◌≤◌, ◌<◌, ◌≡◌, ◌∙◌, refl, ap, subst, arith, bit_or, true,
  false, List, [], ◌∷◌, ◌++◌, ◌==◌, ltb, length, take, drop-length-append, length-append,
}
use nucleo_tests.Base.Bits.{bit_or-disjoint}
use nucleo_tests.Inet.{htonl}
use nucleo_tests.Inet.Text.{Libc, dot, char_at, parse_parts, inet_addr, inet_ntoa, word_of_bytes}

-- The C library on decimal numbers of a byte: they begin with a digit, have one to three of them,
-- and are read back whole before a point and before the end.
pub record IsDecimal (libc : Libc) : Type 0 where
  pub begins :
      (d : ℕ) (rest : List ℕ) → d < 256 → libc.is_digit (char_at (libc.print_u8 d ++ rest)) ≡ true
  pub short : (d : ℕ) → d < 256 → (0 < length (libc.print_u8 d)) × (length (libc.print_u8 d) ≤ 3)
  pub before_dot :
      (d : ℕ) (rest : List ℕ)
      → d < 256
      → libc.strtoul (libc.print_u8 d ++ dot ∷ rest) ≡ (d, false, length (libc.print_u8 d))
  pub before_end :
      (d : ℕ)
      → d < 256
      → libc.strtoul (libc.print_u8 d ++ []) ≡ (d, false, length (libc.print_u8 d))

append_nil : (xs : List ℕ) → xs ++ [] ≡ xs
append_nil [] = refl
append_nil (x ∷ xs) = ap (λ ys. x ∷ ys) (append_nil xs)

take_all : (n : ℕ) (xs : List ℕ) → length xs ≤ n → take n xs ≡ xs
take_all zero [] l = refl
take_all zero (x ∷ xs) l = absurd (omega arith)
take_all (suc n) [] l = refl
take_all (suc n) (x ∷ xs) l = ap (λ ys. x ∷ ys) (take_all n xs (omega arith))

module _ (libc : Libc) (decimal : IsDecimal libc) where
  one_part :
      (left d : ℕ) (bytes rest : List ℕ)
      → d < 256
      → parse_parts libc (suc left) bytes (libc.print_u8 d ++ dot ∷ rest)
        ≡ parse_parts libc left (bytes ++ d ∷ []) rest
  unfolding parse_parts
  one_part left d bytes rest l =
      let full : (d == 0xffffffff) ≡ false = ground arith in
      let large : ltb 0xffffffff d ≡ false = ground arith in
      let byte : ltb 0xff d ≡ false = ground arith in
      rw
        (
          decimal.before_dot d rest l,
          decimal.begins d (dot ∷ rest) l,
          drop-length-append (libc.print_u8 d) (dot ∷ rest),
          full,
          large,
          byte,
        )
        refl

  final_part :
      (a b c d : ℕ)
      → d < 256
      → parse_parts libc 0 (a ∷ b ∷ c ∷ []) (libc.print_u8 d)
        ≡ bit_or (word_of_bytes (a ∷ b ∷ c ∷ [])) (htonl d)
  unfolding parse_parts
  final_part a b c d l =
      let full : (d == 0xffffffff) ≡ false = ground arith in
      let large : ltb 0xffffffff d ≡ false = ground arith in
      let byte : ltb 0xff d ≡ false = ground arith in
      let some_digit : (length (libc.print_u8 d) == 0) ≡ false =
        ground (arith, decimal.short d l) in
      subst
        (λ text.
          parse_parts libc 0 (a ∷ b ∷ c ∷ []) text
          ≡ bit_or (word_of_bytes (a ∷ b ∷ c ∷ [])) (htonl d))
        (append_nil (libc.print_u8 d))
        (rw
          (
            decimal.before_end d l,
            decimal.begins d [] l,
            drop-length-append (libc.print_u8 d) [],
            full,
            large,
            byte,
            some_digit,
          )
          refl)

  four_parts :
      (a b c d : ℕ)
      → a < 256
      → b < 256
      → c < 256
      → d < 256
      → bit_or (word_of_bytes (a ∷ b ∷ c ∷ [])) (htonl d) ≡ a + b * 256 + c * 65536 + d * 16777216
  unfolding htonl
  four_parts a b c d p q r s =
      let high : htonl d ≡ d * 2 ^ 24 = omega arith in
      rw high
        (bit_or-disjoint 24 (a + b * 256 + c * 65536 + 0 * 16777216) d (omega arith) ∙ omega arith)

  -- On a C library that prints and reads the decimal numbers of a byte, `inet_addr` gives every
  -- 32-bit address back from the text that `inet_ntoa` makes of it, which is never truncated.
  pub inet_addr-inet_ntoa : (addr : ℕ) → addr < 2 ^ 32 → inet_addr libc (inet_ntoa libc addr) ≡ addr
  unfolding inet_addr inet_ntoa
  inet_addr-inet_ntoa addr l =
      let a = addr % 256 in
      let b = addr / 256 % 256 in
      let c = addr / 65536 % 256 in
      let d = addr / 16777216 % 256 in
      let pa = libc.print_u8 a in
      let pb = libc.print_u8 b in
      let pc = libc.print_u8 c in
      let pd = libc.print_u8 d in
      let p : a < 256 = omega arith in
      let q : b < 256 = omega arith in
      let r : c < 256 = omega arith in
      let s : d < 256 = omega arith in
      let size : length (pa ++ dot ∷ (pb ++ dot ∷ (pc ++ dot ∷ pd))) ≤ 15 = omega (
        arith,
        length-append pa (dot ∷ (pb ++ dot ∷ (pc ++ dot ∷ pd))),
        length-append pb (dot ∷ (pc ++ dot ∷ pd)),
        length-append pc (dot ∷ pd),
        decimal.short a p,
        decimal.short b q,
        decimal.short c r,
        decimal.short d s,
      ) in
      ap (parse_parts libc 3 []) (take_all 15 _ size)
      ∙ one_part 2 a [] (pb ++ dot ∷ (pc ++ dot ∷ pd)) p
      ∙ one_part 1 b (a ∷ []) (pc ++ dot ∷ pd) q
      ∙ one_part 0 c (a ∷ b ∷ []) pd r
      ∙ final_part a b c d s
      ∙ four_parts a b c d p q r s
      ∙ omega arith
