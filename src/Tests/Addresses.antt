-- ===== src/Tests/Addresses.antt =====
-- Decimal numbers, printed and read.
use nucleo_tests.Base.{
  ℕ, suc, ◌+◌, ◌-◌, ◌*◌, ◌/◌, ◌%◌, ◌<◌, ◌≤◌, ◌≡◌, ◌∙◌, refl, sym, ap, subst, arith, Bool, true,
  false, ◌&&◌, List, [], ◌∷◌, ◌++◌, length, ltb, leb, lt→ltb, ◌==◌, if◌then◌else◌,
}
use native.Mathlib.Decide.{dec_lt}
use nucleo_tests.Inet.Text.{Libc, dot, char_at, inet_addr, inet_ntoa}
use nucleo_tests.Inet.Text.Roundtrip.{IsDecimal, inet_addr-inet_ntoa}

abbrev is_dec : ℕ → Bool
is_dec c = leb 48 c && leb c 57

-- The number that the digits go on with, and how many characters they are.
abbrev scan : ℕ → ℕ → List ℕ → ℕ × Bool × ℕ
scan acc n [] = (acc, false, n)
scan acc n (c ∷ text) =
    let further = scan (acc * 10 + (c - 48)) (suc n) text in
    if is_dec c then further else (acc, false, n)

abbrev print_u8 : ℕ → List ℕ
print_u8 d =
    if ltb d 10
    then (48 + d) ∷ []
    else (if ltb d 100
        then (48 + d / 10) ∷ (48 + d % 10) ∷ []
        else (48 + d / 100) ∷ (48 + d / 10 % 10) ∷ (48 + d % 10) ∷ [])

abbrev libc : Libc
libc = record {
  is_digit = is_dec;
  is_ascii = λ c. ltb c 128;
  is_space = λ c. c == 32;
  strtoul = scan 0 0;
  print_u8 = print_u8;
}

-- What a number is printed as, by its digits.
data Printed (d : ℕ) : Type 0 where
  one : d < 10 → print_u8 d ≡ (48 + d) ∷ [] → Printed d
  two :
      (a b : ℕ)
      → a < 10
      → b < 10
      → d ≡ a * 10 + b
      → print_u8 d ≡ (48 + a) ∷ (48 + b) ∷ []
      → Printed d
  three :
      (a b c : ℕ)
      → a < 10
      → b < 10
      → c < 10
      → d ≡ (a * 10 + b) * 10 + c
      → print_u8 d ≡ (48 + a) ∷ (48 + b) ∷ (48 + c) ∷ []
      → Printed d

printed : (d : ℕ) → d < 256 → Printed d
printed d l = elim (dec_lt d 10) [
  | yes p ↦ one p (rw (lt→ltb d 10 p) refl)
  | no p ↦
      let not_one : ltb d 10 ≡ false = ground arith in
      elim (dec_lt d 100) [
        | yes q ↦
            two (d / 10) (d % 10) (omega arith) (omega arith) (omega arith)
              (rw (not_one, lt→ltb d 100 q) refl)
        | no q ↦
            let not_two : ltb d 100 ≡ false = ground arith in
            three (d / 100) (d / 10 % 10) (d % 10) (omega arith) (omega arith) (omega arith)
              (omega arith) (rw (not_one, not_two) refl)
      ]
]

is_dec-digit : (d : ℕ) → d < 10 → is_dec (48 + d) ≡ true
is_dec-digit d l = ground arith

scan-digit :
    (acc n d : ℕ) (text : List ℕ)
    → d < 10
    → scan acc n ((48 + d) ∷ text) ≡ scan (acc * 10 + d) (suc n) text
scan-digit acc n d text l = let e : 48 + d - 48 ≡ d = omega arith in rw (is_dec-digit d l, e) refl

-- Nothing more, or a point.
abbrev Stops : List ℕ → Type 0
Stops [] = Unit
Stops (c ∷ text) = is_dec c ≡ false

scan-stop : (acc n : ℕ) (text : List ℕ) → Stops text → scan acc n text ≡ (acc, false, n)
scan-stop acc n [] h = refl
scan-stop acc n (c ∷ text) h = rw h refl

reads :
    (d : ℕ) (rest : List ℕ)
    → Printed d
    → Stops rest
    → scan 0 0 (print_u8 d ++ rest) ≡ (d, false, length (print_u8 d))
reads d rest (one p e) h =
    subst (λ text. scan 0 0 (text ++ rest) ≡ (d, false, length text)) (sym e)
      (scan-digit 0 0 d rest p
        ∙ scan-stop (0 * 10 + d) 1 rest h
        ∙ ap (λ n. (n, false, 1)) (omega arith))
reads d rest (two a b p q s e) h =
    subst (λ text. scan 0 0 (text ++ rest) ≡ (d, false, length text)) (sym e)
      (scan-digit 0 0 a ((48 + b) ∷ rest) p
        ∙ scan-digit (0 * 10 + a) 1 b rest q
        ∙ scan-stop ((0 * 10 + a) * 10 + b) 2 rest h
        ∙ ap (λ n. (n, false, 2)) (omega (arith, s)))
reads d rest (three a b c p q r s e) h =
    subst (λ text. scan 0 0 (text ++ rest) ≡ (d, false, length text)) (sym e)
      (scan-digit 0 0 a ((48 + b) ∷ (48 + c) ∷ rest) p
        ∙ scan-digit (0 * 10 + a) 1 b ((48 + c) ∷ rest) q
        ∙ scan-digit ((0 * 10 + a) * 10 + b) 2 c rest r
        ∙ scan-stop (((0 * 10 + a) * 10 + b) * 10 + c) 3 rest h
        ∙ ap (λ n. (n, false, 3)) (omega (arith, s)))

starts : (d : ℕ) (rest : List ℕ) → Printed d → is_dec (char_at (print_u8 d ++ rest)) ≡ true
starts d rest (one p e) =
    subst (λ text. is_dec (char_at (text ++ rest)) ≡ true) (sym e) (is_dec-digit d p)
starts d rest (two a b p q s e) =
    subst (λ text. is_dec (char_at (text ++ rest)) ≡ true) (sym e) (is_dec-digit a p)
starts d rest (three a b c p q r s e) =
    subst (λ text. is_dec (char_at (text ++ rest)) ≡ true) (sym e) (is_dec-digit a p)

size : (d : ℕ) → Printed d → (0 < length (print_u8 d)) × (length (print_u8 d) ≤ 3)
size d (one p e) = subst (λ text. (0 < length text) × (length text ≤ 3)) (sym e) (omega arith)
size d (two a b p q s e) =
    subst (λ text. (0 < length text) × (length text ≤ 3)) (sym e) (omega arith)
size d (three a b c p q r s e) =
    subst (λ text. (0 < length text) × (length text ≤ 3)) (sym e) (omega arith)

decimal : IsDecimal libc
decimal = record {
  begins = λ d rest l. starts d rest (printed d l);
  short = λ d l. size d (printed d l);
  before_dot = λ d rest l. reads d (dot ∷ rest) (printed d l) refl;
  before_end = λ d l. reads d [] (printed d l) tt;
}

inet_addr-inet_ntoa_example : inet_addr libc (inet_ntoa libc 0x6301a8c0) ≡ 0x6301a8c0
inet_addr-inet_ntoa_example = inet_addr-inet_ntoa libc decimal 0x6301a8c0 (omega arith)
