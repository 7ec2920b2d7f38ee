-- ===== src/Inet/Text.antt =====
-- src/inet.c: addresses as text, `inet_addr` and `inet_ntoa`. A text is its characters before the
-- closing 0; `char` is unsigned. `errno` is what it was after `inet_addr`.
pub mod Roundtrip
use nucleo_tests.Base.{
  ℕ, zero, suc, ◌+◌, ◌-◌, ◌/◌, ◌%◌, ◌^◌, bit_or, Bool, true, false, not, ◌&&◌, ◌||◌, Option, none,
  some, List, [], ◌∷◌, ◌++◌, ◌==◌, ltb, get_or, length, drop, take, if◌then◌else◌,
}
use nucleo_tests.Base.Bytes.{word32}
use nucleo_tests.Inet.{htonl}

-- The C library's part: the classes of characters, `strtoul` in base 0 with its value, whether it
-- reports `ERANGE`, and how many characters it takes, and what `PRIu8` prints.
pub record Libc : Type 0 where
  pub is_digit : ℕ → Bool
  pub is_ascii : ℕ → Bool
  pub is_space : ℕ → Bool
  pub strtoul : List ℕ → ℕ × Bool × ℕ
  pub print_u8 : ℕ → List ℕ

abbrev pub dot : ℕ
dot = 46

-- `*cp`
abbrev pub char_at : List ℕ → ℕ
char_at text = get_or text 0 0

abbrev pub error_addr : ℕ
error_addr = 0xffffffff

-- `max[pp - res.bytes]`
abbrev pub max_last : ℕ → ℕ
max_last parts = get_or (0xffffffff ∷ 0xffffff ∷ 0xffff ∷ 0xff ∷ []) parts 0

abbrev pub word_of_bytes : List ℕ → ℕ
word_of_bytes bytes =
    word32 (get_or bytes 0 0) (get_or bytes 1 0) (get_or bytes 2 0) (get_or bytes 3 0)

module _ (libc : Libc) where
  -- After the last number, `val`, which is followed by `c`.
  abbrev pub last_part : List ℕ → ℕ → Bool → ℕ → ℕ
  last_part bytes val digit c =
      if not (c == 0) && (not (libc.is_ascii c) || not (libc.is_space c))
        || not digit
        || ltb (max_last (length bytes)) val
      then error_addr
      else bit_or (word_of_bytes bytes) (htonl val)

  -- The loop: the places left in `res.bytes` but its last, and the bytes that are stored.
  unfoldable pub parse_parts : ℕ → List ℕ → List ℕ → ℕ
  parse_parts zero bytes cp =
      let (ul, range, used) = libc.strtoul cp in
      let rest = drop used cp in
      if not (libc.is_digit (char_at cp))
        || ul == 0xffffffff && range
        || ltb 0xffffffff ul
        || char_at rest == dot
      then error_addr
      else last_part bytes ul (not (used == 0)) (char_at rest)
  parse_parts (suc left) bytes cp =
      let (ul, range, used) = libc.strtoul cp in
      let rest = drop used cp in
      let further = parse_parts left (bytes ++ ul ∷ []) (drop 1 rest) in
      if not (libc.is_digit (char_at cp)) || ul == 0xffffffff && range || ltb 0xffffffff ul
      then error_addr
      else (if char_at rest == dot
          then (if ltb 0xff ul then error_addr else further)
          else last_part bytes ul (not (used == 0)) (char_at rest))

  unfoldable pub inet_addr : List ℕ → ℕ
  inet_addr cp = parse_parts 3 [] cp

  -- `snprintf` into `INET_ADDRSTRLEN` characters, which is 16.
  unfoldable pub inet_ntoa : ℕ → List ℕ
  inet_ntoa addr = take 15 (
      libc.print_u8 (addr % 256)
      ++ dot
        ∷ (libc.print_u8 (addr / 256 % 256)
            ++ dot
              ∷ (libc.print_u8 (addr / 65536 % 256)
                  ++ dot ∷ libc.print_u8 (addr / 16777216 % 256))))
