-- ===== src/Base/Bytes.antt =====
-- Words and the bytes that hold them in memory, the lowest first.
use Prim.Native.Nat.{ℕ, ◌+◌, ◌*◌, ◌/◌, ◌%◌, ◌^◌, ◌<◌}
use mathlib.Core.Path.{◌≡◌}
use mathlib.Core.List.{List, [], ◌∷◌}
use native.Mathlib.Omega.{arith}

-- The four bytes of an `uint32_t` and the two of an `uint16_t`.
abbrev pub bytes32 : ℕ → List ℕ
bytes32 x = (x % 256) ∷ (x / 256 % 256) ∷ (x / 65536 % 256) ∷ (x / 16777216 % 256) ∷ []

abbrev pub bytes16 : ℕ → List ℕ
bytes16 x = (x % 256) ∷ (x / 256 % 256) ∷ []

abbrev pub word32 : ℕ → ℕ → ℕ → ℕ → ℕ
word32 a b c d = a + b * 256 + c * 65536 + d * 16777216

abbrev pub word16 : ℕ → ℕ → ℕ
word16 a b = a + b * 256

-- `__builtin_bswap32` and `__builtin_bswap16`.
abbrev pub bswap32 : ℕ → ℕ
bswap32 x = word32 (x / 16777216 % 256) (x / 65536 % 256) (x / 256 % 256) (x % 256)

abbrev pub bswap16 : ℕ → ℕ
bswap16 x = word16 (x / 256 % 256) (x % 256)

pub word32_bytes :
    (x : ℕ)
    → x < 2 ^ 32
    → word32 (x % 256) (x / 256 % 256) (x / 65536 % 256) (x / 16777216 % 256) ≡ x
word32_bytes x h = omega arith

pub word32_digits :
    (a b c d : ℕ)
    → a < 256
    → b < 256
    → c < 256
    → d < 256
    → let x = word32 a b c d in
      (x % 256 ≡ a) × (x / 256 % 256 ≡ b) × (x / 65536 % 256 ≡ c) × (x / 16777216 % 256 ≡ d)
word32_digits a b c d p q r s = omega arith
