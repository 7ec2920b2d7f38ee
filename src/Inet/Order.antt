-- ===== src/Inet/Order.antt =====
-- The conversions between host and network order undo each other, and put the high byte first.
use nucleo_tests.Base.{ℕ, ◌/◌, ◌%◌, ◌^◌, ◌<◌, ◌≡◌, ◌∷◌, [], ap, ◌∙◌, arith}
use nucleo_tests.Base.Bytes.{bytes32, bytes16, word32_digits}
use nucleo_tests.Inet.{htonl, htons, ntohl, ntohs}

pub bytes32-htonl :
    (x : ℕ)
    → bytes32 (htonl x)
      ≡ (x / 16777216 % 256) ∷ (x / 65536 % 256) ∷ (x / 256 % 256) ∷ (x % 256) ∷ []
unfolding htonl
bytes32-htonl x =
    let (e, f, g, h) =
      word32_digits (x / 16777216 % 256) (x / 65536 % 256) (x / 256 % 256) (x % 256) (omega arith)
        (omega arith) (omega arith) (omega arith) in
    rw (e, f, g, h)

pub ntohl-lt : (x : ℕ) → ntohl x < 2 ^ 32
unfolding ntohl
ntohl-lt x = omega arith

-- For values of their width, `ntohl` undoes `htonl` and `ntohs` undoes `htons`, and what `htonl` and
-- `htons` store has its high byte first.
pub ntoh-hton :
    (x y : ℕ)
    → x < 2 ^ 32
    → y < 2 ^ 16
    → (ntohl (htonl x) ≡ x)
      × (ntohs (htons y) ≡ y)
      × (bytes32 (htonl x) ≡ (x / 16777216) ∷ (x / 65536 % 256) ∷ (x / 256 % 256) ∷ (x % 256) ∷ [])
      × (bytes16 (htons y) ≡ (y / 256) ∷ (y % 256) ∷ [])
unfolding htonl htons ntohl ntohs
ntoh-hton x y p q = (
  omega arith,
  omega arith,
  bytes32-htonl x
      ∙ ap (λ b. b ∷ (x / 65536 % 256) ∷ (x / 256 % 256) ∷ (x % 256) ∷ []) (omega arith),
  ground arith,
)
