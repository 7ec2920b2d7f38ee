-- ===== src/Base/Bits.antt =====
-- Bit sets in machine words: membership of a bit under `|`, `&`, `~` and single-bit masks.
use Prim.Native.Nat.{
  ℕ, zero, suc, ◌+◌, ◌-◌, ◌*◌, ◌/◌, ◌%◌, ◌^◌, ◌≤◌, ◌<◌, min, max, bit_and, bit_or, digits,
  bit_and-bitwise, bit_or-bitwise,
}
use mathlib.Core.Path.{◌≡◌, refl, ap, ◌∙◌}
use mathlib.Core.Bool.{Bool, true, false, not, ◌&&◌, ◌||◌}
use native.Mathlib.Nat.{pow-suc, one-le-pow, pow-le-pow_right}
use native.Mathlib.Omega.{arith}
use nucleo_tests.Base.Tests.{◌==◌}

-- The native operations recurse on a count of digits to go; any count that covers the first number
-- gives the same.
module _ (out : ℕ → ℕ) (op : ℕ → ℕ → ℕ) where
  counts_agree : (x y u v : ℕ) → x ≤ u → x ≤ v → digits out op u x y ≡ digits out op v x y
  counts_agree zero y zero zero l r = refl
  counts_agree zero y zero (suc v) l r = refl
  counts_agree zero y (suc u) zero l r = refl
  counts_agree zero y (suc u) (suc v) l r = refl
  counts_agree (suc x) y zero v l r = absurd (omega arith)
  counts_agree (suc x) y (suc u) zero l r = absurd (omega arith)
  counts_agree (suc x) y (suc u) (suc v) l r =
      ap (λ d. d * 2 + op (suc x % 2) (y % 2))
        (counts_agree (suc x / 2) (y / 2) u v (omega arith) (omega arith))

  -- The lowest digit and the others.
  lowest_digit :
      (x y : ℕ)
      → out y ≡ out (y / 2) * 2 + op 0 (y % 2)
      → digits out op x x y ≡ digits out op (x / 2) (x / 2) (y / 2) * 2 + op (x % 2) (y % 2)
  lowest_digit zero y h = h
  lowest_digit (suc x) y h =
      ap (λ d. d * 2 + op (suc x % 2) (y % 2))
        (counts_agree (suc x / 2) (y / 2) x (suc x / 2) (omega arith) (omega arith))

low_bit_and : (x y : ℕ) → bit_and x y ≡ bit_and (x / 2) (y / 2) * 2 + min (x % 2) (y % 2)
low_bit_and x y =
    rw (bit_and-bitwise x y, bit_and-bitwise (x / 2) (y / 2))
      (lowest_digit (λ b. zero) min x y (omega arith))

low_bit_or : (x y : ℕ) → bit_or x y ≡ bit_or (x / 2) (y / 2) * 2 + max (x % 2) (y % 2)
low_bit_or x y =
    rw (bit_or-bitwise x y, bit_or-bitwise (x / 2) (y / 2))
      (lowest_digit (λ b. b) max x y (omega arith))

none_in_zero : (bound x : ℕ) → x ≤ bound → bit_and x 0 ≡ 0
none_in_zero zero x l = rw (zero_of x l) (bit_and-bitwise 0 0)
  where
    zero_of : (x : ℕ) → x ≤ 0 → x ≡ 0
    zero_of x l = omega arith
none_in_zero (suc bound) x l =
    omega (arith, low_bit_and x 0, none_in_zero bound (x / 2) (omega arith))

pub bit_and-zero : (x : ℕ) → bit_and x 0 ≡ 0
bit_and-zero x = none_in_zero x x (omega arith)

-- Whether bit `k` of `x` is set.
unfoldable pub test_bit : ℕ → ℕ → Bool
test_bit x zero = x % 2 == 1
test_bit x (suc k) = test_bit (x / 2) k

pub test_bit-bit_or : (k a b : ℕ) → test_bit (bit_or a b) k ≡ (test_bit a k || test_bit b k)
unfolding test_bit
test_bit-bit_or zero a b = ground (arith, low_bit_or a b)
test_bit-bit_or (suc k) a b =
    ap (λ x. test_bit x k) (half_or a b) ∙ test_bit-bit_or k (a / 2) (b / 2)
  where
    half_or : (a b : ℕ) → bit_or a b / 2 ≡ bit_or (a / 2) (b / 2)
    half_or a b = omega (arith, low_bit_or a b)

pub test_bit-bit_and : (k a b : ℕ) → test_bit (bit_and a b) k ≡ (test_bit a k && test_bit b k)
unfolding test_bit
test_bit-bit_and zero a b = ground (arith, low_bit_and a b)
test_bit-bit_and (suc k) a b =
    ap (λ x. test_bit x k) (half_and a b) ∙ test_bit-bit_and k (a / 2) (b / 2)
  where
    half_and : (a b : ℕ) → bit_and a b / 2 ≡ bit_and (a / 2) (b / 2)
    half_and a b = omega (arith, low_bit_and a b)

pub test_bit-zero : (k : ℕ) → test_bit 0 k ≡ false
unfolding test_bit
test_bit-zero zero = refl
test_bit-zero (suc k) = test_bit-zero k

half-two_pow-suc : (k : ℕ) → 2 ^ suc k / 2 ≡ 2 ^ k
half-two_pow-suc k = omega (arith, pow-suc 2 k)

-- A single-bit mask holds its own bit only.
pub test_bit-two_pow : (k j : ℕ) → test_bit (2 ^ k) j ≡ (k == j)
unfolding test_bit
test_bit-two_pow zero zero = refl
test_bit-two_pow zero (suc j) = ground (arith, test_bit-zero j)
test_bit-two_pow (suc k) zero = ground (arith, pow-suc 2 k)
test_bit-two_pow (suc k) (suc j) =
    ap (λ x. test_bit x j) (half-two_pow-suc k) ∙ (test_bit-two_pow k j ∙ ground arith)

-- `x & (1 << k)` is not zero exactly when bit `k` is set.
pub bit_and-two_pow : (k x : ℕ) → (bit_and x (2 ^ k) == 0) ≡ not (test_bit x k)
unfolding test_bit
bit_and-two_pow zero x = ground (arith, low_bit_and x 1, bit_and-zero (x / 2))
bit_and-two_pow (suc k) x = ground (arith, bit_and-two_pow k (x / 2), shifted)
  where
    shifted : bit_and x (2 ^ suc k) ≡ bit_and (x / 2) (2 ^ k) * 2
    shifted = rw (low_bit_and x (2 ^ suc k), half-two_pow-suc k) (omega (arith, pow-suc 2 k))

-- `~x` on `w` bits.
unfoldable pub complement : ℕ → ℕ → ℕ
complement w x = 2 ^ w - 1 - x

pub test_bit-complement :
    (w k x : ℕ) → k < w → x < 2 ^ w → test_bit (complement w x) k ≡ not (test_bit x k)
unfolding test_bit complement
test_bit-complement zero k x h l = absurd (omega arith)
test_bit-complement (suc w) zero x h l = ground (arith, pow-suc 2 w)
test_bit-complement (suc w) (suc k) x h l =
    ap (λ y. test_bit y k) halved
    ∙ test_bit-complement w k (x / 2) (omega arith) (omega (arith, pow-suc 2 w))
  where
    halved : (2 ^ suc w - 1 - x) / 2 ≡ 2 ^ w - 1 - x / 2
    halved = omega (arith, pow-suc 2 w)

-- Words stay words.
pub bit_or-lt : (w a b : ℕ) → a < 2 ^ w → b < 2 ^ w → bit_or a b < 2 ^ w
bit_or-lt zero a b p q = rw (small a p, small b q) (omega (arith, bit_or-bitwise 0 0))
  where
    small : (x : ℕ) → x < 2 ^ 0 → x ≡ 0
    small x h = omega arith
bit_or-lt (suc w) a b p q = omega (
  arith,
  pow-suc 2 w,
  low_bit_or a b,
  bit_or-lt w (a / 2) (b / 2) (omega (arith, pow-suc 2 w)) (omega (arith, pow-suc 2 w)),
)

bit_and-le_fuel : (n a b : ℕ) → a ≤ n → bit_and a b ≤ a
bit_and-le_fuel zero zero b h = omega (arith, bit_and-bitwise 0 b)
bit_and-le_fuel zero (suc a) b h = absurd (omega arith)
bit_and-le_fuel (suc n) zero b h = omega (arith, bit_and-bitwise 0 b)
bit_and-le_fuel (suc n) (suc a) b h =
    omega (arith, low_bit_and (suc a) b, bit_and-le_fuel n (suc a / 2) (b / 2) (omega arith))

pub bit_and-le : (a b : ℕ) → bit_and a b ≤ a
bit_and-le a b = bit_and-le_fuel a a b (omega arith)

pub complement-lt : (w x : ℕ) → complement w x < 2 ^ w
unfolding complement
complement-lt w x = omega (arith, one-le-pow w 2)

-- A single-bit mask fits the word that has the bit.
pub two_pow-lt_word : (k : ℕ) → k < 32 → 2 ^ k < 2 ^ 32
two_pow-lt_word k h =
    omega (arith, pow-le-pow_right {n = 2} (omega arith) {i = k} {j = 31} (omega arith))

pub test_bit-ones : (k : ℕ) → k < 32 → test_bit (2 ^ 32 - 1) k ≡ true
unfolding complement
test_bit-ones k h = test_bit-complement 32 k 0 h (omega arith) ∙ ap not (test_bit-zero k)

-- A test of every number below some bound, by evaluation.
abbrev pub every_byte : (ℕ → Bool) → ℕ → Bool
every_byte test zero = true
every_byte test (suc k) = test k && every_byte test k

pub every_byte-lt : (test : ℕ → Bool) (k i : ℕ) → i < k → every_byte test k ≡ true → test i ≡ true
every_byte-lt test zero i h e = absurd (omega arith)
every_byte-lt test (suc k) i h e = ground (arith, every_byte-lt test k i)

mask_step : (x m n : ℕ) → n ≡ 2 * m + 1 → bit_and x n ≡ bit_and (x / 2) m * 2 + x % 2
mask_step x m n e =
    let h : n / 2 ≡ m = omega arith in omega (arith, low_bit_and x n, ap (bit_and (x / 2)) h)

-- The low eleven bits.
pub bit_and-mask11 : (x : ℕ) → bit_and x 2047 ≡ x % 2048
bit_and-mask11 x =
    let a1 = x / 2 in
    let a2 = a1 / 2 in
    let a3 = a2 / 2 in
    let a4 = a3 / 2 in
    let a5 = a4 / 2 in
    let a6 = a5 / 2 in
    let a7 = a6 / 2 in
    let a8 = a7 / 2 in
    let a9 = a8 / 2 in
    let a10 = a9 / 2 in
    omega (
      arith,
      mask_step x 1023 2047 refl,
      mask_step a1 511 1023 refl,
      mask_step a2 255 511 refl,
      mask_step a3 127 255 refl,
      mask_step a4 63 127 refl,
      mask_step a5 31 63 refl,
      mask_step a6 15 31 refl,
      mask_step a7 7 15 refl,
      mask_step a8 3 7 refl,
      mask_step a9 1 3 refl,
      mask_step a10 0 1 refl,
      bit_and-zero (a10 / 2),
    )

zero-bit_or : (bound y : ℕ) → y ≤ bound → bit_or 0 y ≡ y
zero-bit_or zero y l = let e : y ≡ 0 = omega arith in rw e (bit_or-bitwise 0 0)
zero-bit_or (suc bound) y l = omega (arith, low_bit_or 0 y, zero-bit_or bound (y / 2) (omega arith))

-- Numbers without a common bit are added.
pub bit_or-disjoint : (k x y : ℕ) → x < 2 ^ k → bit_or x (y * 2 ^ k) ≡ x + y * 2 ^ k
bit_or-disjoint zero x y l =
    let e : x ≡ 0 = omega arith in
    let f : y * 2 ^ 0 ≡ y = omega arith in rw (e, f) (zero-bit_or y y (omega arith) ∙ omega arith)
bit_or-disjoint (suc k) x y l =
    let p : 2 ^ suc k ≡ 2 ^ k * 2 = omega (arith, pow-suc 2 k) in
    let m : y * 2 ^ suc k ≡ y * 2 ^ k * 2 = rw p (omega arith) in
    let ih = bit_or-disjoint k (x / 2) y (omega (arith, p)) in
    let half : y * 2 ^ k * 2 / 2 ≡ y * 2 ^ k = omega arith in
    let ih' : bit_or (x / 2) (y * 2 ^ k * 2 / 2) ≡ x / 2 + y * 2 ^ k = rw half ih in
    rw m (omega (arith, low_bit_or x (y * 2 ^ k * 2), ih'))
