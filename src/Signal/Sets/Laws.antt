-- ===== src/Signal/Sets/Laws.antt =====
-- Membership in a `sigset_t`.
use nucleo_tests.Base.{
  ℕ, suc, ◌^◌, ◌<◌, ◌≡◌, ◌∙◌, arith, Bool, true, false, not, ◌&&◌, ◌||◌, ◌==◌, lt→ltb, bit_or,
  bit_and,
}
use nucleo_tests.Base.Bits.{
  test_bit, test_bit-bit_and, test_bit-bit_or, test_bit-complement, test_bit-two_pow, test_bit-zero,
  bit_and-two_pow, complement, two_pow-lt_word, test_bit-ones,
}
use nucleo_tests.Base.Int.{ℤ, pos}
use nucleo_tests.Signal.Sets.{sigismember, sigaddset, sigdelset, sigemptyset, sigfillset}

module _ (wild_shift : ℤ → ℕ) where
  -- A signal that a set can hold has the bit below its number.
  pub sigismember_bit :
      (set n : ℕ) → n < 32 → sigismember wild_shift set (pos (suc n)) ≡ test_bit set n
  unfolding sigismember
  sigismember_bit set n h = rw (lt→ltb n 32 h, bit_and-two_pow) (not_not (test_bit set n))
    where
      not_not : (b : Bool) → not (not b) ≡ b
      not_not b = ground arith

  -- The signals from 1 to 32: `sigaddset` puts in its signal and no other, `sigdelset` takes out
  -- its signal and no other, no signal is in the empty set and each is in the full one.
  pub sigismember_laws :
      (set i j : ℕ)
      → i < 32
      → j < 32
      → (sigismember wild_shift (sigaddset wild_shift set (pos (suc i))) (pos (suc j))
          ≡ ((i == j) || sigismember wild_shift set (pos (suc j))))
        × (sigismember wild_shift (sigdelset wild_shift set (pos (suc i))) (pos (suc j))
            ≡ (not (i == j) && sigismember wild_shift set (pos (suc j))))
        × (sigismember wild_shift sigemptyset (pos (suc j)) ≡ false)
        × (sigismember wild_shift sigfillset (pos (suc j)) ≡ true)
  unfolding sigaddset sigdelset
  sigismember_laws set i j hi hj = rw (lt→ltb i 32 hi) (
    sigismember_bit (bit_or set (2 ^ i)) j hj
        ∙ (test_bit-bit_or j set (2 ^ i)
            ∙ ground (arith, sigismember_bit set j hj, test_bit-two_pow i j)),
    sigismember_bit (bit_and set (complement 32 (2 ^ i))) j hj
        ∙ (test_bit-bit_and j set (complement 32 (2 ^ i))
            ∙ ground (
              arith,
              sigismember_bit set j hj,
              test_bit-two_pow i j,
              test_bit-complement 32 j (2 ^ i) hj (two_pow-lt_word i hi),
            )),
    sigismember_bit 0 j hj ∙ test_bit-zero j,
    sigismember_bit sigfillset j hj ∙ test_bit-ones j hj,
  )
