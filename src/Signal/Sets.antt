-- ===== src/Signal/Sets.antt =====
-- src/signal.c: `sigset_t`, a word with a bit for each signal from 1 on.
-- `wild_shift` is what `1 << (sig - 1)` gives where C leaves it undefined, as a word.
pub mod Laws
use nucleo_tests.Base.{
  ℕ, zero, suc, ◌+◌, ◌-◌, ◌^◌, Bool, true, false, not, bit_and, bit_or, ◌==◌, ltb, if◌then◌else◌,
}
use nucleo_tests.Base.Bits.{complement}
use nucleo_tests.Base.Int.{ℤ, pos, negsuc}

module _ (wild_shift : ℤ → ℕ) where
  unfoldable pub sigmask : ℤ → ℕ
  sigmask (pos zero) = wild_shift (pos 0)
  sigmask (pos (suc n)) = if ltb n 32 then 2 ^ n else wild_shift (pos (suc n))
  sigmask (negsuc n) = wild_shift (negsuc n)

  -- The value returned is read as a truth value by every caller.
  unfoldable pub sigismember : ℕ → ℤ → Bool
  unfolding sigmask
  sigismember set sig = not (bit_and set (sigmask sig) == 0)

  unfoldable pub sigaddset : ℕ → ℤ → ℕ
  unfolding sigmask
  sigaddset set sig = bit_or set (sigmask sig)

  unfoldable pub sigdelset : ℕ → ℤ → ℕ
  unfolding sigmask
  sigdelset set sig = bit_and set (complement 32 (sigmask sig))

abbrev pub sigemptyset : ℕ
sigemptyset = 0

abbrev pub sigfillset : ℕ
sigfillset = 2 ^ 32 - 1
