-- ===== src/Signal/Mask/Change.antt =====
-- How the mask changes, signal by signal.
use nucleo_tests.Base.{
  ℕ, suc, ◌^◌, ◌<◌, ◌≡◌, ◌∙◌, ap, refl, arith, Bool, false, not, ◌&&◌, ◌||◌, some, ◌==◌, bit_and,
  bit_or, lt→ltb,
}
use nucleo_tests.Base.Bits.{
  complement, test_bit-bit_and, test_bit-bit_or, test_bit-complement, bit_or-lt, two_pow-lt_word,
}
use nucleo_tests.Base.Int.{ℤ, pos, leb_ℤ}
use nucleo_tests.Signal.State.{Signals}
use nucleo_tests.Signal.Sets.{sigismember, sigaddset, sigemptyset}
use nucleo_tests.Signal.Sets.Laws.{sigismember_bit, sigismember_laws}
use nucleo_tests.Signal.Mask.{
  How, sig_block, sig_setmask, sig_unblock, other, sigprocmask, sighold, sigrelse, sigholdrel,
}

module _ (wild_shift : ℤ → ℕ) where
  abbrev pub blocked : ℕ → Signals → Bool
  blocked j s = sigismember wild_shift s.procmask (pos (suc j))

  -- Whether a signal is blocked after `sigprocmask` with a set, by the way of the change.
  abbrev pub blocked_after : How → Bool → Bool → Bool
  blocked_after sig_block before given = before || given
  blocked_after sig_setmask before given = given
  blocked_after sig_unblock before given = before && not given
  blocked_after (other _) before given = before

  -- For each signal from 1 to 32 and each way of change: `sigprocmask` blocks it exactly where
  -- POSIX says, and hands back the mask from before.
  pub sigprocmask-blocked :
      (how : How) (set j : ℕ) (s : Signals)
      → j < 32
      → set < 2 ^ 32
      → let (_, oset, s') = sigprocmask how (some set) s in
        (blocked j s' ≡ blocked_after how (blocked j s) (sigismember wild_shift set (pos (suc j))))
        × (oset ≡ s.procmask)
  unfolding sigprocmask
  sigprocmask-blocked sig_block set j s hj hs = (
    sigismember_bit wild_shift (bit_or s.procmask set) j hj
        ∙ (test_bit-bit_or j s.procmask set
            ∙ ground (
              arith,
              sigismember_bit wild_shift s.procmask j hj,
              sigismember_bit wild_shift set j hj,
            )),
    refl,
  )
  sigprocmask-blocked sig_setmask set j s hj hs = (refl, refl)
  sigprocmask-blocked sig_unblock set j s hj hs = (
    sigismember_bit wild_shift (bit_and s.procmask (complement 32 set)) j hj
        ∙ (test_bit-bit_and j s.procmask (complement 32 set)
            ∙ ground (
              arith,
              test_bit-complement 32 j set hj hs,
              sigismember_bit wild_shift s.procmask j hj,
              sigismember_bit wild_shift set j hj,
            )),
    refl,
  )
  sigprocmask-blocked (other n) set j s hj hs = (refl, refl)

  single-lt : (i : ℕ) → i < 32 → sigaddset wild_shift sigemptyset (pos (suc i)) < 2 ^ 32
  unfolding sigaddset
  single-lt i h = rw (lt→ltb i 32 h) (bit_or-lt 32 0 (2 ^ i) (omega arith) (two_pow-lt_word i h))

  single_member :
      (i j : ℕ)
      → i < 32
      → j < 32
      → sigismember wild_shift (sigaddset wild_shift sigemptyset (pos (suc i))) (pos (suc j))
        ≡ (i == j)
  single_member i j hi hj = ground (
    arith,
    (sigismember_laws wild_shift sigemptyset i j hi hj).0,
    (sigismember_laws wild_shift 0 i j hi hj).2,
  )

  -- For the signals from 1 to 32: `sighold` blocks its signal and `sigrelse` lets it through, and
  -- neither changes that of another signal.
  pub sighold-sigrelse-blocked :
      (i j : ℕ) (s : Signals)
      → i < 32
      → j < 32
      → (blocked j (sighold wild_shift (pos (suc i)) s).1 ≡ (blocked j s || (i == j)))
        × (blocked j (sigrelse wild_shift (pos (suc i)) s).1 ≡ (blocked j s && not (i == j)))
  unfolding sighold sigrelse sigholdrel
  sighold-sigrelse-blocked i j s hi hj =
      let set = sigaddset wild_shift sigemptyset (pos (suc i)) in
      let at_least_one : leb_ℤ (pos (suc i)) (pos 0) ≡ false = ground arith in
      rw at_least_one (
        (sigprocmask-blocked sig_block set j s hj (single-lt i hi)).0
            ∙ ap (λ b. blocked j s || b) (single_member i j hi hj),
        (sigprocmask-blocked sig_unblock set j s hj (single-lt i hi)).0
            ∙ ap (λ b. blocked j s && not b) (single_member i j hi hj),
      )
