-- ===== src/Select/FdSet.antt =====
-- The set operations against membership.
use nucleo_tests.Base.{
  ℕ, ◌/◌, ◌%◌, ◌^◌, ◌≤◌, ◌<◌, ◌≡◌, ◌∙◌, arith, Bool, false, not, ◌&&◌, ◌||◌, some, [], ◌∷◌, length,
  get_or, bit_and, bit_or, ◌==◌, ltb, Bool-cases, inl, inr, ltb→lt, lt→ltb, Option, none,
}
use nucleo_tests.Base.Bits.{
  test_bit, test_bit-bit_and, test_bit-bit_or, test_bit-complement, test_bit-two_pow, test_bit-zero,
  bit_and-two_pow, complement, bit_or-lt, bit_and-le, two_pow-lt_word,
}
use nucleo_tests.Base.Int.{ℤ, pos, negsuc}
use nucleo_tests.Select.{
  FdSet, set_words, fd_setsize, get_bit, set_bit, clear_bit, fd_isset, fd_set, fd_clr, fd_zero,
}

-- One word of 32 bits.
pub record IsFdSet (s : FdSet) : Type 0 where
  pub size : length s ≡ set_words
  pub word : get_or s 0 0 < 2 ^ 32

small_index : (fd : ℕ) → fd < fd_setsize → (fd / 32 ≡ 0) × (fd % 32 ≡ fd)
small_index fd h = omega arith

-- On the one word that there is, the operations are those on its bits.
get_bit_word : (fd x : ℕ) → fd < fd_setsize → get_bit fd (x ∷ []) ≡ test_bit x fd
unfolding get_bit
get_bit_word fd x h =
    rw ((small_index fd h).0, (small_index fd h).1) (rw bit_and-two_pow (not_not (test_bit x fd)))
  where
    not_not : (b : Bool) → not (not b) ≡ b
    not_not b = ground arith

set_bit_word : (fd x : ℕ) → fd < fd_setsize → set_bit fd (x ∷ []) ≡ bit_or x (2 ^ fd) ∷ []
unfolding set_bit
set_bit_word fd x h = rw ((small_index fd h).0, (small_index fd h).1)

clear_bit_word :
    (fd x : ℕ) → fd < fd_setsize → clear_bit fd (x ∷ []) ≡ bit_and x (complement 32 (2 ^ fd)) ∷ []
unfolding clear_bit
clear_bit_word fd x h = rw ((small_index fd h).0, (small_index fd h).1)

isset_word : (j x : ℕ) → j < fd_setsize → fd_isset (pos j) (some (x ∷ [])) ≡ test_bit x j
unfolding fd_isset
isset_word j x h = rw (lt→ltb j fd_setsize h) (get_bit_word j x h)

pub isset_above : (j : ℕ) (s : FdSet) → fd_setsize ≤ j → fd_isset (pos j) (some s) ≡ false
unfolding fd_isset
isset_above j s h = ground arith

module _ (i j x : ℕ) (hi : i < fd_setsize) (hj : j < fd_setsize) (hx : x < 2 ^ 32) where
  isset-set :
      fd_isset (pos j) (fd_set (pos i) (some (x ∷ [])))
      ≡ ((i == j) || fd_isset (pos j) (some (x ∷ [])))
  unfolding fd_set
  isset-set =
      rw
        (
          lt→ltb i fd_setsize hi,
          set_bit_word i x hi,
          isset_word j (bit_or x (2 ^ i)) hj,
          isset_word j x hj,
        )
        (ground (arith, test_bit-bit_or j x (2 ^ i), test_bit-two_pow i j))

  isset-clr :
      fd_isset (pos j) (fd_clr (pos i) (some (x ∷ [])))
      ≡ (not (i == j) && fd_isset (pos j) (some (x ∷ [])))
  unfolding fd_clr
  isset-clr =
      rw
        (
          lt→ltb i fd_setsize hi,
          clear_bit_word i x hi,
          isset_word j (bit_and x (complement 32 (2 ^ i))) hj,
          isset_word j x hj,
        )
        (ground (
          arith,
          test_bit-bit_and j x (complement 32 (2 ^ i)),
          test_bit-complement 32 j (2 ^ i) (omega arith) (two_pow-lt_word i (omega arith)),
          test_bit-two_pow i j,
        ))

-- For descriptors below `FD_SETSIZE` and a set of its one word: `FD_SET` puts in its descriptor
-- and no other, `FD_CLR` takes out its descriptor and no other, and nothing is left by `FD_ZERO`.
pub fd_isset_laws :
    (s : FdSet) (i j : ℕ)
    → IsFdSet s
    → i < fd_setsize
    → j < fd_setsize
    → (fd_isset (pos j) (fd_set (pos i) (some s)) ≡ ((i == j) || fd_isset (pos j) (some s)))
      × (fd_isset (pos j) (fd_clr (pos i) (some s)) ≡ (not (i == j) && fd_isset (pos j) (some s)))
      × (fd_isset (pos j) (fd_zero (some s)) ≡ false)
unfolding fd_zero
fd_isset_laws [] i j h hi hj = absurd (omega (arith, h.size))
fd_isset_laws (x ∷ []) i j h hi hj = (
  isset-set i j x hi hj h.word,
  isset-clr i j x hi hj h.word,
  isset_word j 0 hj ∙ test_bit-zero j,
)
fd_isset_laws (x ∷ y ∷ s) i j h hi hj = absurd (omega (arith, h.size))

set_word : (fd : ℕ) (s : FdSet) → IsFdSet s → fd < fd_setsize → IsFdSet (set_bit fd s)
set_word fd [] h l = absurd (omega (arith, h.size))
set_word fd (x ∷ []) h l = rw (set_bit_word fd x l) (record {
  size = omega arith;
  word = bit_or-lt 32 x (2 ^ fd) h.word (two_pow-lt_word fd (omega arith));
})
set_word fd (x ∷ y ∷ s) h l = absurd (omega (arith, h.size))

clear_word : (fd : ℕ) (s : FdSet) → IsFdSet s → fd < fd_setsize → IsFdSet (clear_bit fd s)
clear_word fd [] h l = absurd (omega (arith, h.size))
clear_word fd (x ∷ []) h l = rw (clear_bit_word fd x l) (record {
  size = omega arith;
  word = omega (arith, h.word, bit_and-le x (complement 32 (2 ^ fd)));
})
clear_word fd (x ∷ y ∷ s) h l = absurd (omega (arith, h.size))

abbrev pub AreFdSet : Option FdSet → Type 0
AreFdSet none = Unit
AreFdSet (some s) = IsFdSet s

-- The operations leave a set of its one word, whatever the descriptor.
pub fd_ops-IsFdSet :
    (fd : ℤ) (s : Option FdSet)
    → AreFdSet s
    → AreFdSet (fd_set fd s) × AreFdSet (fd_clr fd s) × AreFdSet (fd_zero s)
unfolding fd_set fd_clr fd_zero
fd_ops-IsFdSet (pos fd) none h = (tt, tt, tt)
fd_ops-IsFdSet (negsuc n) none h = (tt, tt, tt)
fd_ops-IsFdSet (negsuc n) (some s) h = (h, h, omega arith)
fd_ops-IsFdSet (pos fd) (some s) h = (
  elim (Bool-cases (ltb fd fd_setsize)) [
    | inl small ↦ rw small (set_word fd s h (ltb→lt fd fd_setsize small))
    | inr big ↦ rw big h
  ],
  elim (Bool-cases (ltb fd fd_setsize)) [
    | inl small ↦ rw small (clear_word fd s h (ltb→lt fd fd_setsize small))
    | inr big ↦ rw big h
  ],
  omega arith,
)
