-- ===== src/Rfc868/Epoch.antt =====
-- Which answers of a time server are taken, and as what time.
use native.Mathlib.Decide.{dec_lt}
use nucleo_tests.Base.{ℕ, ◌+◌, ◌-◌, ◌^◌, ◌≤◌, ◌<◌, ◌≡◌, ◌⊎◌, inl, inr, arith}
use nucleo_tests.Base.Int.{pos, ◌-ℤ◌, i32, i32-FitsInt, minus_one}
use nucleo_tests.Timespec.{Timespec}
use nucleo_tests.Sntp.{secs_to_epoch}
use nucleo_tests.Rfc868.{rfc868_accept}

-- From an answer in seconds since 1900, which is not 0, `rfc868_gettime` makes one of three things. An
-- answer from 1970 on becomes the seconds since 1970, and half a second. One from 2^31 up to 1970 is
-- refused with -1. One below 2^31, though it lies before 1970 too, is not refused: it is taken for
-- the time that the sum with 2085978496 stands for, as a 32-bit integer.
pub rfc868_accept-cases :
    (secs : ℕ) (old : Timespec)
    → 0 < secs
    → secs < 2 ^ 32
    → let r = rfc868_accept secs old in
      ((secs_to_epoch ≤ secs)
        × (r ≡ (pos 0, record { sec = pos (secs - secs_to_epoch); nsec = pos 500000000 })))
      ⊎ ((2 ^ 31 ≤ secs) × (secs < secs_to_epoch) × (r ≡ (minus_one, old)))
      ⊎ ((secs < 2 ^ 31)
          × (r ≡ (pos 0, record { sec = i32 (pos (secs + 2085978496)); nsec = pos 500000000 })))
unfolding rfc868_accept ◌-ℤ◌
rfc868_accept-cases secs old p h = elim (le_or_lt secs_to_epoch secs) [
  | inl late ↦
      let e : secs + 2085978496 - 2 ^ 32 ≡ secs - secs_to_epoch = omega arith in
      inl (late, ground (arith, i32-FitsInt (pos (secs - secs_to_epoch))))
  | inr early ↦ elim (le_or_lt (2 ^ 31) secs) [
    | inl wild ↦ inr (inl (wild, early, ground arith))
    | inr small ↦ inr (inr (small, ground arith))
  ]
]
  where
    le_or_lt : (a b : ℕ) → (a ≤ b) ⊎ (b < a)
    le_or_lt a b = elim (dec_lt b a) [ yes h ↦ inr h | no h ↦ inl (omega arith) ]
