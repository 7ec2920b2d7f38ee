-- ===== src/Syscalls/Break.antt =====
-- The program break under a sequence of `_sbrk` calls.
use nucleo_tests.Base.{inl, inr, arith, List, [], ◌∷◌, Bool-cases}
use nucleo_tests.Base.Int.{ℤ, ◌+ℤ◌, ◌<ℤ◌, leb_ℤ}
use nucleo_tests.Syscalls.{sbrk}

-- The break after a sequence of requests.
unfoldable pub sbrk_all : ℤ → ℤ → List ℤ → ℤ
sbrk_all max_break program_break [] = program_break
sbrk_all max_break program_break (incr ∷ incrs) =
    sbrk_all max_break (sbrk max_break program_break incr).1 incrs

sbrk-lt :
    (max_break program_break incr : ℤ)
    → program_break <ℤ max_break
    → (sbrk max_break program_break incr).1 <ℤ max_break
unfolding sbrk
sbrk-lt m b i h = elim (Bool-cases (leb_ℤ m (b +ℤ i))) [
  | inl full ↦ rw full h
  | inr room ↦ rw room (ground (arith, room))
]

-- Whatever is asked for, in whatever order, the break never reaches the stack.
pub sbrk_all_below_stack :
    (max_break program_break : ℤ) (incrs : List ℤ)
    → program_break <ℤ max_break
    → sbrk_all max_break program_break incrs <ℤ max_break
unfolding sbrk_all
sbrk_all_below_stack m b [] h = h
sbrk_all_below_stack m b (i ∷ is) h = sbrk_all_below_stack m (sbrk m b i).1 is (sbrk-lt m b i h)
