-- ===== src/File/Alloc.antt =====
-- `file_alloc` hands out the lowest free descriptor from 3 on.
use nucleo_tests.Base.{
  ℕ, zero, suc, ◌+◌, ◌≤◌, ◌<◌, ◌≡◌, ◌≢◌, ◌⊎◌, subst, inl, inr, refl, arith, true, false, length,
  set, Bool-cases, get_elem?-set_self,
}
use native.Mathlib.Decide.{dec_lt}
use nucleo_tests.Base.Int.{ℤ, pos, minus_one}
use nucleo_tests.File.{Files, is_allocated, fresh_fd, file_alloc_from, file_alloc, open_max}

-- The outcome of a search of the descriptors from `lo` below `hi`.
pub record Found (files : Files) (lo hi fd : ℕ) (files' : Files) : Type 0 where
  pub in_range : (lo ≤ fd) × (fd < hi)
  pub was_free : is_allocated files fd ≡ false
  pub lowest : (j : ℕ) → lo ≤ j → j < fd → is_allocated files j ≡ true
  pub entry : files' ≡ set files fd (fresh_fd fd)

unfoldable pub Outcome : Files → ℕ → ℕ → ℤ × Files → Type 0
Outcome files lo hi r =
    ((fd : ℕ) × (r.0 ≡ pos fd) × Found files lo hi fd r.1)
    ⊎ ((r ≡ (minus_one, files)) × ((j : ℕ) → lo ≤ j → j < hi → is_allocated files j ≡ true))

extend :
    (files : Files) (lo hi : ℕ) (r : ℤ × Files)
    → is_allocated files lo ≡ true
    → Outcome files (lo + 1) hi r
    → Outcome files lo hi r
unfolding Outcome
extend files lo hi r taken (inl (fd, e, found)) = inl (
  fd,
  e,
  record {
    in_range = omega (arith, found.in_range);
    was_free = found.was_free;
    lowest = λ j p q. elim (dec_lt lo j) [
      | yes l ↦ found.lowest j (omega arith) q
      | no g ↦ subst (λ i. is_allocated files i ≡ true) (omega arith) taken
    ];
    entry = found.entry;
  },
)
extend files lo hi r taken (inr (e, all)) = inr (
  e,
  λ j p q. elim (dec_lt lo j) [
    | yes l ↦ all j (omega arith) q
    | no g ↦ subst (λ i. is_allocated files i ≡ true) (omega arith) taken
  ],
)

file_alloc_from-Outcome :
    (rounds lo : ℕ) (files : Files)
    → Outcome files lo (lo + rounds) (file_alloc_from rounds lo files)
unfolding file_alloc_from Outcome
file_alloc_from-Outcome zero lo files = inr (refl, λ j p q. absurd (omega arith))
file_alloc_from-Outcome (suc rounds) lo files = elim (Bool-cases (is_allocated files lo)) [
  | inl taken ↦ rw taken (
      extend files lo (lo + suc rounds) (file_alloc_from rounds (lo + 1) files) taken (
        subst (λ h. Outcome files (lo + 1) h (file_alloc_from rounds (lo + 1) files)) (omega arith)
          (file_alloc_from-Outcome rounds (lo + 1) files)))
  | inr free ↦ rw free (
      inl (
        lo,
        refl,
        record {
          in_range = omega arith;
          was_free = free;
          lowest = λ j p q. absurd (omega arith);
          entry = refl;
        },
      ))
]

-- `file_alloc` either returns the lowest unallocated descriptor from 3 below `OPEN_MAX`, whose
-- entry it clears and marks and no other; or it returns -1 with the table as it was, and then
-- every descriptor in that range is allocated.
pub file_alloc-Outcome : (files : Files) → Outcome files 3 open_max (file_alloc files)
unfolding file_alloc
file_alloc-Outcome files = file_alloc_from-Outcome 17 3 files

is_allocated-set_self :
    (files : Files) (fd : ℕ)
    → fd < length files
    → is_allocated (set files fd (fresh_fd fd)) fd ≡ true
is_allocated-set_self files fd h = rw (get_elem?-set_self files fd (fresh_fd fd) h, is_allocated)

-- In a whole table, two calls of `file_alloc` in a row that succeed return different descriptors.
pub file_alloc_twice :
    (files : Files) (a b : ℕ)
    → length files ≡ open_max
    → (file_alloc files).0 ≡ pos a
    → (file_alloc (file_alloc files).1).0 ≡ pos b
    → a ≢ b
unfolding Outcome
file_alloc_twice files a b len first second = elim (file_alloc-Outcome files) [
  | inr (e, _) ↦ cc
  | inl (fd, e, found) ↦ elim (file_alloc-Outcome (file_alloc files).1) [
    | inr (e', _) ↦ cc
    | inl (fd', e', found') ↦ λ same.
        let taken : is_allocated (file_alloc files).1 fd ≡ true =
          rw found.entry (is_allocated-set_self files fd (omega (arith, found.in_range))) in
        cc (taken, found'.was_free)
  ]
]
