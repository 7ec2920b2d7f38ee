-- ===== src/File/Free.antt =====
-- `file_free` releases one descriptor, which `file_alloc` can then hand out again.
use nucleo_tests.Base.{
  ℕ, ◌≤◌, ◌<◌, ◌≡◌, ◌≢◌, inl, inr, refl, arith, none, some, Option, false, get_elem?, Option-cases,
  lt_of_get_elem?, get_elem?-set_self, get_elem?-set_ne, Bool-cases, lt→ltb,
}
use native.Mathlib.Decide.{dec_lt}
use nucleo_tests.Base.Int.{pos}
use nucleo_tests.File.{Fd, Files, is_allocated, mark_free, file_free, file_alloc, open_max}
use nucleo_tests.File.Alloc.{Outcome, file_alloc-Outcome}

is_allocated-mark_free :
    (files : Files) (fd : ℕ) → is_allocated (mark_free (get_elem? files fd) fd files) fd ≡ false
is_allocated-mark_free files fd = elim (Option-cases (get_elem? files fd)) [
  | inl e ↦ rw (e, is_allocated) (rw e)
  | inr (f, e) ↦ elim (Bool-cases f.isallocated) [
    | inl t ↦
        rw (e, t)
          (rw (
            get_elem?-set_self files fd (record f { isallocated = false })
                (lt_of_get_elem? files fd f e),
            is_allocated,
          ))
    | inr t ↦ rw (e, t) (rw (e, is_allocated) t)
  ]
]

get_elem?-mark_free :
    (files : Files) (fd j : ℕ) (o : Option Fd)
    → fd ≢ j
    → get_elem? (mark_free o fd files) j ≡ get_elem? files j
get_elem?-mark_free files fd j none h = refl
get_elem?-mark_free files fd j (some f) h = elim (Bool-cases f.isallocated) [
  | inl t ↦ rw t (get_elem?-set_ne files (record f { isallocated = false }) h)
  | inr t ↦ rw t
]

-- After `file_free fd`, for a descriptor below `OPEN_MAX`, that descriptor is not allocated and
-- every other entry is what it was.
pub file_free_lem :
    (files : Files) (fd : ℕ)
    → fd < open_max
    → (is_allocated (file_free files (pos fd)) fd ≡ false)
      × ((j : ℕ) → fd ≢ j → get_elem? (file_free files (pos fd)) j ≡ get_elem? files j)
unfolding file_free
file_free_lem files fd h = rw (lt→ltb fd open_max h) (
  is_allocated-mark_free files fd,
  λ j ne. get_elem?-mark_free files fd j (get_elem? files fd) ne,
)

-- Once a descriptor from 3 on is freed, `file_alloc` succeeds, with a descriptor no higher.
pub file_alloc-file_free :
    (files : Files) (fd : ℕ)
    → 3 ≤ fd
    → fd < open_max
    → (r : ℕ) × ((file_alloc (file_free files (pos fd))).0 ≡ pos r) × (r ≤ fd)
unfolding Outcome
file_alloc-file_free files fd lo hi =
    let free = (file_free_lem files fd hi).0 in
    elim (file_alloc-Outcome (file_free files (pos fd))) [
      | inl (r, e, found) ↦ (
        r,
        e,
        elim (dec_lt fd r) [
          | yes l ↦ let taken = found.lowest fd lo l in absurd (cc (taken, free))
          | no g ↦ omega arith
        ],
      )
      | inr (e, all) ↦ let taken = all fd lo hi in absurd (cc (taken, free))
    ]
