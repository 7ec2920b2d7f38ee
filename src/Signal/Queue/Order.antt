-- ===== src/Signal/Queue/Order.antt =====
-- The loop of `signal_dequeue` finds the oldest candidate.
use nucleo_tests.Base.{
  ℕ, suc, ◌+◌, ◌≤◌, ◌≡◌, ◌⊎◌, refl, ap, arith, true, false, Option, none, some, List, [], ◌∷◌, inl,
  inr, get_elem?, All, Bool-cases,
}
use mathlib.Core.Option.{some-injective}
use nucleo_tests.Base.Int.{ℤ, ◌≤ℤ◌, ◌-ℤ◌, ltb_ℤ, i32-FitsInt, pos_part, neg_part}
use nucleo_tests.Timespec.{int_max}
use nucleo_tests.Signal.State.{SignalQueueItem}
use nucleo_tests.Signal.Queue.{is_candidate, is_important, choose}

-- An order that was given out: from 0 to `INT_MAX`.
abbrev pub IsOrder : ℤ → Type 0
IsOrder o = (pos_part o ≤ int_max) × (neg_part o ≡ 0)

abbrev pub InWindow : SignalQueueItem → Type 0
InWindow item = IsOrder item.order

-- Such orders are compared as they are: nothing wraps.
important_lt :
    (o o' : ℤ) (i : ℕ) → IsOrder o → IsOrder o' → is_important o (some (i, o')) ≡ ltb_ℤ o o'
unfolding is_important ◌-ℤ◌
important_lt o o' i h k = ground (arith, i32-FitsInt (o -ℤ o'))

module _ (wild_shift : ℤ → ℕ) (set : ℕ) where
  -- No candidate is older than `o`.
  abbrev pub Oldest : ℤ → List SignalQueueItem → Type 0
  Oldest o = All (λ item. is_candidate wild_shift set item ≡ true → o ≤ℤ item.order)

  abbrev pub NoCandidate : List SignalQueueItem → Type 0
  NoCandidate = All (λ item. is_candidate wild_shift set item ≡ false)

  abbrev pub Before : ℤ → Option (ℕ × ℤ) → Type 0
  Before o none = Unit
  Before o (some (_, o')) = o ≤ℤ o'

  abbrev pub ChosenIn : Option (ℕ × ℤ) → Type 0
  ChosenIn none = Unit
  ChosenIn (some (_, o)) = IsOrder o

  -- The slot that the loop settled on: the one chosen before, or one of the rest.
  pub record Chosen (items : List SignalQueueItem) (k : ℕ) (before : Option (ℕ × ℤ)) (i : ℕ) (o : ℤ)
      : Type 0 where
    pub oldest : Oldest o items
    pub older : Before o before
    pub source :
        (before ≡ some (i, o))
        ⊎ ((j : ℕ) × (item : SignalQueueItem) × (get_elem? items j ≡ some item)
            × (i ≡ k + j)
            × (is_candidate wild_shift set item ≡ true)
            × (item.order ≡ o))

  abbrev pub Choice : List SignalQueueItem → ℕ → Option (ℕ × ℤ) → Option (ℕ × ℤ) → Type 0
  Choice items k before none = (before ≡ none) × NoCandidate items
  Choice items k before (some (i, o)) = Chosen items k before i o

  pass_over :
      (item : SignalQueueItem) (items : List SignalQueueItem) (k : ℕ) (before r : Option (ℕ × ℤ))
      → is_candidate wild_shift set item ≡ false
      → Choice items (k + 1) before r
      → Choice (item ∷ items) k before r
  pass_over item items k before none n h = (h.0, (n, h.1))
  pass_over item items k before (some (i, o)) n h = record {
    oldest = (λ y. absurd (cc (n, y)), h.oldest);
    older = h.older;
    source = elim h.source [
      | inl e ↦ inl e
      | inr (j, x, e, at, cand, same) ↦ inr (suc j, x, e, omega arith, cand, same)
    ];
  }

  -- A candidate that is older than the one chosen takes its place.
  take_over :
      (item : SignalQueueItem) (items : List SignalQueueItem) (k : ℕ) (before r : Option (ℕ × ℤ))
      → is_candidate wild_shift set item ≡ true
      → Before item.order before
      → Choice items (k + 1) (some (k, item.order)) r
      → Choice (item ∷ items) k before r
  take_over item items k before none c l h = absurd (cc (h.0))
  take_over item items k before (some (i, o)) c l h = record {
    oldest = (λ y. h.older, h.oldest);
    older = before_trans before l h.older;
    source = elim h.source [
      | inl e ↦ inr (
        0,
        item,
        refl,
        omega (arith, ap (λ p. p.0) (some-injective _ _ e)),
        c,
        ap (λ p. p.1) (some-injective _ _ e),
      )
      | inr (j, x, e, at, cand, same) ↦ inr (suc j, x, e, omega arith, cand, same)
    ];
  }
    where
      before_trans : (b : Option (ℕ × ℤ)) → Before item.order b → o ≤ℤ item.order → Before o b
      before_trans none p q = tt
      before_trans (some (_, o')) p q = omega arith

  -- A candidate that is not older leaves the choice.
  stay :
      (item : SignalQueueItem) (items : List SignalQueueItem) (k i' : ℕ) (o' : ℤ)
      (r : Option (ℕ × ℤ))
      → o' ≤ℤ item.order
      → Choice items (k + 1) (some (i', o')) r
      → Choice (item ∷ items) k (some (i', o')) r
  stay item items k i' o' none l h = absurd (cc (h.0))
  stay item items k i' o' (some (i, o)) l h = record {
    oldest = (λ y. omega (arith, h.older), h.oldest);
    older = h.older;
    source = elim h.source [
      | inl e ↦ inl e
      | inr (j, x, e, at, cand, same) ↦ inr (suc j, x, e, omega arith, cand, same)
    ];
  }

  pub choose-Choice :
      (items : List SignalQueueItem) (k : ℕ) (before : Option (ℕ × ℤ))
      → All InWindow items
      → ChosenIn before
      → Choice items k before (choose wild_shift set items k before)
  unfolding choose is_important
  choose-Choice [] k none h c = (refl, tt)
  choose-Choice [] k (some (i, o)) h c = record {
    oldest = tt;
    older = omega arith;
    source = inl refl;
  }
  choose-Choice (item ∷ items) k none h c = elim (Bool-cases (is_candidate wild_shift set item)) [
    | inr n ↦ rw n (pass_over item items k none _ n (choose-Choice items (k + 1) none h.1 c))
    | inl y ↦ rw y (
        take_over item items k none _ y tt
          (choose-Choice items (k + 1) (some (k, item.order)) h.1 h.0))
  ]
  choose-Choice (item ∷ items) k (some (i, o)) h c =
      elim (Bool-cases (is_candidate wild_shift set item)) [
        | inr n ↦ rw n (
            pass_over item items k (some (i, o)) _ n
              (choose-Choice items (k + 1) (some (i, o)) h.1 c))
        | inl y ↦ elim (Bool-cases (ltb_ℤ item.order o)) [
          | inl younger ↦
              rw (y, important_lt item.order o i h.0 c, younger)
                (take_over item items k (some (i, o)) _ y (ground (arith, younger))
                  (choose-Choice items (k + 1) (some (k, item.order)) h.1 h.0))
          | inr older ↦
              rw (y, important_lt item.order o i h.0 c, older)
                (stay item items k i o _ (ground (arith, older))
                  (choose-Choice items (k + 1) (some (i, o)) h.1 c))
        ]
      ]
