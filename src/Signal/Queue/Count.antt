-- ===== src/Signal/Queue/Count.antt =====
-- How many slots hold a pending signal, and what one write does to that.
use nucleo_tests.Base.{
  ℕ, zero, suc, ◌+◌, ◌≤◌, ◌≡◌, refl, arith, true, false, Option, none, some, List, [], ◌∷◌, length,
  get_elem?, set, if◌then◌else◌, Bool-cases, inl, inr, ap,
}
use mathlib.Core.Option.{some-injective}
use nucleo_tests.Signal.State.{SignalQueueItem}
use nucleo_tests.Signal.Queue.{is_free, free_slot}

abbrev pub pending : List SignalQueueItem → ℕ
pending [] = 0
pending (item ∷ items) = (if is_free item then 0 else 1) + pending items

abbrev pub one_if_used : SignalQueueItem → ℕ
one_if_used item = if is_free item then 0 else 1

pub pending-set :
    (items : List SignalQueueItem) (i : ℕ) (old new : SignalQueueItem)
    → get_elem? items i ≡ some old
    → pending (set items i new) + one_if_used old ≡ pending items + one_if_used new
pending-set [] i old new e = absurd (cc)
pending-set (x ∷ xs) zero old new e = omega (arith, ap one_if_used (some-injective x old e))
pending-set (x ∷ xs) (suc i) old new e = omega (arith, pending-set xs i old new e)

pub pending-le : (items : List SignalQueueItem) → pending items ≤ length items
pending-le [] = omega arith
pending-le (x ∷ xs) = ground (arith, pending-le xs)

-- The slot that is found is free, and none is found only in a full queue.
abbrev pub SlotFound : List SignalQueueItem → Option ℕ → Type 0
SlotFound items none = pending items ≡ length items
SlotFound items (some i) =
    (item : SignalQueueItem) × (get_elem? items i ≡ some item) × (is_free item ≡ true)

pub free_slot_found : (items : List SignalQueueItem) → SlotFound items (free_slot items)
unfolding free_slot
free_slot_found [] = omega arith
free_slot_found (x ∷ xs) = elim (Bool-cases (is_free x)) [
  | inl free ↦ rw free (x, refl, free)
  | inr used ↦ rw used (later used (free_slot xs) (free_slot_found xs))
]
  where
    later :
        is_free x ≡ false
        → (o : Option ℕ) → SlotFound xs o
        → SlotFound (x ∷ xs) (elim o [ none ↦ none | some i ↦ some (suc i) ])
    later used none h = rw used (omega (arith, h))
    later used (some i) h = h
