-- ===== src/Signal/Queue/Dequeue.antt =====
-- `signal_dequeue`: the oldest pending signal of a set is taken off the queue.
use nucleo_tests.Base.{
  ℕ, ◌+◌, ◌≡◌, ◌⊎◌, inl, inr, refl, sym, subst, arith, true, false, Option, none, some, set,
  get_elem?, All-set, All-get, All-weaken, length-set,
}
use nucleo_tests.Base.Int.{ℤ}
use nucleo_tests.Signal.State.{Siginfo, SignalQueueItem, Signals}
use nucleo_tests.Signal.Queue.{is_free, is_candidate, choose, freed, take_chosen, signal_dequeue}
use nucleo_tests.Signal.Queue.Count.{pending, pending-set, one_if_used}
use nucleo_tests.Signal.Queue.Order.{InWindow, Oldest, NoCandidate, Choice, choose-Choice}
use nucleo_tests.Signal.Queue.Enqueue.{IsQueue, GivenOut}

module _ (wild_shift : ℤ → ℕ) (wanted : ℕ) where
  -- The queue after the signal of one slot was taken.
  pub record Dequeued (s : Signals) (info : Siginfo) (s' : Signals) : Type 0 where
    pub slot : ℕ
    pub item : SignalQueueItem
    pub held : (get_elem? s.items slot ≡ some item) × (item.info ≡ info)
    pub wanted_pending : is_candidate wild_shift wanted item ≡ true
    pub oldest : Oldest wild_shift wanted item.order s.items
    pub result : s' ≡ record s { items = set s.items slot (freed item) }
    pub one_less : pending s'.items + 1 ≡ pending s.items
    pub queue : IsQueue s'

  module _ (s : Signals) (q : IsQueue s) where
    freed_queue :
        (i : ℕ) (item : SignalQueueItem)
        → get_elem? s.items i ≡ some item
        → IsQueue (record s { items = set s.items i (freed item) })
    freed_queue i item e = record {
      slots = omega (arith, q.slots, length-set s.items i (freed item));
      last = q.last;
      given =
          All-set (GivenOut s.last_order) s.items i (freed item)
            (All-get (GivenOut s.last_order) s.items i item q.given e) q.given;
    }

    one_freed :
        (i : ℕ) (item : SignalQueueItem)
        → get_elem? s.items i ≡ some item
        → is_candidate wild_shift wanted item ≡ true
        → pending (set s.items i (freed item)) + 1 ≡ pending s.items
    one_freed i item e c =
        let moved = pending-set s.items i item (freed item) e in
        let used : is_free item ≡ false = ground (arith, c) in
        let one_before : one_if_used item ≡ 1 = rw used in omega arith

    outcome :
        (o : Option (ℕ × ℤ))
        → Choice wild_shift wanted s.items 0 none o
        → let r = take_chosen o s in
          ((r ≡ (none, s)) × NoCandidate wild_shift wanted s.items)
          ⊎ ((info : Siginfo) × (r.0 ≡ some info) × Dequeued s info r.1)
    outcome none h = inl (refl, h.1)
    outcome (some (i, o)) h = elim h.source [
      | inl e ↦ absurd (cc)
      | inr (j, item, e, at, c, same) ↦
          let here : get_elem? s.items i ≡ some item =
            subst (λ k. get_elem? s.items k ≡ some item) (omega arith) e in
          rw here (
            inr (
              item.info,
              refl,
              record {
                slot = i;
                item = item;
                held = (here, refl);
                wanted_pending = c;
                oldest = subst (λ a. Oldest wild_shift wanted a s.items) (sym same) h.oldest;
                result = refl;
                one_less = one_freed i item here c;
                queue = freed_queue i item here;
              },
            ))
    ]

  -- In a well-formed queue `signal_dequeue` either finds no pending signal of the set, returns -1
  -- and changes nothing; or it returns a pending signal of the set than which no other of the set
  -- is older, and frees its slot and nothing else.
  pub signal_dequeue_oldest :
      (s : Signals)
      → IsQueue s
      → let r = signal_dequeue wild_shift wanted s in
        ((r ≡ (none, s)) × NoCandidate wild_shift wanted s.items)
        ⊎ ((info : Siginfo) × (r.0 ≡ some info) × Dequeued s info r.1)
  unfolding signal_dequeue
  signal_dequeue_oldest s q = outcome s q (choose wild_shift wanted s.items 0 none) (
      choose-Choice wild_shift wanted s.items 0 none
        (All-weaken (GivenOut s.last_order) InWindow s.items (λ x h. h.0) q.given) tt)
