-- ===== src/Signal/Queue/Enqueue.antt =====
-- `sigqueue_info`: a signal is queued as the newest, or refused when the queue is full.
use nucleo_tests.Base.{
  ℕ, ◌+◌, ◌≡◌, ◌≢◌, ◌⊎◌, inl, inr, refl, sym, ap, subst, arith, true, false, Option, none, some,
  length, set, get_elem?, All, All-set, All-weaken, Bool-cases, get_elem?-set_self,
  get_elem?-set_ne, length-set, lt_of_get_elem?,
}
use nucleo_tests.Base.Int.{
  ℤ, pos, ◌+ℤ◌, ◌≤ℤ◌, ◌<ℤ◌, minus_one, i32, i32-FitsInt, pos_part, eqb_ℤ, eqb_ℤ_iff,
}
use nucleo_tests.Timespec.{int_max}
use nucleo_tests.Signal.State.{Siginfo, SignalQueueItem, Signals, sigqueue_max, eagain}
use nucleo_tests.Signal.Queue.{is_free, free_slot, store_info, sigqueue_info}
use nucleo_tests.Signal.Queue.Count.{pending, pending-set, free_slot_found, SlotFound, one_if_used}
use nucleo_tests.Signal.Queue.Order.{IsOrder}

-- The orders in the queue were given out in turn, up to the last one.
abbrev pub GivenOut : ℤ → SignalQueueItem → Type 0
GivenOut last item = IsOrder item.order × (item.order ≤ℤ last)

pub record IsQueue (s : Signals) : Type 0 where
  pub slots : length s.items ≡ sigqueue_max
  pub last : IsOrder s.last_order
  pub given : All (GivenOut s.last_order) s.items

-- The queue after a signal was put in slot `i`.
pub record Queued (info : Siginfo) (s s' : Signals) : Type 0 where
  pub slot : ℕ
  pub item : SignalQueueItem
  pub stored : (get_elem? s'.items slot ≡ some item) × (item.info ≡ info)
  pub newest : All (λ old. old.order <ℤ item.order) s.items
  pub others : (j : ℕ) → slot ≢ j → get_elem? s'.items j ≡ get_elem? s.items j
  pub one_more : pending s'.items ≡ pending s.items + 1
  pub interrupt : s'.pendsv ≡ true
  pub queue : IsQueue s'

module _ (info : Siginfo) (s : Signals) (q : IsQueue s) (used : info.si_signo ≢ pos 0)
    (room : s.last_order <ℤ pos int_max) where
  next_lem : i32 (s.last_order +ℤ pos 1) ≡ pos (pos_part s.last_order + 1)
  unfolding ◌+ℤ◌
  next_lem = ground (arith, q.last, i32-FitsInt (s.last_order +ℤ pos 1))

  new_item : SignalQueueItem
  new_item = record { info = info; order = pos (pos_part s.last_order + 1) }

  store : ℕ → Signals
  store i = record s {
    items = set s.items i new_item;
    last_order = pos (pos_part s.last_order + 1);
    pendsv = true;
  }

  store_info-eq : (i : ℕ) → store_info (some i) info s ≡ (pos 0, store i)
  unfolding store new_item
  store_info-eq i = rw next_lem

  occupied : is_free new_item ≡ false
  unfolding new_item
  occupied = elim (Bool-cases (eqb_ℤ info.si_signo (pos 0))) [
    | inl zero ↦ absurd (used ((eqb_ℤ_iff info.si_signo (pos 0)).0 zero))
    | inr other ↦ other
  ]

  counted :
      (i : ℕ) (old : SignalQueueItem)
      → get_elem? s.items i ≡ some old
      → is_free old ≡ true
      → pending (set s.items i new_item) ≡ pending s.items + 1
  counted i old e free =
      let moved = pending-set s.items i old new_item e in
      let none_before : one_if_used old ≡ 0 = rw free in
      let one_after : one_if_used new_item ≡ 1 = rw occupied in omega arith

  stored_queue :
      (i : ℕ) (old : SignalQueueItem)
      → get_elem? s.items i ≡ some old
      → is_free old ≡ true
      → Queued info s (store i)
  unfolding store new_item
  stored_queue i old e free = record {
    slot = i;
    item = new_item;
    stored = (get_elem?-set_self s.items i new_item (lt_of_get_elem? s.items i old e), refl);
    newest =
        All-weaken (GivenOut s.last_order) (λ x. x.order <ℤ pos (pos_part s.last_order + 1)) s.items
          (λ x h. omega (arith, q.last)) q.given;
    others = λ j ne. get_elem?-set_ne s.items new_item ne;
    one_more = counted i old e free;
    interrupt = refl;
    queue = record {
      slots = omega (arith, q.slots, length-set s.items i new_item);
      last = omega (arith, q.last);
      given =
          All-set (GivenOut (pos (pos_part s.last_order + 1))) s.items i new_item
            (omega (arith, q.last))
            (All-weaken (GivenOut s.last_order) (GivenOut (pos (pos_part s.last_order + 1))) s.items
              (λ x h. omega (arith, q.last)) q.given);
    };
  }

  outcome :
      (o : Option ℕ)
      → SlotFound s.items o
      → let r = store_info o info s in
        ((r.0 ≡ pos 0) × Queued info s r.1)
        ⊎ ((r ≡ (minus_one, record s { errno = eagain })) × (pending s.items ≡ sigqueue_max))
  outcome none full = inr (refl, omega (arith, q.slots, full))
  outcome (some i) (old, e, free) = inl (
    refl,
    subst (λ t. Queued info s t) (sym (ap (λ p. p.1) (store_info-eq i)))
        (stored_queue i old e free),
  )

-- `sigqueue_info` of a signal that is not 0, before the orders run out: either it returns 0, and a
-- slot that was free holds the signal, newer than all the others, which are untouched, one more is
-- pending, the interrupt is raised and the queue stays well formed; or every slot holds a pending
-- signal, and it returns -1 with `EAGAIN` and changes nothing else.
pub sigqueue_info_outcome :
    (info : Siginfo) (s : Signals)
    → IsQueue s
    → info.si_signo ≢ pos 0
    → s.last_order <ℤ pos int_max
    → let r = sigqueue_info info s in
      ((r.0 ≡ pos 0) × Queued info s r.1)
      ⊎ ((r ≡ (minus_one, record s { errno = eagain })) × (pending s.items ≡ sigqueue_max))
unfolding sigqueue_info
sigqueue_info_outcome info s q used room =
    outcome info s q used room (free_slot s.items) (free_slot_found s.items)
