-- ===== src/Select/One.antt =====
-- One pass of `pselect` over the descriptors: what it returns and what it leaves in the sets.
use nucleo_tests.Base.{
  ℕ, zero, suc, ◌+◌, ◌≤◌, ◌<◌, ◌≡◌, ◌≢◌, ◌⊎◌, ◌∙◌, refl, sym, ap, arith, Bool, true, false, not,
  ◌||◌, Option, some, none, inl, inr, [], ◌∷◌, ◌==◌, Bool-cases, if◌then◌else◌, bit_and,
}
use native.Mathlib.Decide.{dec_lt}
use nucleo_tests.Base.Int.{ℤ, pos, ◌+ℤ◌, minus_one, eqb_ℤ, i32, i32-FitsInt, eqb_ℤ_iff}
use nucleo_tests.File.{Files}
use nucleo_tests.Timespec.{int_max}
use nucleo_tests.Poll.{Pollfd, Handlers, poll_tentative, pollnval}
use nucleo_tests.Select.{
  FdSet, Sets, fd_setsize, fd_isset, fd_clr, in_any, keep_reported, pselect_one, tentative_from,
  pselect_tentative, all_events, first_revents, read_events, write_events, error_events,
}
use nucleo_tests.Select.FdSet.{AreFdSet, isset_above, fd_isset_laws, fd_ops-IsFdSet}

pub record AreSets (s : Sets) : Type 0 where
  pub reads : AreFdSet s.readfds
  pub writes : AreFdSet s.writefds
  pub errors : AreFdSet s.errorfds

-- Taking one descriptor out does not touch another.
isset_clr_ne :
    (i j : ℕ) (s : Option FdSet)
    → AreFdSet s
    → i ≢ j
    → fd_isset (pos j) (fd_clr (pos i) s) ≡ fd_isset (pos j) s
unfolding fd_clr
isset_clr_ne i j none h ne = refl
isset_clr_ne i j (some s) h ne = elim (dec_lt j fd_setsize) [
  | no big ↦ isset_above j _ (omega arith) ∙ sym (isset_above j s (omega arith))
  | yes hj ↦ elim (dec_lt i fd_setsize) [
    | yes hi ↦ (fd_isset_laws s i j h hi hj).1 ∙ ground arith
    | no big ↦ ground arith
  ]
]

module _ (fd : ℤ) (revents : ℕ) where
  drop-AreFdSet :
      (b : Bool) (s : Option FdSet) → AreFdSet s → AreFdSet (if b then fd_clr fd s else s)
  drop-AreFdSet true s h = (fd_ops-IsFdSet fd s h).1
  drop-AreFdSet false s h = h

  keep_reported-AreSets : (s : Sets) → AreSets s → AreSets (keep_reported fd revents s)
  unfolding keep_reported
  keep_reported-AreSets s h = record {
    reads = drop-AreFdSet (bit_and revents read_events == 0) s.readfds h.reads;
    writes = drop-AreFdSet (bit_and revents write_events == 0) s.writefds h.writes;
    errors = drop-AreFdSet (bit_and revents error_events == 0) s.errorfds h.errors;
  }

drop_ne :
    (i j : ℕ) (b : Bool) (s : Option FdSet)
    → AreFdSet s
    → i ≢ j
    → fd_isset (pos j) (if b then fd_clr (pos i) s else s) ≡ fd_isset (pos j) s
drop_ne i j true s h ne = isset_clr_ne i j s h ne
drop_ne i j false s h ne = refl

keep_reported_ne :
    (i j revents : ℕ) (s : Sets)
    → AreSets s
    → i ≢ j
    → in_any (pos j) (keep_reported (pos i) revents s) ≡ in_any (pos j) s
unfolding keep_reported
keep_reported_ne i j revents s h ne = rw (
  drop_ne i j (bit_and revents read_events == 0) s.readfds h.reads ne,
  drop_ne i j (bit_and revents write_events == 0) s.writefds h.writes ne,
  drop_ne i j (bit_and revents error_events == 0) s.errorfds h.errors ne,
)

-- The outcomes of one descriptor: it fails and changes no set, or returns whether the descriptor is
-- still in a set. No other descriptor is touched.
pub record OneOutcome (i : ℕ) (s : Sets) (r : ℤ) (s' : Sets) : Type 0 where
  pub value : (r ≡ minus_one) ⊎ (r ≡ (if in_any (pos i) s' then pos 1 else pos 0))
  pub sets : AreSets s'
  pub others : (j : ℕ) → i ≢ j → in_any (pos j) s' ≡ in_any (pos j) s

-- How many of the `n` descriptors from `fd` on are in a set.
abbrev pub count_in : ℕ → ℕ → Sets → ℕ
count_in zero fd s = 0
count_in (suc n) fd s = (if in_any (pos fd) s then 1 else 0) + count_in n (fd + 1) s

module _ {W : Type 0} (files : Files) (handlers : Handlers W) (junk : ℕ) (ebadf : W → W) where
  one_outcome :
      (i : ℕ) (s : Sets) (w : W)
      → AreSets s
      → let (r, s', _) = pselect_one files handlers junk ebadf (pos i) s w in OneOutcome i s r s'
  unfolding pselect_one
  one_outcome i s w h = elim (Bool-cases (in_any (pos i) s)) [
    | inr out ↦ rw out (record { value = inr (rw out); sets = h; others = λ j ne. refl })
    | inl there ↦
        let p : Pollfd = record { fd = pos i; events = all_events; revents = junk } in
        let polled = poll_tentative files handlers (p ∷ []) w in
        let revents = first_revents polled.1 in
        elim (Bool-cases (eqb_ℤ polled.0 minus_one || not (bit_and revents pollnval == 0))) [
          | inl bad ↦ rw (there, bad) (record { value = inl refl; sets = h; others = λ j ne. refl })
          | inr good ↦
              rw (there, good)
                (record {
                  value = inr (value (in_any (pos i) (keep_reported (pos i) revents s)));
                  sets = keep_reported-AreSets (pos i) revents s h;
                  others = λ j ne. keep_reported_ne i j revents s h ne;
                })
        ]
  ]
    where
      value : (b : Bool) → ◌≡◌ {A = ℤ} (if b then pos 1 else pos 0) (if b then pos 1 else pos 0)
      value b = refl

  -- The claim about the rest of the loop, from descriptor `fd` on with the sum `k`.
  record PassOutcome (n fd k : ℕ) (s : Sets) (r : ℤ) (s' : Sets) : Type 0 where
    value : (r ≡ minus_one) ⊎ (r ≡ pos (k + count_in n fd s'))
    before : (j : ℕ) → j < fd → in_any (pos j) s' ≡ in_any (pos j) s

  add_one_ret :
      (k : ℕ) (b : Bool)
      → k + 1 ≤ int_max
      → i32 (pos k +ℤ (if b then pos 1 else pos 0)) ≡ pos (k + (if b then 1 else 0))
  unfolding ◌+ℤ◌
  add_one_ret k b h = ground (arith, i32-FitsInt (pos (k + 1)), i32-FitsInt (pos k))

  extend :
      (n fd k : ℕ) (s s1 : Sets) {r1 : ℤ} (r : ℤ) (s' : Sets)
      → OneOutcome fd s r1 s1
      → PassOutcome n (fd + 1) (k + (if in_any (pos fd) s1 then 1 else 0)) s1 r s'
      → PassOutcome (suc n) fd k s r s'
  extend n fd k s s1 r s' o rest = record {
    value = elim rest.value [
      | inl e ↦ inl e
      | inr e ↦ inr (e ∙ ap pos (rw (rest.before fd (omega arith)) (omega arith)))
    ];
    before = λ j lt. rest.before j (omega arith) ∙ o.others j (omega arith);
  }

  pass_outcome :
      (n fd k : ℕ) (s : Sets) (w : W)
      → AreSets s
      → k + n ≤ int_max
      → let (r, s', _) = tentative_from files handlers junk ebadf n fd (pos k) s w in
        PassOutcome n fd k s r s'
  unfolding tentative_from
  pass_outcome zero fd k s w h l = record {
    value = inr (ap pos (omega arith));
    before = λ j lt. refl;
  }
  pass_outcome (suc n) fd k s w h l =
      let one = pselect_one files handlers junk ebadf (pos fd) s w in
      let o = one_outcome fd s w h in
      let k' : ℕ = k + (if in_any (pos fd) one.1 then 1 else 0) in
      let bound : k' + n ≤ int_max = ground arith in
      let ih = pass_outcome n (fd + 1) k' one.1 one.2 o.sets bound in
      elim (Bool-cases (eqb_ℤ one.0 minus_one)) [
        | inl bad ↦ rw bad (record { value = inl refl; before = λ j lt. o.others j (omega arith) })
        | inr good ↦ rw good (elim o.value [
          | inl e ↦ absurd (cc (good, (eqb_ℤ_iff one.0 minus_one).1 e))
          | inr e ↦
              rw (e, add_one_ret k (in_any (pos fd) one.1) (omega arith))
                (extend n fd k s one.1
                  (tentative_from files handlers junk ebadf n (fd + 1) (pos k') one.1 one.2).0
                  (tentative_from files handlers junk ebadf n (fd + 1) (pos k') one.1 one.2).1 o ih)
        ])
      ]

  -- One pass over `nfds` descriptors either returns -1, or returns how many of them are left in
  -- some set.
  pub pselect_tentative_counts :
      (nfds : ℕ) (s : Sets) (w : W)
      → AreSets s
      → nfds ≤ int_max
      → let (r, s', _) = pselect_tentative files handlers junk ebadf (pos nfds) s w in
        (r ≡ minus_one) ⊎ (r ≡ pos (count_in nfds 0 s'))
  unfolding pselect_tentative
  pselect_tentative_counts nfds s w h l = elim (pass_outcome nfds 0 0 s w h (omega arith)).value [
    | inl e ↦ inl e
    | inr e ↦ inr (e ∙ ap pos (omega arith))
  ]
