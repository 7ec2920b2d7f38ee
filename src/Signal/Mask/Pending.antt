-- ===== src/Signal/Mask/Pending.antt =====
-- `sigpending` reports the signals that are pending and blocked.
use nucleo_tests.Base.{
  ℕ, suc, ◌<◌, ◌≡◌, ◌⊎◌, ◌∙◌, ap, inl, inr, refl, arith, Bool, true, false, not, ◌&&◌, ◌||◌, List,
  [], ◌∷◌, All, if◌then◌else◌,
}
use nucleo_tests.Base.Int.{ℤ, pos, eqb_ℤ, eqb_ℤ_iff}
use nucleo_tests.Signal.State.{SignalQueueItem, Signals}
use nucleo_tests.Signal.Sets.{sigismember, sigaddset, sigemptyset}
use nucleo_tests.Signal.Sets.Laws.{sigismember_laws}
use nucleo_tests.Signal.Queue.{is_free}
use nucleo_tests.Signal.Mask.{sigprocmask, pending_from, sigpending}

-- A slot is free or holds a signal from 1 to 32.
abbrev pub IsSignal : SignalQueueItem → Type 0
IsSignal item = (is_free item ≡ true) ⊎ ((n : ℕ) × (n < 32) × (item.info.si_signo ≡ pos (suc n)))

-- Whether some slot holds signal `j + 1`.
abbrev pub is_queued : ℕ → List SignalQueueItem → Bool
is_queued j [] = false
is_queued j (item ∷ items) = eqb_ℤ item.info.si_signo (pos (suc j)) || is_queued j items

module _ (wild_shift : ℤ → ℕ) (blocked j : ℕ) (hj : j < 32) where
  abbrev holds : ℕ → Bool
  holds set = sigismember wild_shift set (pos (suc j))

  step :
      (item : SignalQueueItem) (set : ℕ)
      → IsSignal item
      → holds (
          if not (is_free item) && sigismember wild_shift blocked item.info.si_signo
          then sigaddset wild_shift set item.info.si_signo
          else set)
        ≡ (holds set || (eqb_ℤ item.info.si_signo (pos (suc j)) && holds blocked))
  step item set (inl free) = rw ((eqb_ℤ_iff item.info.si_signo (pos 0)).0 free) (ground arith)
  step item set (inr (n, hn, e)) =
      rw e (ground (arith, (sigismember_laws wild_shift set n j hn hj).0))

  pending_from_lem :
      (items : List SignalQueueItem) (set : ℕ)
      → All IsSignal items
      → holds (pending_from wild_shift blocked items set)
        ≡ (holds set || (is_queued j items && holds blocked))
  unfolding pending_from
  pending_from_lem [] set h = ground arith
  pending_from_lem (item ∷ items) set h =
      pending_from_lem items _ h.1
      ∙ (ap (λ b. b || (is_queued j items && holds blocked)) (step item set h.0) ∙ ground arith)

-- Where the queue holds signals from 1 to 32 only, `sigpending` returns the set of the signals that
-- are both queued and blocked, and changes nothing.
pub sigpending_lem :
    (wild_shift : ℤ → ℕ) (s : Signals) (j : ℕ)
    → j < 32
    → All IsSignal s.items
    → let (_, set, s') = sigpending wild_shift s in
      (sigismember wild_shift set (pos (suc j))
        ≡ (is_queued j s.items && sigismember wild_shift s.procmask (pos (suc j))))
      × (s' ≡ s)
unfolding sigpending sigprocmask
sigpending_lem wild_shift s j hj h = (
  pending_from_lem wild_shift s.procmask j hj s.items sigemptyset h
      ∙ ground (arith, (sigismember_laws wild_shift 0 j j hj hj).2),
  refl,
)
