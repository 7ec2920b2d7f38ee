-- ===== src/Signal/Action/Table.antt =====
-- The table of actions under the operations that change it.
use nucleo_tests.Base.{
  ℕ, ◌+◌, ◌^◌, not, ◌≤◌, ◌<◌, ◌≡◌, ◌∙◌, refl, arith, Bool, true, false, ◌||◌, Option, none, some,
  length, get_or, set, get_or-set_self, get_or-set_ne, subst, Bool-cases, inl, inr, if◌then◌else◌,
  ◌==◌, List, bit_and, bit_or,
}
use nucleo_tests.Base.Bits.{
  complement, test_bit, test_bit-bit_and, test_bit-bit_or, test_bit-complement, test_bit-two_pow,
}
use nucleo_tests.Base.Int.{ℤ, pos, ltb_ℤ, minus_one}
use nucleo_tests.Signal.State.{Sigaction, Signals, einval, signal_max, sa_restart}
use nucleo_tests.Signal.Action.{sigaction, action_at, siginterrupt, sigignore, no_action}

get_or-set :
    {A : Type 0} (xs : List A) (i j : ℕ) (v d : A)
    → i < length xs
    → get_or (set xs i v) j d ≡ (if i == j then v else get_or xs j d)
get_or-set xs i j v d h = elim (Bool-cases (i == j)) [
  | inl same ↦
      let e : i ≡ j = ground (arith, same) in
      rw same (subst (λ k. get_or (set xs i v) k d ≡ v) e (get_or-set_self xs i v d h))
  | inr other ↦ rw other (get_or-set_ne xs i j v d (ground (arith, other)))
]

in_table :
    (sig : ℕ)
    → sig ≤ signal_max
    → (ltb_ℤ (pos signal_max) (pos sig) || ltb_ℤ (pos sig) (pos 0)) ≡ false
in_table sig h = ground arith

-- For a signal from 0 to `SIGNAL_MAX`, `sigaction` returns 0 with the old action, and afterwards
-- the table holds the new one there and is otherwise as before.
pub sigaction_installs :
    (sig j : ℕ) (act : Sigaction) (s : Signals)
    → length s.actions ≡ signal_max + 1
    → sig ≤ signal_max
    → let (ret, oact, s') = sigaction (pos sig) (some act) s in
      (ret ≡ pos 0)
      × (oact ≡ some (action_at s (pos sig)))
      × (action_at s' (pos j) ≡ (if sig == j then act else action_at s (pos j)))
unfolding sigaction
sigaction_installs sig j act s len h =
    rw (in_table sig h) (refl, refl, get_or-set s.actions sig j act no_action (omega arith))

-- For any other number it returns -1 with `EINVAL` and leaves the table.
pub sigaction_refuses :
    (sig : ℤ) (act : Option Sigaction) (s : Signals)
    → (ltb_ℤ (pos signal_max) sig || ltb_ℤ sig (pos 0)) ≡ true
    → sigaction sig act s ≡ (minus_one, none, record s { errno = einval })
unfolding sigaction
sigaction_refuses sig act s h = rw h

restart_flag :
    (flag : Bool) (flags k : ℕ)
    → k < 32
    → test_bit
        (if flag then bit_and flags (complement 32 sa_restart) else bit_or flags sa_restart)
        k
      ≡ (if k == 3 then not flag else test_bit flags k)
restart_flag true flags k h =
    test_bit-bit_and k flags (complement 32 sa_restart)
    ∙ ground (arith, test_bit-complement 32 k (2 ^ 3) h (omega arith), test_bit-two_pow 3 k)
restart_flag false flags k h =
    test_bit-bit_or k flags sa_restart ∙ ground (arith, test_bit-two_pow 3 k)

-- `siginterrupt` sets or clears the flag `SA_RESTART` of one action, and keeps its handler and its
-- other flags; `sigignore` replaces its handler and keeps its flags.
pub siginterrupt_sigignore_lem :
    (sig k sig_ign : ℕ) (flag : Bool) (junk : Sigaction) (s : Signals)
    → length s.actions ≡ signal_max + 1
    → sig ≤ signal_max
    → k < 32
    → let before = action_at s (pos sig) in
      let (r, s1) = siginterrupt junk (pos sig) flag s in
      let (r', s2) = sigignore sig_ign junk (pos sig) s in
      (r ≡ pos 0)
      × ((action_at s1 (pos sig)).sa_handler ≡ before.sa_handler)
      × (test_bit (action_at s1 (pos sig)).sa_flags k
          ≡ (if k == 3 then not flag else test_bit before.sa_flags k))
      × (r' ≡ pos 0)
      × (action_at s2 (pos sig) ≡ record before { sa_handler = sig_ign })
unfolding siginterrupt sigignore sigaction
siginterrupt_sigignore_lem sig k sig_ign flag junk s len h hk =
    let inside : sig < length s.actions = omega (arith, len) in
    rw (in_table sig h, get_or-set_self s.actions sig _ no_action inside)
      (
        refl,
        refl,
        restart_flag flag (action_at s (pos sig)).sa_flags k hk,
        refl,
        get_or-set_self s.actions sig _ no_action inside,
      )
