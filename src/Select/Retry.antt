-- ===== src/Select/Retry.antt =====
-- The wait loop of `pselect`: every round starts from the sets of the call.
use nucleo_tests.Base.{ℕ, zero, suc, ◌≡◌, arith, Bool-cases, inl, inr, Option, true}
use nucleo_tests.Base.Run.{done, done-injective}
use nucleo_tests.Base.Int.{ℤ, pos, ◌≤ℤ◌, eqb_ℤ, leb_ℤ, eqb_ℤ_iff}
use nucleo_tests.File.{Files}
use nucleo_tests.Timespec.{Timespec, timespec_diff}
use nucleo_tests.Poll.{Handlers, Clock}
use nucleo_tests.Select.{Sets, pselect_tentative, pselect_until, pselect, all_given, end_of}

module _ {W : Type 0} (files : Files) (handlers : Handlers W) (junk : ℕ) (ebadf : W → W)
    (clock : Clock W) (nfds : ℤ) (saved : Sets) where
  -- How the loop may end, with the clock working: one pass over the sets of the call gave the
  -- result, and if that is 0 the clock had been read at the end of the wait or after it.
  pub record Ended (tend : Timespec) (out : ℤ × Sets × W) : Type 0 where
    pub at : W
    pub read : (clock at).0 ≡ pos 0
    pub pass : pselect_tentative files handlers junk ebadf nfds saved (clock at).2 ≡ out
    pub late : out.0 ≡ pos 0 → pos 0 ≤ℤ timespec_diff (clock at).1 tend

  until-Ended :
      ((w : W) → (clock w).0 ≡ pos 0)
      → (rounds : ℕ) (tend : Timespec) (w : W) (out : ℤ × Sets × W)
      → pselect_until files handlers junk ebadf clock rounds nfds tend saved saved w ≡ done out
      → Ended tend out
  unfolding pselect_until
  until-Ended works zero tend w out e = absurd (cc)
  until-Ended works (suc rounds) tend w out e =
      let pass = pselect_tentative files handlers junk ebadf nfds saved (clock w).2 in
      let good = (eqb_ℤ_iff (clock w).0 (pos 0)).1 (works w) in
      elim (Bool-cases (eqb_ℤ pass.0 (pos 0))) [
        | inr ready ↦
            let same = done-injective (rw (good, ready) at e) in
            record {
              at = w;
              read = works w;
              pass = same;
              late = λ z. absurd (cc (ready, (eqb_ℤ_iff pass.0 (pos 0)).1 (rw same z)));
            }
        | inl idle ↦ elim (Bool-cases (leb_ℤ (pos 0) (timespec_diff (clock w).1 tend))) [
          | inl expired ↦ record {
            at = w;
            read = works w;
            pass = done-injective (rw (good, idle, expired) at e);
            late = λ z. ground (arith, expired);
          }
          | inr early ↦ until-Ended works rounds tend pass.2 out (rw (good, idle, early) at e)
        ]
      ]

  -- With a clock that works, `pselect` on given sets ends with the outcome of one pass over the sets
  -- it was called with, whatever earlier rounds took out of them; and it returns 0 only if the clock
  -- was read at the end of the wait or after it.
  pub pselect-Ended :
      ((w : W) → (clock w).0 ≡ pos 0)
      → (rounds : ℕ) (timeout : Option Timespec) (w : W) (out : ℤ × Sets × W)
      → all_given saved ≡ true
      → pselect files handlers junk ebadf clock rounds nfds saved timeout w ≡ done out
      → Ended (end_of clock timeout w).0 out
  unfolding pselect
  pselect-Ended works rounds timeout w out g e =
      until-Ended works rounds (end_of clock timeout w).0 (end_of clock timeout w).1 out (rw g at e)
