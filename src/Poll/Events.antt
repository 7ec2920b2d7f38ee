-- ===== src/Poll/Events.antt =====
-- What one poll of a descriptor may report.
use nucleo_tests.Base.{
  ℕ, ◌≡◌, refl, arith, true, Bool-cases, inl, inr, bit_and, bit_or, ◌||◌, ◌==◌, if◌then◌else◌,
  Option-cases,
}
use nucleo_tests.Base.Bits.{test_bit, test_bit-bit_and, test_bit-bit_or}
use nucleo_tests.Base.Int.{ℤ, pos, negsuc, ◌≤ℤ◌, minus_one, eqb_ℤ, ltb_ℤ}
use nucleo_tests.File.{Files, file_struct_get}
use nucleo_tests.Poll.{
  Pollfd, Handlers, store_revents, report, poll_one, always_reported, file_at, pollnval,
}

-- The contract of the handlers: a mask, or -1 for an error.
abbrev pub Masks : {W : Type 0} → Handlers W → Type 0
Masks {W} handlers = (a : ℕ) (fd : ℤ) (w : W) → minus_one ≤ℤ (handlers a fd w).0

-- A report with its error replaced by `POLLNVAL` is a mask.
clean : ℤ → ℤ
clean revents = if eqb_ℤ revents minus_one then pos pollnval else revents

clean_mask : (r : ℤ) → minus_one ≤ℤ r → (m : ℕ) × (clean r ≡ pos m)
unfolding clean
clean_mask (pos n) h = (n, ground arith)
clean_mask (negsuc n) h = (pollnval, ground arith)

module _ {W : Type 0} (files : Files) (handlers : Handlers W) where
  report_mask :
      Masks handlers → (fd : ℤ) (w : W) → (m : ℕ) × ((report files handlers fd w).0 ≡ pos m)
  unfolding report clean
  report_mask c fd w = elim (Bool-cases (ltb_ℤ fd (pos 0))) [
    | inl neg ↦ (0, rw neg)
    | inr ok ↦ elim (Option-cases (file_struct_get fd)) [
      | inl bad ↦ (pollnval, rw (ok, bad))
      | inr (i, e) ↦ elim (Bool-cases ((file_at files i).poll == 0)) [
        | inl null ↦ (pollnval, rw (ok, e, null))
        | inr there ↦
            let (m, q) =
              clean_mask (handlers (file_at files i).poll fd w).0 (c (file_at files i).poll fd w) in
            (m, rw (ok, e, there) q)
      ]
    ]
  ]

  -- With handlers that return a mask or -1, `poll_one` returns the mask that it stores, and leaves
  -- the descriptor and the events asked for as they are. Every bit of the mask was asked for, or is
  -- one of `POLLHUP`, `POLLERR` and `POLLNVAL`.
  pub poll_one_events :
      Masks handlers
      → (p : Pollfd) (w : W)
      → let (r, p', _) = poll_one files handlers p w in
        (r ≡ pos p'.revents)
        × (p'.fd ≡ p.fd)
        × (p'.events ≡ p.events)
        × ((k : ℕ)
            → test_bit p'.revents k ≡ true
            → (test_bit p.events k || test_bit always_reported k) ≡ true)
  unfolding poll_one
  poll_one_events c p w =
      let (m, e) = report_mask c p.fd w in
      rw (e, store_revents) (refl, refl, refl, λ k t. reported k m t)
    where
      reported :
          (k m : ℕ)
          → test_bit (bit_and m (bit_or p.events always_reported)) k ≡ true
          → (test_bit p.events k || test_bit always_reported k) ≡ true
      reported k m t = ground (
        arith,
        t,
        test_bit-bit_and k m (bit_or p.events always_reported),
        test_bit-bit_or k p.events always_reported,
      )
