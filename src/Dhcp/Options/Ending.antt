-- ===== src/Dhcp/Options/Ending.antt =====
-- That the parser ends. `Q` is what the clock keeps of the state of the network.
use nucleo_tests.Base.{
  ℕ, zero, suc, ◌<◌, ◌≤◌, arith, List, [], ◌∷◌, ◌==◌, leb, Bool-cases, inl, inr,
}
use nucleo_tests.Base.Run.{done, Ends, Ends->>=, Ends-if, ◌>>=◌}
use nucleo_tests.Socket.{Net}
use nucleo_tests.Inet.{ntohl}
use nucleo_tests.Timespec.{int_max}
use nucleo_tests.Dhcp.Options.{
  Parsed, opt_end, parse_from, parse_one, dhcp_parse_options, store_option, set_lease, read8,
  read32,
}

read8-Ends : (value : List ℕ) → Ends (λ v. Unit) (read8 value)
read8-Ends [] = tt
read8-Ends (a ∷ v) = tt

read32-Ends : (value : List ℕ) → Ends (λ v. Unit) (read32 value)
read32-Ends [] = tt
read32-Ends (a ∷ []) = tt
read32-Ends (a ∷ b ∷ []) = tt
read32-Ends (a ∷ b ∷ c ∷ []) = tt
read32-Ends (a ∷ b ∷ c ∷ d ∷ v) = tt

module _ {W : Type 0} (net : Net W) (Q : W → Type 0)
    (clocked : (w : W) → Q w → Q (net.clock_realtime w).1) where
  abbrev Kept : Parsed × W → Type 0
  Kept s = Q s.1

  after_read :
      (value : List ℕ) (f : ℕ → Parsed × W)
      → ((v : ℕ) → Q (f v).1)
      → Ends Kept (read32 value >>= λ v. done (f v))
  after_read value f h =
      Ends->>= (λ v. Unit) Kept (read32 value) (λ v. done (f v)) (read32-Ends value) (λ v _ _. h v)

  set_lease-keeps : (lease : ℕ) (r : Parsed) (w : W) → Q w → Q (set_lease net lease r w).1
  unfolding set_lease
  set_lease-keeps lease r w q = elim (Bool-cases (leb int_max lease)) [
    | inl e ↦ rw e q
    | inr e ↦ rw e (clocked w q)
  ]

  store_option-Ends :
      (option len : ℕ) (value : List ℕ) (r : Parsed) (w : W)
      → Q w
      → Ends Kept (store_option net option len value r w)
  unfolding store_option
  store_option-Ends option len value r w q =
      Ends-if Kept (option == 53) _ _
        (λ _. Ends->>= (λ v. Unit) Kept (read8 value) _ (read8-Ends value) (λ v _ _. q))
        (λ _.
          Ends-if Kept (option == 54) _ _ (λ _. after_read value _ (λ v. q))
            (λ _.
              Ends-if Kept (option == 51) _ _
                (λ _. after_read value _ (λ v. set_lease-keeps (ntohl v) _ w q))
                (λ _.
                  Ends-if Kept (option == 1) _ _ (λ _. after_read value _ (λ v. q))
                    (λ _.
                      Ends-if Kept (option == 3) _ _ (λ _. after_read value _ (λ v. q))
                        (λ _.
                          Ends-if Kept (option == 6) _ _ (λ _. after_read value _ (λ v. q))
                            (λ _. q))))))

  one-Ends :
      (option : ℕ) (bytes : List ℕ) (left : ℕ) (r : Parsed) (w : W)
      → Q w
      → Ends (λ s. (s.1 ≤ left) × Q s.3) (parse_one net option bytes left r w)
  one-Ends option [] left r w q =
      Ends-if (λ s. (s.1 ≤ left) × Q s.3) (option == 0) _ _ (λ _. (omega arith, q)) (λ _. tt)
  one-Ends option (len ∷ value) left r w q =
      Ends-if (λ s. (s.1 ≤ left) × Q s.3) (option == 0) _ _ (λ _. (omega arith, q))
        (λ _.
          Ends->>= Kept (λ s. (s.1 ≤ left) × Q s.3) (store_option net option len value r w) _
            (store_option-Ends option len value r w q) (λ s _ k. (omega arith, k)))

  parse-Ends :
      (rounds : ℕ) (bytes : List ℕ) (left : ℕ) (r : Parsed) (w : W)
      → left < rounds
      → Q w
      → Ends Kept (parse_from net rounds bytes left r w)
  unfolding parse_from
  parse-Ends zero bytes left r w h q = absurd (omega arith)
  parse-Ends (suc rounds) bytes zero r w h q = q
  parse-Ends (suc rounds) [] (suc left) r w h q = tt
  parse-Ends (suc rounds) (option ∷ bytes) (suc left) r w h q =
      Ends-if Kept (option == opt_end) _ _ (λ _. q)
        (λ _.
          Ends->>= (λ s. (s.1 ≤ left) × Q s.3) Kept (parse_one net option bytes left r w) _
            (one-Ends option bytes left r w q)
            (λ s _ k. parse-Ends rounds s.0 s.1 s.2 s.3 (omega arith) k.1))

  -- On every message, of any size, the parser ends: with a result, or by a read past the buffer.
  pub dhcp_parse_options-Ends :
      (bytes : List ℕ) (size : ℕ) (r : Parsed) (w : W)
      → Q w
      → Ends Kept (dhcp_parse_options net bytes size r w)
  unfolding dhcp_parse_options
  dhcp_parse_options-Ends bytes size r w q = parse-Ends (suc size) bytes size r w (omega arith) q
