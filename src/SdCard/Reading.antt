-- ===== src/SdCard/Reading.antt =====
-- Reading a block from a card that answers in its own time.
use nucleo_tests.Base.{
  ℕ, zero, suc, ◌<◌, ◌≡◌, ◌∙◌, arith, refl, ap, sym, true, false, List, [], ◌∷◌, ◌++◌, length,
  replicate, All, some,
}
use nucleo_tests.Base.Run.{done}
use nucleo_tests.Base.Int.{pos}
use nucleo_tests.W5100.{Spi}
use nucleo_tests.SdCard.{
  sd_read_single_block, sd_select, sd_deselect, send_rw_cmd, send_cmd, wait_resp, wait_data,
  receive, read_block, line_is_idle, block_size,
}

-- The bytes that a card is going to send, and then an idle line.
abbrev pub next_byte : List ℕ → ℕ × List ℕ
next_byte [] = (0xff, [])
next_byte (b ∷ coming) = (b, coming)

abbrev pub card : Spi (List ℕ)
card = record {
  transfer = λ b coming. next_byte coming;
  select = λ coming. coming;
  deselect = λ coming. coming;
}

wait_resp_lem :
    (waits : List ℕ) (rounds r : ℕ) (rest : List ℕ)
    → All (λ b. line_is_idle b ≡ true) waits
    → length waits < rounds
    → line_is_idle r ≡ false
    → wait_resp card rounds (waits ++ r ∷ rest) ≡ done (r, rest)
unfolding wait_resp
wait_resp_lem waits zero r rest h l e = absurd (omega arith)
wait_resp_lem [] (suc rounds) r rest h l e = rw e refl
wait_resp_lem (b ∷ waits) (suc rounds) r rest h l e =
    rw h.0 (wait_resp_lem waits rounds r rest h.1 (omega arith) e)

wait_data_lem :
    (n rounds : ℕ) (rest : List ℕ)
    → n < rounds
    → wait_data card rounds (replicate n 0xff ++ 0xfe ∷ rest) ≡ done (0xfe, rest)
unfolding wait_data
wait_data_lem n zero rest l = absurd (omega arith)
wait_data_lem zero (suc rounds) rest l = refl
wait_data_lem (suc n) (suc rounds) rest l = wait_data_lem n rounds rest (omega arith)

receive_lem : (block rest : List ℕ) → receive card (length block) (block ++ rest) ≡ (block, rest)
unfolding receive
receive_lem [] rest = refl
receive_lem (b ∷ block) rest = rw (receive_lem block rest) refl

-- What a card that is ready sends while its command is received, and from then on: an idle line for
-- some bytes, that it accepts, an idle line for `n` bytes, and a start, a block and its check.
abbrev pub answer : ℕ × ℕ × ℕ × ℕ × ℕ × ℕ → List ℕ → ℕ → List ℕ → List ℕ → List ℕ
answer (a, b, c, d, e, f) waits n block rest =
    0xff ∷ a ∷ b ∷ c ∷ d ∷ e ∷ f ∷ (waits ++ (0 ∷ (replicate n 0xff ++ (0xfe ∷ (block ++ rest)))))

-- From a card that is ready, keeps the line idle for some bytes after the command, accepts it, and
-- after some idle bytes sends a start, a block and two bytes of check, the block is read, whatever the
-- card sent before. It takes a round for each byte of the longer delay and one more.
pub sd_read_single_block_lem :
    (before : ℕ × ℕ × ℕ × ℕ × ℕ × ℕ) (waits block rest : List ℕ) (n rounds address x y z : ℕ)
    → All (λ b. line_is_idle b ≡ true) waits
    → length waits < rounds
    → n < rounds
    → length block ≡ block_size
    → sd_read_single_block card rounds address (answer before waits n block (x ∷ y ∷ z ∷ rest))
      ≡ done (pos 0, some block, rest)
unfolding sd_read_single_block sd_select send_rw_cmd send_cmd read_block sd_deselect
sd_read_single_block_lem before waits block rest n rounds address x y z h l k b =
    let after = x ∷ y ∷ z ∷ rest in
    let coming = replicate n 0xff ++ (0xfe ∷ (block ++ after)) in
    let received : receive card block_size (block ++ after) ≡ (block, after) =
      ap (λ m. receive card m (block ++ after)) (sym b) ∙ receive_lem block after in
    rw
      (
        wait_resp_lem waits rounds 0 coming h l refl,
        wait_data_lem n rounds (block ++ after) k,
        received,
      )
      refl
