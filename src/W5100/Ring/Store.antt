-- ===== src/W5100/Ring/Store.antt =====
-- A ring buffer is written around its end.
use native.Mathlib.Decide.{dec_lt}
use nucleo_tests.Base.{
  ℕ, zero, suc, ◌+◌, ◌-◌, ◌*◌, ◌/◌, ◌%◌, ◌^◌, ◌<◌, ◌≤◌, ◌≡◌, ◌∙◌, arith, refl, ap, List, [], ◌∷◌,
  length, get_or, take, drop, bit_and, ◌⊎◌, inl, inr, ◌==◌, if◌then◌else◌, true, false,
}
use nucleo_tests.Base.Bits.{bit_and-mask11}
use nucleo_tests.W5100.{Spi, w5100_write_byte, write_mem_from, w5100_write_mem, send_byte, op_write}
use nucleo_tests.W5100.Ring.{write_buf_sure, get_tx_base, before_end}
use nucleo_tests.W5100.Ring.Wrap.{before_end_parts}

-- The chip takes a frame with the operation, an address and a byte as a write to its memory there.
pub record IsWritable {W : Type 0} (spi : Spi W) (mem : W → ℕ → ℕ) : Type 0 where
  pub stores :
      (hi lo val a : ℕ) (w : W)
      → mem
          (spi.deselect (
            send_byte spi val
              (send_byte spi lo (send_byte spi hi (send_byte spi op_write (spi.select w))))))
          a
        ≡ (if a == 256 * hi + lo then val else mem w a)

length-take-drop :
    (n : ℕ) (xs : List ℕ)
    → n ≤ length xs
    → (length (take n xs) ≡ n) × (length (drop n xs) + n ≡ length xs)
length-take-drop zero xs h = (refl, omega arith)
length-take-drop (suc n) [] h = absurd (omega arith)
length-take-drop (suc n) (x ∷ xs) h =
    let e = length-take-drop n xs (omega arith) in (ap suc e.0, omega arith)

get_or-take : (n k : ℕ) (xs : List ℕ) → k < n → get_or (take n xs) k 0 ≡ get_or xs k 0
get_or-take zero k xs h = absurd (omega arith)
get_or-take (suc n) k [] h = refl
get_or-take (suc n) zero (x ∷ xs) h = refl
get_or-take (suc n) (suc k) (x ∷ xs) h = get_or-take n k xs (omega arith)

get_or-drop : (n k : ℕ) (xs : List ℕ) → get_or (drop n xs) k 0 ≡ get_or xs (n + k) 0
get_or-drop zero k xs = ap (λ i. get_or xs i 0) (omega arith)
get_or-drop (suc n) k [] = refl
get_or-drop (suc n) k (x ∷ xs) =
    let e : suc (n + k) ≡ suc n + k = omega arith in
    get_or-drop n k xs ∙ ap (λ i. get_or (x ∷ xs) i 0) e

module _ {W : Type 0} (spi : Spi W) (mem : W → ℕ → ℕ) (writable : IsWritable spi mem) where
  write_byte-mem :
      (reg val a : ℕ) (w : W)
      → mem (w5100_write_byte spi reg val w) a ≡ (if a == reg then val else mem w a)
  unfolding w5100_write_byte
  write_byte-mem reg val a w =
      let e : 256 * (reg / 256) + reg % 256 ≡ reg = omega arith in
      writable.stores (reg / 256) (reg % 256) val a w ∙ ap (λ r. if a == r then val else mem w a) e

  write_from-else :
      (addr i : ℕ) (bytes : List ℕ) (a : ℕ) (w : W)
      → addr + i + length bytes ≤ 2 ^ 16
      → (a < addr + i) ⊎ (addr + i + length bytes ≤ a)
      → mem (write_mem_from spi addr i bytes w) a ≡ mem w a
  unfolding write_mem_from
  write_from-else addr i [] a w h o = refl
  write_from-else addr i (b ∷ bytes) a w h o =
      let reg = (addr + i) % 2 ^ 16 in
      let ne : (a == reg) ≡ false = ground arith in
      write_from-else addr (suc i) bytes a (w5100_write_byte spi reg b w) (omega arith)
        (ground arith)
      ∙ write_byte-mem reg b a w
      ∙ rw ne refl

  write_from-mem :
      (addr i : ℕ) (bytes : List ℕ) (k : ℕ) (w : W)
      → addr + i + length bytes ≤ 2 ^ 16
      → k < length bytes
      → mem (write_mem_from spi addr i bytes w) (addr + i + k) ≡ get_or bytes k 0
  unfolding write_mem_from
  write_from-mem addr i [] k w h l = absurd (omega arith)
  write_from-mem addr i (b ∷ bytes) zero w h l =
      let reg = (addr + i) % 2 ^ 16 in
      let same : (addr + i + 0 == reg) ≡ true = ground arith in
      write_from-else addr (suc i) bytes (addr + i + 0) (w5100_write_byte spi reg b w) (omega arith)
        (inl (omega arith))
      ∙ write_byte-mem reg b (addr + i + 0) w
      ∙ rw same refl
  write_from-mem addr i (b ∷ bytes) (suc k) w h l =
      let reg = (addr + i) % 2 ^ 16 in
      let w' = w5100_write_byte spi reg b w in
      let e : addr + i + suc k ≡ addr + suc i + k = omega arith in
      ap (mem (write_mem_from spi addr (suc i) bytes w')) e
      ∙ write_from-mem addr (suc i) bytes k w' (omega arith) (omega arith)

  -- On a chip that takes writes to its memory, for one of the four sockets and at most the size of
  -- its buffer: each byte lies in the buffer at its distance from the pointer, around the end of the
  -- buffer, the pointer moves behind them, in 16 bits, and nothing outside the buffer changes.
  pub write_buf_sure_ring :
      (isocket : ℕ) (bytes : List ℕ) (pwrite : ℕ) (w : W)
      → isocket < 4
      → length bytes ≤ 2048
      → let r = write_buf_sure spi isocket bytes pwrite w in
        let base = 0x4000 + 2048 * isocket in
        (r.0 ≡ (pwrite + length bytes) % 2 ^ 16)
        × ((k : ℕ) → k < length bytes → mem r.1 (base + (pwrite + k) % 2048) ≡ get_or bytes k 0)
        × ((a : ℕ) → (a < base) ⊎ (base + 2048 ≤ a) → mem r.1 a ≡ mem w a)
  unfolding write_buf_sure w5100_write_mem
  write_buf_sure_ring isocket bytes pwrite w h l =
      let offset = bit_and pwrite 2047 in
      let m = bit_and-mask11 pwrite in
      let base = get_tx_base isocket in
      let phys = (offset + base) % 2 ^ 16 in
      let n = before_end 2048 offset (length bytes) in
      let parts = before_end_parts offset (length bytes) (omega arith) l in
      let lengths = length-take-drop n bytes parts.0 in
      let w1 = write_mem_from spi phys 0 (take n bytes) w in
      (
        refl,
        λ k small. elim (dec_lt k n) [
          | yes before ↦
              let e : 0x4000 + 2048 * isocket + (pwrite + k) % 2048 ≡ phys + 0 + k = omega arith in
              write_from-else base 0 (drop n bytes) (0x4000 + 2048 * isocket + (pwrite + k) % 2048)
                w1 (omega arith) (inr (omega arith))
              ∙ ap (mem w1) e
              ∙ write_from-mem phys 0 (take n bytes) k w (omega arith) (omega arith)
              ∙ get_or-take n k bytes before
          | no behind ↦
              let j = k - n in
              let e : 0x4000 + 2048 * isocket + (pwrite + k) % 2048 ≡ base + 0 + j = omega arith in
              let at : n + j ≡ k = omega arith in
              ap (mem (write_mem_from spi base 0 (drop n bytes) w1)) e
              ∙ write_from-mem base 0 (drop n bytes) j w1 (omega arith) (omega arith)
              ∙ get_or-drop n j bytes
              ∙ ap (λ i. get_or bytes i 0) at
        ],
        λ a outside.
            write_from-else base 0 (drop n bytes) a w1 (omega arith) (ground arith)
            ∙ write_from-else phys 0 (take n bytes) a w (omega arith) (ground arith),
      )
