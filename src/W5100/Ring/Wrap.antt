-- ===== src/W5100/Ring/Wrap.antt =====
-- A ring buffer is read around its end.
use native.Mathlib.Decide.{dec_lt}
use nucleo_tests.Base.{
  ℕ, zero, suc, ◌+◌, ◌-◌, ◌*◌, ◌/◌, ◌%◌, ◌^◌, ◌<◌, ◌≤◌, ◌≡◌, ◌∙◌, arith, refl, ap, List, [], ◌∷◌,
  ◌++◌, length, get_or, length-append, bit_and, ◌⊎◌, inl, inr,
}
use nucleo_tests.Base.Bits.{bit_and-mask11}
use nucleo_tests.W5100.{Spi, w5100_read_byte, read_mem_from, w5100_read_mem, send_byte, op_read}
use nucleo_tests.W5100.Ring.{read_buf_sure, get_rx_base, before_end}

-- The chip answers a frame with the operation and an address by the byte of its memory there, which
-- it keeps.
pub record IsReadable {W : Type 0} (spi : Spi W) (mem : W → ℕ → ℕ) : Type 0 where
  pub answers :
      (hi lo : ℕ) (w : W)
      → (spi.transfer 0
          (send_byte spi lo (send_byte spi hi (send_byte spi op_read (spi.select w))))).0
        ≡ mem w (256 * hi + lo)
  pub keeps :
      (hi lo a : ℕ) (w : W)
      → mem
          (spi.deselect
            (spi.transfer 0
              (send_byte spi lo (send_byte spi hi (send_byte spi op_read (spi.select w))))).1)
          a
        ≡ mem w a

get_or-append_left :
    (xs ys : List ℕ) (k : ℕ) → k < length xs → get_or (xs ++ ys) k 0 ≡ get_or xs k 0
get_or-append_left [] ys k h = absurd (omega arith)
get_or-append_left (x ∷ xs) ys zero h = refl
get_or-append_left (x ∷ xs) ys (suc k) h = get_or-append_left xs ys k (omega arith)

get_or-append_right : (xs ys : List ℕ) (k : ℕ) → get_or (xs ++ ys) (length xs + k) 0 ≡ get_or ys k 0
get_or-append_right [] ys k = ap (λ i. get_or ys i 0) (omega arith)
get_or-append_right (x ∷ xs) ys k =
    let e : suc (length xs) + k ≡ suc (length xs + k) = omega arith in
    ap (λ i. get_or (x ∷ (xs ++ ys)) i 0) e ∙ get_or-append_right xs ys k

-- The part before the end, for data no longer than the buffer.
pub before_end_parts :
    (offset len : ℕ)
    → offset < 2048
    → len ≤ 2048
    → let n = before_end 2048 offset len in
      (n ≤ len) × (n + offset ≤ 2048) × (n ≡ len ⊎ (n + offset ≡ 2048))
before_end_parts offset len h k = elim (dec_lt 2048 (offset + len)) [
  | yes l ↦ (ground arith, ground arith, inr (ground arith))
  | no g ↦ (ground arith, ground arith, inl (ground arith))
]

module _ {W : Type 0} (spi : Spi W) (mem : W → ℕ → ℕ) (readable : IsReadable spi mem) where
  read_byte-mem : (reg : ℕ) (w : W) → (w5100_read_byte spi reg w).0 ≡ mem w reg
  unfolding w5100_read_byte
  read_byte-mem reg w =
      let e : 256 * (reg / 256) + reg % 256 ≡ reg = omega arith in
      readable.answers (reg / 256) (reg % 256) w ∙ ap (mem w) e

  read_byte-keeps : (reg a : ℕ) (w : W) → mem (w5100_read_byte spi reg w).1 a ≡ mem w a
  unfolding w5100_read_byte
  read_byte-keeps reg a w = readable.keeps (reg / 256) (reg % 256) a w

  read_from-keeps : (addr i n a : ℕ) (w : W) → mem (read_mem_from spi addr i n w).1 a ≡ mem w a
  unfolding read_mem_from
  read_from-keeps addr i zero a w = refl
  read_from-keeps addr i (suc n) a w =
      let reg = (addr + i) % 2 ^ 16 in
      read_from-keeps addr (suc i) n a (w5100_read_byte spi reg w).1 ∙ read_byte-keeps reg a w

  length-read_from : (addr i n : ℕ) (w : W) → length (read_mem_from spi addr i n w).0 ≡ n
  unfolding read_mem_from
  length-read_from addr i zero w = refl
  length-read_from addr i (suc n) w =
      ap suc (length-read_from addr (suc i) n (w5100_read_byte spi ((addr + i) % 2 ^ 16) w).1)

  read_from-mem :
      (addr i n k : ℕ) (w : W)
      → k < n
      → get_or (read_mem_from spi addr i n w).0 k 0 ≡ mem w ((addr + i + k) % 2 ^ 16)
  unfolding read_mem_from
  read_from-mem addr i zero k w h = absurd (omega arith)
  read_from-mem addr i (suc n) zero w h =
      let e : (addr + i) % 2 ^ 16 ≡ (addr + i + 0) % 2 ^ 16 = omega arith in
      read_byte-mem ((addr + i) % 2 ^ 16) w ∙ ap (mem w) e
  read_from-mem addr i (suc n) (suc k) w h =
      let reg = (addr + i) % 2 ^ 16 in
      let e : (addr + suc i + k) % 2 ^ 16 ≡ (addr + i + suc k) % 2 ^ 16 = omega arith in
      read_from-mem addr (suc i) n k (w5100_read_byte spi reg w).1 (omega arith)
      ∙ read_byte-keeps reg ((addr + suc i + k) % 2 ^ 16) w
      ∙ ap (mem w) e

  -- On a chip that answers by its memory, for one of the four sockets and at most the size of its
  -- buffer, as many bytes are read as asked for: those from the pointer on, around the end of the
  -- buffer, and the pointer moves behind them, in 16 bits.
  pub read_buf_sure_ring :
      (isocket len pread : ℕ) (w : W)
      → isocket < 4
      → len ≤ 2048
      → let r = read_buf_sure spi isocket len pread w in
        (length r.0 ≡ len)
        × (r.1 ≡ (pread + len) % 2 ^ 16)
        × ((k : ℕ)
            → k < len
            → get_or r.0 k 0 ≡ mem w (0x6000 + 2048 * isocket + (pread + k) % 2048))
  unfolding read_buf_sure w5100_read_mem
  read_buf_sure_ring isocket len pread w h l =
      let offset = bit_and pread 2047 in
      let m = bit_and-mask11 pread in
      let base = get_rx_base isocket in
      let phys = (base + offset) % 2 ^ 16 in
      let n1 = before_end 2048 offset len in
      let n2 = len - n1 in
      let parts = before_end_parts offset len (omega arith) l in
      let r1 = read_mem_from spi phys 0 n1 w in
      let r2 = read_mem_from spi base 0 n2 r1.1 in
      let l1 = length-read_from phys 0 n1 w in
      (
        omega (arith, length-append {0} r1.0 r2.0, l1, length-read_from base 0 n2 r1.1),
        refl,
        λ k small. elim (dec_lt k n1) [
          | yes before ↦
              let e : (phys + 0 + k) % 2 ^ 16 ≡ 0x6000 + 2048 * isocket + (pread + k) % 2048 =
                omega arith in
              get_or-append_left r1.0 r2.0 k (omega arith)
              ∙ read_from-mem phys 0 n1 k w before
              ∙ ap (mem w) e
          | no behind ↦
              let j = k - n1 in
              let e : (base + 0 + j) % 2 ^ 16 ≡ 0x6000 + 2048 * isocket + (pread + k) % 2048 =
                omega arith in
              let at : k ≡ length r1.0 + j = omega arith in
              ap (λ i. get_or (r1.0 ++ r2.0) i 0) at
              ∙ get_or-append_right r1.0 r2.0 j
              ∙ read_from-mem base 0 n2 j r1.1 (omega arith)
              ∙ read_from-keeps phys 0 n1 ((base + 0 + j) % 2 ^ 16) w
              ∙ ap (mem w) e
        ],
      )
