-- ===== src/W5100.antt =====
-- src/w5100_spi.c: the network chip behind its serial link. `transfer` is `spi_xfer`, which sends a
-- byte and returns the one received at the same time; `select` and `deselect` move the chip's pin.
pub mod Ring
pub mod State
pub mod Open
pub mod Connect
pub mod Transfer
pub mod Send
pub mod Query
pub mod Calls
use nucleo_tests.Base.{ℕ, zero, suc, ◌+◌, ◌*◌, ◌/◌, ◌%◌, ◌^◌, bit_or, List, [], ◌∷◌}

pub record Spi (W : Type 0) : Type 0 where
  pub transfer : ℕ → W → ℕ × W
  pub select : W → W
  pub deselect : W → W

abbrev pub w5100_sock_reg_get : ℕ → ℕ → ℕ
w5100_sock_reg_get sn_reg socket = (0x0400 + sn_reg + socket * 0x0100) % 2 ^ 16

abbrev pub op_write : ℕ
op_write = 0xf0

abbrev pub op_read : ℕ
op_read = 0x0f

module _ {W : Type 0} (spi : Spi W) where
  abbrev pub send_byte : ℕ → W → W
  send_byte b w = (spi.transfer b w).1

  abbrev pub w5100_xfer_addr : ℕ → W → W
  w5100_xfer_addr reg w = send_byte (reg % 256) (send_byte (reg / 256) w)

  unfoldable pub w5100_write_byte : ℕ → ℕ → W → W
  w5100_write_byte reg val w =
      spi.deselect (send_byte val (w5100_xfer_addr reg (send_byte op_write (spi.select w))))

  unfoldable pub w5100_read_byte : ℕ → W → ℕ × W
  w5100_read_byte reg w =
      let (rx, w') = spi.transfer 0 (w5100_xfer_addr reg (send_byte op_read (spi.select w))) in
      (rx, spi.deselect w')

  -- The loop, from byte `i` on, with the bytes left. An address is a `uint16_t`.
  unfoldable pub read_mem_from : ℕ → ℕ → ℕ → W → List ℕ × W
  read_mem_from addr i zero w = ([], w)
  read_mem_from addr i (suc left) w =
      let (b, w1) = w5100_read_byte ((addr + i) % 2 ^ 16) w in
      let (bytes, w2) = read_mem_from addr (suc i) left w1 in (b ∷ bytes, w2)

  unfoldable pub w5100_read_mem : ℕ → ℕ → W → List ℕ × W
  w5100_read_mem addr n w = read_mem_from addr 0 n w

  unfoldable pub write_mem_from : ℕ → ℕ → List ℕ → W → W
  write_mem_from addr i [] w = w
  write_mem_from addr i (b ∷ bytes) w =
      write_mem_from addr (suc i) bytes (w5100_write_byte ((addr + i) % 2 ^ 16) b w)

  unfoldable pub w5100_write_mem : ℕ → List ℕ → W → W
  w5100_write_mem addr bytes w = write_mem_from addr 0 bytes w

  -- The loop of two rounds, on a `uint16_t`.
  unfoldable pub w5100_read_reg2 : ℕ → W → ℕ × W
  w5100_read_reg2 reg w =
      let (b0, w1) = w5100_read_byte (reg % 2 ^ 16) w in
      let rx = bit_or 0 b0 * 2 ^ 8 % 2 ^ 16 in
      let (b1, w2) = w5100_read_byte ((reg + 1) % 2 ^ 16) w1 in (bit_or rx b1 * 2 ^ 8 % 2 ^ 16, w2)

  -- The loop of two rounds, which shift by 24 and by 16.
  unfoldable pub w5100_write_reg2 : ℕ → ℕ → W → W
  w5100_write_reg2 reg val w =
      w5100_write_byte ((reg + 1) % 2 ^ 16) (val / 2 ^ 16 % 256)
        (w5100_write_byte (reg % 2 ^ 16) (val / 2 ^ 24 % 256) w)
