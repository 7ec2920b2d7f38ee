-- ===== src/SdCard.antt =====
-- src/sd_spi.c: commands and blocks of an SD card behind its serial link. `transfer` is `spi_xfer`;
-- `select` and `deselect` move the card's pin. The loops that wait for the card have rounds.
pub mod Reading
pub mod Disk
use nucleo_tests.Base.{
  ℕ, zero, suc, ◌+◌, ◌-◌, ◌*◌, ◌/◌, ◌%◌, ◌^◌, bit_and, bit_or, Bool, not, Option, none, some, List,
  [], ◌∷◌, ◌==◌, leb, length, get_or, if◌then◌else◌,
}
use nucleo_tests.Base.Run.{Run, done, more, ◌>>=◌}
use nucleo_tests.Base.Int.{ℤ, pos, minus_one, eqb_ℤ}
use nucleo_tests.W5100.{Spi, send_byte}

abbrev pub data_ctrl_start : ℕ
data_ctrl_start = 0xfe

abbrev pub data_idle : ℕ
data_idle = 0xff

abbrev pub data_dummy : ℕ
data_dummy = 0xff

abbrev pub block_size : ℕ
block_size = 512

unfoldable pub crc7_get : ℕ → ℕ → ℕ
crc7_get cmd arg =
    let c = bit_and cmd 0x3f in bit_or (if c == 0 then 0x94 else if c == 8 then 0x86 else 0xff) 1

abbrev pub line_is_idle : ℕ → Bool
line_is_idle line = not (bit_and line 0x80 == 0)

module _ {W : Type 0} (spi : Spi W) where
  -- The loop, with the tries left.
  abbrev pub wait_idle : ℕ → W → W
  wait_idle zero w = w
  wait_idle (suc tries) w =
      let (b, w') = spi.transfer data_dummy w in
      let again = wait_idle tries w' in if b == data_idle then w' else again

  unfoldable pub sd_select : W → W
  sd_select w = wait_idle 125 (spi.select w)

  unfoldable pub sd_deselect : W → W
  sd_deselect w = send_byte spi data_idle (spi.deselect w)

  unfoldable pub send_cmd : ℕ → ℕ → W → W
  send_cmd cmd arg w =
      let w1 = send_byte spi (bit_or cmd 0x40) w in
      let w2 = send_byte spi (arg / 2 ^ 24 % 256) w1 in
      let w3 = send_byte spi (arg / 2 ^ 16 % 256) w2 in
      let w4 = send_byte spi (arg / 2 ^ 8 % 256) w3 in
      let w5 = send_byte spi (arg % 256) w4 in send_byte spi (crc7_get cmd arg) w5

  unfoldable pub wait_resp : ℕ → W → Run (ℕ × W)
  wait_resp zero w = more
  wait_resp (suc rounds) w =
      let (r, w') = spi.transfer data_dummy w in
      let again = wait_resp rounds w' in if line_is_idle r then again else done (r, w')

  -- As many bytes from the card.
  unfoldable pub receive : ℕ → W → List ℕ × W
  receive zero w = ([], w)
  receive (suc n) w =
      let (b, w1) = spi.transfer data_dummy w in let (bytes, w2) = receive n w1 in (b ∷ bytes, w2)

  -- The response, of `len` bytes, of which there is at least one.
  unfoldable pub sd_send_command_inner : ℕ → ℕ → ℕ → ℕ → W → Run (List ℕ × W)
  sd_send_command_inner rounds cmd arg len w = wait_resp rounds (send_cmd cmd arg w) >>= λ r.
      let (rest, w') = receive (len - 1) r.1 in done (r.0 ∷ rest, w')

  unfoldable pub sd_send_command : ℕ → ℕ → ℕ → ℕ → W → Run (List ℕ × W)
  sd_send_command rounds cmd arg len w =
      sd_send_command_inner rounds cmd arg len (sd_select w) >>= λ r. done (r.0, sd_deselect r.1)

  unfoldable pub sd_send_command_r1 : ℕ → ℕ → ℕ → W → Run (ℕ × W)
  sd_send_command_r1 rounds cmd arg w =
      sd_send_command rounds cmd arg 1 w >>= λ r. done (get_or r.0 0 0, r.1)

  unfoldable pub send_rw_cmd : ℕ → ℕ → ℕ → W → Run (ℤ × W)
  send_rw_cmd rounds cmd address w = wait_resp rounds (send_cmd cmd address w) >>= λ r.
      done ((if r.0 == 0 then pos 0 else minus_one), r.1)

  unfoldable pub wait_data : ℕ → W → Run (ℕ × W)
  wait_data zero w = more
  wait_data (suc rounds) w =
      let (data_ctrl, w') = spi.transfer data_dummy w in
      let again = wait_data rounds w' in
      if data_ctrl == data_idle then again else done (data_ctrl, w')

  -- What is written to `dst`, where anything is, comes second.
  unfoldable pub read_block : ℕ → W → Run (ℤ × Option (List ℕ) × W)
  read_block rounds w = wait_data rounds w >>= λ r.
      let (bytes, w1) = receive block_size r.1 in
      let w2 = send_byte spi data_dummy (send_byte spi data_dummy w1) in
      if r.0 == data_ctrl_start then done (pos 0, some bytes, w2) else done (minus_one, none, r.1)

  abbrev pub read_if_ok : ℕ → ℤ × W → Run (ℤ × Option (List ℕ) × W)
  read_if_ok rounds (res, w) =
      if eqb_ℤ res (pos 0) then read_block rounds w else done (res, none, w)

  unfoldable pub sd_read_single_block : ℕ → ℕ → W → Run (ℤ × Option (List ℕ) × W)
  sd_read_single_block rounds address w = send_rw_cmd rounds 17 address (sd_select w) >>= λ r.
      read_if_ok rounds r >>= λ s. done (s.0, s.1, sd_deselect s.2)

  abbrev pub send_all : List ℕ → W → W
  send_all [] w = w
  send_all (b ∷ bytes) w = send_all bytes (send_byte spi b w)

  -- `src` is a block.
  unfoldable pub send_block : List ℕ → W → ℤ × W
  send_block src w =
      let w1 = send_all src (send_byte spi data_ctrl_start w) in
      let w2 = send_byte spi data_dummy (send_byte spi data_dummy w1) in
      let (data_resp, w3) = spi.transfer data_dummy w2 in
      ((if bit_and data_resp 0x1f == 0x05 then pos 0 else minus_one), w3)

  unfoldable pub wait_not_busy : ℕ → W → Run W
  wait_not_busy zero w = more
  wait_not_busy (suc rounds) w =
      let (busy, w') = spi.transfer data_dummy w in
      let again = wait_not_busy rounds w' in if busy == data_idle then done w' else again

  unfoldable pub wait_end_write : ℕ → W → Run (ℤ × W)
  wait_end_write rounds w = wait_not_busy rounds w >>= λ w1.
      sd_send_command_inner rounds 13 0 2 w1 >>= λ r.
      let r2 = get_or r.0 0 0 + 256 * get_or r.0 1 0 in
      done ((if r2 == 0 then pos 0 else minus_one), r.1)

  abbrev pub send_if_ok : List ℕ → ℤ × W → ℤ × W
  send_if_ok src (res, w) = if eqb_ℤ res (pos 0) then send_block src w else (res, w)

  abbrev pub end_if_ok : ℕ → ℤ × W → Run (ℤ × W)
  end_if_ok rounds (res, w) = if eqb_ℤ res (pos 0) then wait_end_write rounds w else done (res, w)

  unfoldable pub sd_write_single_block : ℕ → ℕ → List ℕ → W → Run (ℤ × W)
  sd_write_single_block rounds address src w = send_rw_cmd rounds 24 address (sd_select w) >>= λ r.
      end_if_ok rounds (send_if_ok src r) >>= λ s. done (s.0, sd_deselect s.1)
