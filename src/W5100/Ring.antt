-- ===== src/W5100/Ring.antt =====
-- src/w5100_socket.c: the ring buffers of a socket in the chip's memory.
pub mod Wrap
pub mod Store
pub mod Length
use nucleo_tests.Base.{
  ℕ, zero, suc, ◌+◌, ◌-◌, ◌*◌, ◌%◌, ◌^◌, bit_and, List, [], ◌∷◌, ◌++◌, length, take, drop, get_or,
  ltb, ◌==◌, if◌then◌else◌,
}
use nucleo_tests.Base.Bytes.{word16, bytes16}
use nucleo_tests.Base.Run.{Run, done, more, ◌>>=◌}
use nucleo_tests.Inet.{htons, ntohs}
use nucleo_tests.W5100.{
  Spi, w5100_read_mem, w5100_write_mem, w5100_read_byte, w5100_write_byte, w5100_sock_reg_get,
}

abbrev pub w5100_tx_mem_base : ℕ
w5100_tx_mem_base = 0x4000

abbrev pub w5100_rx_mem_base : ℕ
w5100_rx_mem_base = 0x6000

abbrev pub get_tx_size : ℕ → ℕ
get_tx_size isocket = 0x800

abbrev pub get_tx_mask : ℕ → ℕ
get_tx_mask isocket = get_tx_size isocket - 1

abbrev pub get_tx_base : ℕ → ℕ
get_tx_base isocket = (w5100_tx_mem_base + get_tx_size isocket * isocket) % 2 ^ 16

abbrev pub get_rx_size : ℕ → ℕ
get_rx_size isocket = 0x800

abbrev pub get_rx_mask : ℕ → ℕ
get_rx_mask isocket = get_rx_size isocket - 1

abbrev pub get_rx_base : ℕ → ℕ
get_rx_base isocket = (w5100_rx_mem_base + get_rx_size isocket * isocket) % 2 ^ 16

-- How many bytes of `len` lie before the end of a buffer of `size`, from `offset` on.
abbrev pub before_end : ℕ → ℕ → ℕ → ℕ
before_end size offset len = if ltb size (offset + len) then size - offset else len

module _ {W : Type 0} (spi : Spi W) where
  -- The bytes read, and `*pread` after them.
  unfoldable pub read_buf_sure : ℕ → ℕ → ℕ → W → List ℕ × ℕ × W
  read_buf_sure isocket len pread w =
      let offset = bit_and pread (get_rx_mask isocket) in
      let phys = (get_rx_base isocket + offset) % 2 ^ 16 in
      let toread1 = before_end (get_rx_size isocket) offset len in
      let toread2 = len - toread1 in
      let (bytes1, w1) = w5100_read_mem spi phys toread1 w in
      let (bytes2, w2) = w5100_read_mem spi (get_rx_base isocket) toread2 w1 in
      (bytes1 ++ bytes2, (pread + len) % 2 ^ 16, w2)

  -- `*pwrite` after the bytes.
  unfoldable pub write_buf_sure : ℕ → List ℕ → ℕ → W → ℕ × W
  write_buf_sure isocket bytes pwrite w =
      let offset = bit_and pwrite (get_tx_mask isocket) in
      let phys = (offset + get_tx_base isocket) % 2 ^ 16 in
      let towrite1 = before_end (get_tx_size isocket) offset (length bytes) in
      let w1 = w5100_write_mem spi phys (take towrite1 bytes) w in
      let w2 = w5100_write_mem spi (get_tx_base isocket) (drop towrite1 bytes) w1 in
      ((pwrite + length bytes) % 2 ^ 16, w2)

  -- The polling of `w5100_command`, with rounds: the chip clears the register.
  unfoldable pub wait_command : ℕ → ℕ → W → Run W
  wait_command zero isocket w = more
  wait_command (suc rounds) isocket w =
      let (cr, w') = w5100_read_byte spi (w5100_sock_reg_get 0x0001 isocket) w in
      let again = wait_command rounds isocket w' in if cr == 0 then done w' else again

  unfoldable pub w5100_command : ℕ → ℕ → ℕ → W → Run W
  w5100_command rounds isocket cmd w =
      wait_command rounds isocket (w5100_write_byte spi (w5100_sock_reg_get 0x0001 isocket) cmd w)

  -- A register of two bytes in network order, by its offset.
  abbrev pub read_sock_reg16 : ℕ → ℕ → W → ℕ × W
  read_sock_reg16 reg isocket w =
      let (bytes, w') = w5100_read_mem spi (w5100_sock_reg_get reg isocket) 2 w in
      (ntohs (word16 (get_or bytes 0 0) (get_or bytes 1 0)), w')

  abbrev pub write_sock_reg16 : ℕ → ℕ → ℕ → W → W
  write_sock_reg16 reg isocket val w =
      w5100_write_mem spi (w5100_sock_reg_get reg isocket) (bytes16 (htons val)) w

  unfoldable pub read_buf_len : ℕ → W → ℕ × W
  read_buf_len isocket w = read_sock_reg16 0x0026 isocket w

  unfoldable pub read_buf_pstart : ℕ → W → ℕ × W
  read_buf_pstart isocket w = read_sock_reg16 0x0028 isocket w

  unfoldable pub read_buf_recv : ℕ → ℕ → ℕ → W → Run W
  read_buf_recv rounds isocket pstop w =
      w5100_command rounds isocket 0x40 (write_sock_reg16 0x0028 isocket pstop w)

  -- The bytes read, as many as the value returned.
  unfoldable pub read_buf : ℕ → ℕ → ℕ → W → Run (List ℕ × W)
  read_buf rounds isocket len w =
      let (toread, w1) = read_buf_len isocket w in
      let (pread, w2) = read_buf_pstart isocket w1 in
      let (bytes, pstop, w3) =
        read_buf_sure isocket (if ltb toread len then toread else len) pread w2 in
      if toread == 0
      then done ([], w1)
      else (read_buf_recv rounds isocket pstop w3 >>= λ w4. done (bytes, w4))

  unfoldable pub write_buf_len : ℕ → W → ℕ × W
  write_buf_len isocket w = read_sock_reg16 0x0020 isocket w

  unfoldable pub write_buf_pstart : ℕ → W → ℕ × W
  write_buf_pstart isocket w = read_sock_reg16 0x0024 isocket w

  unfoldable pub write_buf_send : ℕ → ℕ → ℕ → W → Run W
  write_buf_send rounds isocket pstop w =
      w5100_command rounds isocket 0x20 (write_sock_reg16 0x0024 isocket pstop w)

  -- The number of bytes that were written.
  unfoldable pub write_buf : ℕ → ℕ → List ℕ → W → Run (ℕ × W)
  write_buf rounds isocket buf w =
      let (nfree, w1) = write_buf_len isocket w in
      let bytes = if ltb nfree (length buf) then take nfree buf else buf in
      let (pwrite, w2) = write_buf_pstart isocket w1 in
      let (pstop, w3) = write_buf_sure isocket bytes pwrite w2 in
      if ltb 0 nfree
      then (write_buf_send rounds isocket pstop w3 >>= λ w4. done (length bytes, w4))
      else done (0, w1)
