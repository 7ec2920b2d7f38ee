-- ===== src/W5100/Ring/Length.antt =====
-- How many bytes are read from the chip.
use nucleo_tests.Base.{
  ℕ, zero, suc, ◌+◌, ◌-◌, ◌≡◌, ◌≤◌, refl, ap, arith, length, length-append, bit_and, ◌%◌, ◌^◌,
}
use nucleo_tests.W5100.{Spi, read_mem_from, w5100_read_mem}
use nucleo_tests.W5100.Ring.{before_end, read_buf_sure, get_rx_base, get_rx_size, get_rx_mask}

length-read_mem_from :
    {W : Type 0} (spi : Spi W) (addr i n : ℕ) (w : W) → length (read_mem_from spi addr i n w).0 ≡ n
unfolding read_mem_from
length-read_mem_from spi addr i zero w = refl
length-read_mem_from spi addr i (suc n) w = ap suc (length-read_mem_from spi addr (suc i) n _)

before_end-le : (size offset len : ℕ) → before_end size offset len ≤ len
before_end-le size offset len = ground arith

-- All the bytes that are asked for, around the end of the buffer too.
pub length-read_buf_sure :
    {W : Type 0} (spi : Spi W) (isocket len pread : ℕ) (w : W)
    → length (read_buf_sure spi isocket len pread w).0 ≡ len
unfolding read_buf_sure w5100_read_mem
length-read_buf_sure spi isocket len pread w =
    let offset = bit_and pread (get_rx_mask isocket) in
    let first = before_end (get_rx_size isocket) offset len in
    let phys = (get_rx_base isocket + offset) % 2 ^ 16 in
    let r = read_mem_from spi phys 0 first w in
    let rest = read_mem_from spi (get_rx_base isocket) 0 (len - first) r.1 in
    let one : length r.0 ≡ first = length-read_mem_from spi phys 0 first w in
    let two : length rest.0 ≡ len - first =
      length-read_mem_from spi (get_rx_base isocket) 0 (len - first) r.1 in
    omega
      (arith, length-append r.0 rest.0, one, two, before_end-le (get_rx_size isocket) offset len)
