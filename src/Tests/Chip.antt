-- ===== src/Tests/Chip.antt =====
-- A chip that is a memory behind its serial link, and buffers around their end.
use nucleo_tests.Base.{
  ℕ, zero, suc, ◌+◌, ◌*◌, ◌%◌, ◌^◌, ◌<◌, ◌≤◌, ◌≡◌, ◌==◌, ◌⊎◌, arith, refl, List, length, replicate,
  get_or, if◌then◌else◌,
}
use nucleo_tests.W5100.{Spi}
use nucleo_tests.W5100.Ring.{read_buf_sure, write_buf_sure}
use nucleo_tests.W5100.Ring.Wrap.{IsReadable, read_buf_sure_ring}
use nucleo_tests.W5100.Ring.Store.{IsWritable, write_buf_sure_ring}

-- The memory, and the bytes taken of a frame since the chip was selected.
pub record Chip : Type 0 where
  pub memory : ℕ → ℕ
  pub count : ℕ
  pub operation : ℕ
  pub high : ℕ
  pub low : ℕ

abbrev stored : ℕ → ℕ → Chip → Chip
stored addr b c =
    if c.operation == 0xf0
    then record c { memory = λ a. if a == addr then b else c.memory a }
    else c

abbrev taken : ℕ → ℕ → Chip → ℕ × Chip
taken zero b c = (0, record c { operation = b; count = 1 })
taken (suc zero) b c = (1, record c { high = b; count = 2 })
taken (suc (suc zero)) b c = (2, record c { low = b; count = 3 })
taken (suc (suc (suc n))) b c = (c.memory (256 * c.high + c.low), stored (256 * c.high + c.low) b c)

abbrev spi : Spi Chip
spi = record {
  transfer = λ b c. taken c.count b c;
  select = λ c. record c { count = 0 };
  deselect = λ c. c;
}

readable : IsReadable spi (λ c. c.memory)
readable = record { answers = λ hi lo w. refl; keeps = λ hi lo a w. refl }

writable : IsWritable spi (λ c. c.memory)
writable = record { stores = λ hi lo val a w. refl }

abbrev chip : Chip
chip = record { memory = λ a. a % 251; count = 0; operation = 0; high = 0; low = 0 }

abbrev sevens : List ℕ
sevens = replicate 100 7

read_buf_sure_ring_example :
    let r = read_buf_sure spi 1 100 0x7ff0 chip in
    (length r.0 ≡ 100)
    × (r.1 ≡ (0x7ff0 + 100) % 2 ^ 16)
    × ((k : ℕ) → k < 100 → get_or r.0 k 0 ≡ chip.memory (0x6000 + 2048 * 1 + (0x7ff0 + k) % 2048))
read_buf_sure_ring_example =
    read_buf_sure_ring spi (λ c. c.memory) readable 1 100 0x7ff0 chip (omega arith) (omega arith)

write_buf_sure_ring_example :
    let r = write_buf_sure spi 3 sevens 0x7ff0 chip in
    (r.0 ≡ (0x7ff0 + length sevens) % 2 ^ 16)
    × ((k : ℕ)
        → k < length sevens
        → r.1.memory (0x4000 + 2048 * 3 + (0x7ff0 + k) % 2048) ≡ get_or sevens k 0)
    × ((a : ℕ)
        → (a < 0x4000 + 2048 * 3) ⊎ (0x4000 + 2048 * 3 + 2048 ≤ a)
        → r.1.memory a ≡ chip.memory a)
write_buf_sure_ring_example =
    write_buf_sure_ring spi (λ c. c.memory) writable 3 sevens 0x7ff0 chip (omega arith)
      (omega arith)
