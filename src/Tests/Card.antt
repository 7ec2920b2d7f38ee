-- ===== src/Tests/Card.antt =====
-- A card that sends a block of sevens after some delay.
use nucleo_tests.Base.{ℕ, ◌≡◌, arith, refl, List, [], ◌∷◌, replicate, some}
use nucleo_tests.Base.Run.{done}
use nucleo_tests.Base.Int.{pos}
use nucleo_tests.SdCard.{sd_read_single_block}
use nucleo_tests.SdCard.Reading.{card, answer, sd_read_single_block_lem}

abbrev block : List ℕ
block = replicate 512 7

sd_read_single_block_lem_example :
    sd_read_single_block card 3 1024
      (answer (1, 2, 3, 4, 5, 6) (0xff ∷ 0x80 ∷ []) 1 block (8 ∷ 9 ∷ 0xff ∷ []))
    ≡ done (pos 0, some block, [])
sd_read_single_block_lem_example =
    sd_read_single_block_lem (1, 2, 3, 4, 5, 6) (0xff ∷ 0x80 ∷ []) block [] 1 3 1024 8 9 0xff
      (refl, (refl, tt)) (omega arith) (omega arith) refl
