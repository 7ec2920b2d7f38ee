-- ===== src/Tests/Disks.antt =====
-- A card whose blocks tell their addresses.
use nucleo_tests.Base.{
  ℕ, zero, suc, ◌+◌, ◌/◌, ◌%◌, ◌^◌, ◌≤◌, ◌≡◌, refl, ap, arith, true, false, List, [], ◌==◌,
  replicate, some, if◌then◌else◌,
}
use nucleo_tests.Base.Run.{Returns}
use nucleo_tests.Base.Int.{pos}
use nucleo_tests.W5100.{Spi}
use nucleo_tests.SdCard.{
  sd_read_single_block, sd_select, send_rw_cmd, send_cmd, wait_resp, wait_data, receive, read_block,
}
use nucleo_tests.SdCard.Disk.{Drive, res_ok, disk_read}
use nucleo_tests.SdCard.Disk.Sectors.{AreSectors, disk_read_sectors}

-- How many bytes have passed since the card was selected, and the fourth of them.
record Teller : Type 0 where
  phase : ℕ
  told : ℕ

abbrev reply : ℕ → ℕ → ℕ
reply phase told =
    if phase == 0 then 0xff else (if phase == 7 then 0 else (if phase == 8 then 0xfe else told))

abbrev spi : Spi Teller
spi = record {
  transfer = λ b s. (
    reply s.phase s.told,
    record { phase = suc s.phase; told = if s.phase == 4 then b else s.told },
  );
  select = λ s. record s { phase = 0 };
  deselect = λ s. s;
}

abbrev contents : ℕ → List ℕ
contents address = replicate 512 (address / 2 ^ 8 % 256)

receive_told :
    (n phase told : ℕ)
    → 9 ≤ phase
    → receive spi n (record { phase = phase; told = told })
      ≡ (replicate n told, record { phase = phase + n; told = told })
unfolding receive
receive_told zero phase told l = ap (λ p. ([], record { phase = p; told = told })) (omega arith)
receive_told (suc n) phase told l =
    let a : (phase == 0) ≡ false = ground arith in
    let b : (phase == 7) ≡ false = ground arith in
    let c : (phase == 8) ≡ false = ground arith in
    let d : (phase == 4) ≡ false = ground arith in
    let next : suc phase + n ≡ phase + suc n = omega arith in
    rw (a, b, c, d, receive_told n (suc phase) told (omega arith), next) refl

serves :
    (address : ℕ) (w : Teller)
    → Returns
        (λ r. (r.0 ≡ pos 0) × (r.1 ≡ some (contents address)))
        (sd_read_single_block spi 1 address w)
unfolding sd_read_single_block sd_select send_rw_cmd send_cmd wait_resp wait_data read_block
serves address w = rw (receive_told 512 9 (address / 2 ^ 8 % 256) (omega arith)) (refl, refl)

abbrev drive : Drive
drive = record {
  initialized = true;
  present = true;
  write_protected = false;
  byte_addressable = true;
}

abbrev selected : Teller
selected = record { phase = 0; told = 0 }

disk_read_sectors_example :
    Returns
      (λ r. (r.0 ≡ res_ok) × AreSectors contents true 40 3 r.1)
      (disk_read spi 1 0 drive 40 3 selected)
disk_read_sectors_example =
    disk_read_sectors spi 1 contents drive 40 3 selected serves refl refl (omega arith)
