-- ===== src/SdCard/Disk.antt =====
-- src/sd_spi_diskio.c: the card as the disk of a file system, without `SD_SPI_DISKIO_READONLY`. The
-- codes of the FAT library's diskio.h are the names that the source uses; `STA_NODISK`,
-- `STA_PROTECT` and `STA_NOINIT` are not 0, which is here `sta_zero`.
pub mod Sectors
use nucleo_tests.Base.{
  ℕ, zero, suc, ◌+◌, ◌*◌, ◌/◌, ◌%◌, ◌^◌, bit_and, Bool, true, false, not, ◌||◌, Option, none, some,
  List, [], ◌∷◌, ◌==◌, ltb, get_or, take, drop, if◌then◌else◌,
}
use nucleo_tests.Base.Run.{Run, done, ◌>>=◌}
use nucleo_tests.Base.Int.{ℤ, pos, eqb_ℤ}
use nucleo_tests.W5100.{Spi}
use nucleo_tests.SdCard.{
  sd_send_command, sd_send_command_r1, sd_read_single_block, sd_write_single_block,
}

pub data DiskStatus : Type 0 where
  sta_zero sta_noinit sta_nodisk sta_protect : DiskStatus

pub data DiskResult : Type 0 where
  res_ok res_error res_notrdy res_parerr : DiskResult

pub data IoctlCmd : Type 0 where
  ctrl_sync get_sector_count get_sector_size get_block_size ctrl_trim other_cmd : IoctlCmd

-- `struct pdrv`, whose bits are read as truth values.
pub record Drive : Type 0 where
  pub initialized : Bool
  pub present : Bool
  pub write_protected : Bool
  pub byte_addressable : Bool

abbrev pub n_pdrv : ℕ
n_pdrv = 1

abbrev pub sector_size : ℕ
sector_size = 512

abbrev pub high_capacity : ℕ
high_capacity = 0x40000000

unfoldable pub disk_status : ℕ → Drive → DiskStatus
disk_status pdrv d =
    if ltb pdrv n_pdrv
    then (if not d.initialized
        then sta_noinit
        else (if not d.present
            then sta_nodisk
            else (if d.write_protected then sta_protect else sta_zero)))
    else sta_nodisk

-- A product of `uint32_t`.
unfoldable pub get_addr : ℕ → Bool → ℕ
get_addr sector byte_addressable =
    if byte_addressable then sector * sector_size % 2 ^ 32 else sector

module _ {W : Type 0} (spi : Spi W) (rounds : ℕ) where
  -- The two loops of the start, with the tries that are left after this one.
  unfoldable pub reset_card : ℕ → W → Run (ℕ × W)
  reset_card zero w = sd_send_command_r1 spi rounds 0 0 w
  reset_card (suc tries) w = do
    r ← sd_send_command_r1 spi rounds 0 0 w
    let again = reset_card tries r.1
    if r.0 == 1 then done r else again

  abbrev pub start_once : W → Run (ℕ × W)
  start_once w = do
    r ← sd_send_command_r1 spi rounds 55 0 w
    sd_send_command_r1 spi rounds 41 high_capacity r.1

  unfoldable pub start_card : ℕ → W → Run (ℕ × W)
  start_card zero w = start_once w
  start_card (suc tries) w = do
    r ← start_once w
    let again = start_card tries r.1
    if bit_and r.0 1 == 0 then done r else again

  abbrev pub Started : Type 0
  Started = DiskStatus × Drive × W

  abbrev pub card_ready : (W → W) → Drive → W → Run Started
  card_ready sd_full_speed d w = done (
    sta_zero,
    record d { initialized = true; present = true; write_protected = false },
    sd_full_speed w,
  )

  abbrev pub find_capacity : (W → W) → Drive → W → Run Started
  find_capacity sd_full_speed d w = do
    r3 ← sd_send_command spi rounds 58 0 5 w
    if not (bit_and (get_or r3.0 1 0) 0x40 == 0)
        then card_ready sd_full_speed (record d { byte_addressable = false }) r3.1
        else (do
          r ← sd_send_command_r1 spi rounds 16 sector_size r3.1
          let d' = record d { byte_addressable = true }
          if not (r.0 == 0) then done (sta_nodisk, d', r.1) else card_ready sd_full_speed d' r.1)

  abbrev pub start_stage : (W → W) → Drive → W → Run Started
  start_stage sd_full_speed d w = do
    r ← start_card 999 w
    if not (bit_and r.0 1 == 0)
        then done (sta_nodisk, d, r.1)
        else find_capacity sd_full_speed d r.1

  -- The state, the voltage range and the pattern that the card answers.
  abbrev pub bad_condition : List ℕ → Bool
  bad_condition r7 =
      not (get_or r7 0 0 == 1)
      || not (bit_and (get_or r7 3 0) 0x0f == 1)
      || not (get_or r7 4 0 == 0xaa)

  abbrev pub check_stage : (W → W) → Drive → W → Run Started
  check_stage sd_full_speed d w = do
    r ← sd_send_command spi rounds 8 0x1aa 5 w
    if bad_condition r.0 then done (sta_nodisk, d, r.1) else start_stage sd_full_speed d r.1

  -- `sd_init` and `sd_full_speed` set up the serial link through the hardware library.
  unfoldable pub disk_initialize : (W → W) → (W → W) → ℕ → Drive → W → Run Started
  disk_initialize sd_init sd_full_speed pdrv d w =
      if ltb pdrv n_pdrv
      then (do
        r ← reset_card 3 (sd_init w)
        if not (r.0 == 1) then done (sta_nodisk, d, r.1) else check_stage sd_full_speed d r.1)
      else done (sta_nodisk, d, w)

  abbrev pub next_sector : ℕ → ℕ
  next_sector sector = (sector + 1) % 2 ^ 32

  -- Whether all the blocks were read, and those that were written to `buff`.
  abbrev pub Blocks : Type 0
  Blocks = Bool × List (List ℕ) × W

  abbrev pub with_block : Option (List ℕ) → Blocks → Run Blocks
  with_block none (all, blocks, w) = done (all, blocks, w)
  with_block (some block) (all, blocks, w) = done (all, block ∷ blocks, w)

  -- The loop of `disk_read`, with the count that is left.
  unfoldable pub read_sectors : Bool → ℕ → ℕ → W → Run Blocks
  read_sectors byte_addressable sector zero w = done (true, [], w)
  read_sectors byte_addressable sector (suc count) w = do
    r ← sd_read_single_block spi rounds (get_addr sector byte_addressable) w
    let rest = read_sectors byte_addressable (next_sector sector) count r.2
    if eqb_ℤ r.0 (pos 0) then (rest >>= with_block r.1) else done (false, [], r.2)

  abbrev pub result_of : Bool → DiskResult
  result_of all = if all then res_ok else res_error

  -- The result and the blocks that are written to `buff`.
  unfoldable pub disk_read : ℕ → Drive → ℕ → ℕ → W → Run (DiskResult × List (List ℕ) × W)
  disk_read pdrv d sector count w =
      if not (ltb pdrv n_pdrv)
      then done (res_error, [], w)
      else (if not d.initialized
          then done (res_notrdy, [], w)
          else (if not d.present
              then done (res_error, [], w)
              else (read_sectors d.byte_addressable sector count w >>= λ r.
                  done (result_of r.0, r.1, r.2))))

  -- The loop of `disk_write`, on the bytes from `buff` on.
  unfoldable pub write_sectors : Bool → ℕ → ℕ → List ℕ → W → Run (Bool × W)
  write_sectors byte_addressable sector zero buff w = done (true, w)
  write_sectors byte_addressable sector (suc count) buff w = do
    r ←
        sd_write_single_block spi rounds (get_addr sector byte_addressable) (take sector_size buff)
          w
    let rest = write_sectors byte_addressable (next_sector sector) count (drop sector_size buff) r.1
    if eqb_ℤ r.0 (pos 0) then rest else done (false, r.1)

  unfoldable pub disk_write : ℕ → Drive → List ℕ → ℕ → ℕ → W → Run (DiskResult × W)
  disk_write pdrv d buff sector count w =
      if not (ltb pdrv n_pdrv)
      then done (res_error, w)
      else (if not d.initialized
          then done (res_notrdy, w)
          else (if not d.present || d.write_protected
              then done (res_error, w)
              else (write_sectors d.byte_addressable sector count buff w >>= λ r.
                  done (result_of r.0, r.1))))

-- What is written to `*buff`, where anything is, comes second.
abbrev pub ioctl_cmd : IoctlCmd → DiskResult × Option ℕ
ioctl_cmd ctrl_sync = (res_ok, none)
ioctl_cmd get_sector_count = (res_ok, some (2 * 1024 * (1024 / sector_size)))
ioctl_cmd get_sector_size = (res_ok, some sector_size)
ioctl_cmd get_block_size = (res_ok, some sector_size)
ioctl_cmd ctrl_trim = (res_ok, none)
ioctl_cmd other_cmd = (res_parerr, none)

unfoldable pub disk_ioctl : ℕ → Drive → IoctlCmd → DiskResult × Option ℕ
disk_ioctl pdrv d cmd =
    if not (ltb pdrv n_pdrv)
    then (res_error, none)
    else (if not d.initialized
        then (res_notrdy, none)
        else (if not d.present then (res_error, none) else ioctl_cmd cmd))
