-- ===== src/SdCard/Disk/Sectors.antt =====
-- Sectors of the disk and blocks of the card.
use nucleo_tests.Base.{
  ℕ, zero, suc, ◌+◌, ◌*◌, ◌%◌, ◌^◌, ◌≤◌, ◌<◌, ◌≡◌, ◌∙◌, refl, ap, arith, Bool, true, false, some,
  List, ◌∷◌, length, get_elem?, if◌then◌else◌,
}
use nucleo_tests.Base.Run.{Returns, Returns->>=}
use nucleo_tests.Base.Int.{pos}
use nucleo_tests.W5100.{Spi}
use nucleo_tests.SdCard.{sd_read_single_block}
use nucleo_tests.SdCard.Disk.{Drive, res_ok, get_addr, read_sectors, disk_read}

-- The card's address of a sector.
abbrev pub address_of : Bool → ℕ → ℕ
address_of byte_addressable sector = if byte_addressable then 512 * sector else sector

-- The sectors are below the end of what 32 bits address.
abbrev pub InReach : Bool → ℕ → Type 0
InReach true last = last ≤ 2 ^ 23
InReach false last = last < 2 ^ 32

-- `count` blocks, which are those at the addresses of the sectors from `sector` on.
abbrev pub AreSectors : (ℕ → List ℕ) → Bool → ℕ → ℕ → List (List ℕ) → Type 0
AreSectors contents byte_addressable sector count blocks =
    (length blocks ≡ count)
    × ((k : ℕ)
        → k < count
        → get_elem? blocks k ≡ some (contents (address_of byte_addressable (sector + k))))

get_addr-address_of :
    (b : Bool) (sector : ℕ) → InReach b (suc sector) → get_addr sector b ≡ address_of b sector
unfolding get_addr
get_addr-address_of true sector h = omega arith
get_addr-address_of false sector h = refl

InReach-next :
    (b : Bool) (sector count : ℕ)
    → InReach b (sector + suc count)
    → ((sector + 1) % 2 ^ 32 ≡ suc sector) × InReach b (suc sector) × InReach b (suc sector + count)
InReach-next true sector count h = (omega arith, omega arith, omega arith)
InReach-next false sector count h = (omega arith, omega arith, omega arith)

AreSectors-cons :
    (contents : ℕ → List ℕ) (b : Bool) (sector count : ℕ) (blocks : List (List ℕ))
    → AreSectors contents b (suc sector) count blocks
    → AreSectors contents b sector (suc count) (contents (address_of b sector) ∷ blocks)
AreSectors-cons contents b sector count blocks h = (ap suc h.0, at)
  where
    at :
        (k : ℕ)
        → k < suc count
        → get_elem? (contents (address_of b sector) ∷ blocks) k
          ≡ some (contents (address_of b (sector + k)))
    at zero l = ap (λ n. some (contents (address_of b n))) (omega arith)
    at (suc k) l = h.1 k (omega arith) ∙ ap (λ n. some (contents (address_of b n))) (omega arith)

module _ {W : Type 0} (spi : Spi W) (rounds : ℕ) where
  -- The card answers each read with the block at its address.
  abbrev pub Serves : (ℕ → List ℕ) → Type 0
  Serves contents =
      (address : ℕ) (w : W)
      → Returns (λ r. (r.0 ≡ pos 0) × (r.1 ≡ some (contents address)))
          (sd_read_single_block spi rounds address w)

  IsRead : (ℕ → List ℕ) → Bool → ℕ → ℕ → Bool × List (List ℕ) × W → Type 0
  IsRead contents b sector count r = (r.0 ≡ true) × AreSectors contents b sector count r.1

  read_sectors-IsRead :
      (contents : ℕ → List ℕ) (b : Bool) (sector count : ℕ) (w : W)
      → Serves contents
      → InReach b (sector + count)
      → Returns (IsRead contents b sector count) (read_sectors spi rounds b sector count w)
  unfolding read_sectors IsRead
  read_sectors-IsRead contents b sector zero w serves h =
      (refl, (refl, λ k l. absurd (omega arith)))
  read_sectors-IsRead contents b sector (suc count) w serves h =
      let n = InReach-next b sector count h in
      let here = get_addr-address_of b sector n.1 in
      Returns->>= (λ r. (r.0 ≡ pos 0) × (r.1 ≡ some (contents (get_addr sector b))))
        (IsRead contents b sector (suc count))
        (sd_read_single_block spi rounds (get_addr sector b) w) _ (serves (get_addr sector b) w)
        (λ r e.
          rw (e.0, e.1, here, n.0)
            (Returns->>= (IsRead contents b (suc sector) count)
              (IsRead contents b sector (suc count))
              (read_sectors spi rounds b (suc sector) count r.2) _
              (read_sectors-IsRead contents b (suc sector) count r.2 serves n.2)
              (λ a k. (k.0, AreSectors-cons contents b sector count a.1 k.1))))

  -- From a card that answers each read with the block at its address, `disk_read` on the initialized
  -- drive returns `RES_OK` and writes exactly the blocks of the sectors asked for, in order: those
  -- at 512 times the sector's number on a card that addresses bytes, and at the number on another,
  -- as long as the last of them is within what 32 bits address.
  pub disk_read_sectors :
      (contents : ℕ → List ℕ) (d : Drive) (sector count : ℕ) (w : W)
      → Serves contents
      → d.initialized ≡ true
      → d.present ≡ true
      → InReach d.byte_addressable (sector + count)
      → Returns
          (λ r. (r.0 ≡ res_ok) × AreSectors contents d.byte_addressable sector count r.1)
          (disk_read spi rounds 0 d sector count w)
  unfolding disk_read IsRead
  disk_read_sectors contents d sector count w serves ready here h =
      rw (ready, here)
        (Returns->>= (IsRead contents d.byte_addressable sector count) _
          (read_sectors spi rounds d.byte_addressable sector count w) _
          (read_sectors-IsRead contents d.byte_addressable sector count w serves h)
          (λ r k. rw (k.0) (refl, k.1)))
