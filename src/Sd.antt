-- ===== src/Sd.antt =====
-- sd_raw.h, sd_raw_internal.h and sd_raw.cpp: the driver for a card on an SPI bus. Here are the
-- driver's struct, the bus, and the steps that the other functions are made of.
pub mod Error
pub mod Command
pub mod Spi
pub mod Init
pub mod Read
pub mod Write
pub mod Csd
pub mod Dma
pub mod Timed
pub mod Serving
use fkfs.Base.{ℕ, ◌%◌, Bool, not, ◌==◌}
use fkfs.Base.{bit_and}
use fkfs.Exec.{Exec, Result, ok, failed, fault}

-- sd_raw_t
pub record Sd : Type 0 where
  pub cs : ℕ
  pub status : ℕ
  pub type : ℕ
  pub offset : ℕ
  pub in_block : Bool
  pub block : ℕ

-- What the driver calls: Arduino's pins and clock, and `SPI` of SPI.h. `B` is the state of all of
-- them and of the card. A level is true for HIGH.
pub record Bus (B : Type 0) : Type 0 where
  -- `SPI.transfer`: the byte sent, and the byte received.
  pub transfer : ℕ → B → ℕ × B
  pub millis : B → ℕ × B
  pub digital_write : ℕ → Bool → B → B
  pub pin_mode_output : ℕ → B → B
  pub spi_begin : B → B
  pub set_clock_divider : ℕ → B → B

-- The driver's struct and what it works on.
pub record Device (B : Type 0) : Type 0 where
  pub sd : Sd
  pub bus : B

-- SD_CARD_TYPE_*
abbrev pub type_sd1 : ℕ
type_sd1 = 1

abbrev pub type_sd2 : ℕ
type_sd2 = 2

abbrev pub type_sdhc : ℕ
type_sdhc = 3

-- SPI_FULL_SPEED
abbrev pub spi_full_speed : ℕ
spi_full_speed = 0

-- `byte & mask`, as a condition.
abbrev pub has_bits : ℕ → ℕ → Bool
has_bits byte mask = not (bit_and byte mask == 0)

-- A call whose status is not looked at.
unfoldable pub ignore : {S A : Type 0} → Exec S A → Exec S (Unit {0})
ignore m s =
    let (r, s') = m s in
    elim r [ ok a ↦ (ok tt, s') | failed ↦ (ok tt, s') | fault e ↦ (fault e, s') ]
