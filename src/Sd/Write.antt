-- ===== src/Sd/Write.antt =====
-- sd_raw.cpp: `sd_raw_write_block` and `sd_raw_erase`. The switches SD_RAW_CRC_SUPPORT and
-- SD_PROTECT_BLOCK_ZERO are not set.
use fkfs.Base.{ℕ, Bool, true, false, not, ◌==◌, List, [], ◌∷◌, length, leb, take, bit_and}
use fkfs.Exec.{Exec, pure, gets, in_bounds, ◌>>=◌, ◌>>◌}
use fkfs.Layout.{block_size}
use fkfs.Sd.{Bus, Device}
use fkfs.Sd.Spi.{set_status, cs_high, spi_read, spi_write, command, error_if, or_error, flush}
use fkfs.Sd.Read.{address}
use fkfs.Sd.Command
use fkfs.Sd.Error

module _ {B : Type 0} (p : Bus B) where
  unfoldable pub send_bytes : List ℕ → Exec (Device B) (Unit {0})
  send_bytes [] = pure tt
  send_bytes (byte ∷ bytes) = do _ ← spi_write p byte; send_bytes bytes

  -- `crc` is the dummy -1, whose two bytes are 0xff.
  unfoldable pub write_data : ℕ → List ℕ → Exec (Device B) (Unit {0})
  unfolding send_bytes
  write_data token source = do
    _ ← spi_write p token
    in_bounds (leb block_size (length source))
    send_bytes (take block_size source)
    _ ← spi_write p 0xff
    _ ← spi_write p 0xff
    answer ← spi_read p
    set_status answer
    error_if p (not (bit_and answer Command.data_res_mask == Command.data_res_accepted)) Error.write

  -- Whether the card has an error behind the write. The second byte is read only if the first is zero.
  unfoldable pub status_error : ℕ → Exec (Device B) Bool
  status_error fuel = do
    answer ← command p fuel Command.cmd13 0
    elim (answer == 0) [ false ↦ pure true | true ↦ do byte ← spi_read p; pure (not (byte == 0)) ]

  unfoldable pub write_block : ℕ → ℕ → List ℕ → Exec (Device B) (Unit {0})
  unfolding write_data status_error
  write_block fuel block source = do
    sd ← gets (λ (d : Device B). d.sd)
    answer ← command p fuel Command.cmd24 (address sd block)
    error_if p (not (answer == 0)) Error.cmd24
    or_error p (write_data Command.data_start_block source) Error.general
    or_error p (flush p fuel Command.write_timeout) Error.write_timeout
    bad ← status_error fuel
    error_if p bad Error.write_programming
    cs_high p
