-- ===== src/Sd/Init.antt =====
-- sd_raw.cpp: `sd_raw_spi_configure` and `sd_raw_initialize`.
use fkfs.Base.{ℕ, zero, suc, true, false, not, ◌==◌, ltb, if◌then◌else◌, bit_and}
use fkfs.Exec.{Exec, out_of_fuel, pure, raise, gets, modify, ◌>>=◌, ◌>>◌}
use fkfs.Fs.{sub32}
use fkfs.Sd.{Bus, Device, has_bits, type_sd1, type_sd2, type_sdhc, spi_full_speed}
use fkfs.Sd.Spi.{
  set_status, set_type, cs_high, cs_low, clock, spi_read, skip, command, acommand, error, error_if,
}
use fkfs.Sd.Command
use fkfs.Sd.Error

module _ {B : Type 0} (p : Bus B) where
  abbrev on_bus : (B → B) → Exec (Device B) (Unit {0})
  on_bus f = modify (λ d. record d { bus = f d.bus })

  -- Ten bytes, more than the 74 clock cycles that a card takes to start up.
  unfoldable pub spi_configure : Exec (Device B) (Unit {0})
  unfolding skip
  spi_configure = do
    on_bus p.spi_begin
    on_bus (p.set_clock_divider 255)
    skip p 10
    on_bus (p.set_clock_divider spi_full_speed)

  -- A command is repeated till its answer is the one that is waited for. `sd->status` is set by the
  -- command, and once more by the loop.
  unfoldable pub until_status : Exec (Device B) ℕ → ℕ → ℕ → ℕ → ℕ → Exec (Device B) (Unit {0})
  until_status attempt wanted code started zero = raise out_of_fuel
  until_status attempt wanted code started (suc fuel) = do
    status ← attempt
    set_status status
    elim (status == wanted) [
      | true ↦ pure tt
      | false ↦ do
        now ← clock p
        elim (ltb Command.init_timeout (sub32 now started)) [
          | true ↦ error p code
          | false ↦ until_status attempt wanted code started fuel
        ]
    ]

  -- The last of the four bytes of an answer to CMD8 stays in the status.
  unfoldable pub read_r7 : Exec (Device B) ℕ
  read_r7 = do skip p 3; byte ← spi_read p; set_status byte; pure byte

  -- The version of the card, by its answer to CMD8.
  unfoldable pub check_version : ℕ → Exec (Device B) (Unit {0})
  unfolding read_r7
  check_version fuel = do
    answer ← command p fuel Command.cmd8 0x1aa
    elim (has_bits answer Command.r1_illegal_command) [
      | true ↦ set_type type_sd1
      | false ↦ do echo ← read_r7; error_if p (not (echo == 0xAA)) Error.cmd8; set_type type_sd2
    ]

  -- For a card of the second version, the register that tells a card of high capacity.
  unfoldable pub read_ocr : ℕ → Exec (Device B) (Unit {0})
  read_ocr fuel = do
    type ← gets (λ (d : Device B). d.sd.type)
    elim (type == type_sd2) [
      | false ↦ pure tt
      | true ↦ do
        answer ← command p fuel Command.cmd58 0
        error_if p (not (answer == 0)) Error.cmd58
        byte ← spi_read p
        if bit_and byte 0xc0 == 0xc0 then set_type type_sdhc else pure tt
        skip p 3
    ]

  -- `fuel` bounds each loop of waits.
  unfoldable pub initialize : ℕ → ℕ → Exec (Device B) (Unit {0})
  unfolding spi_configure until_status check_version read_ocr
  initialize fuel pin = do
    modify (λ d. record d { sd = record d.sd { cs = pin }; bus = p.pin_mode_output pin d.bus })
    cs_high p
    spi_configure
    cs_low p
    started ← clock p
    until_status (command p fuel Command.cmd0 0) Command.r1_idle_state Error.cmd0 started fuel
    check_version fuel
    type ← gets (λ (d : Device B). d.sd.type)
    let argument = if type == type_sd2 then 0x40000000 else 0
    until_status (acommand p fuel Command.acmd41 argument) Command.r1_ready_state Error.acmd41
        started fuel
    read_ocr fuel
    cs_high p
