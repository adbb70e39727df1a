-- ===== src/Sd/Csd.antt =====
-- sd_raw_internal.h: the fields of the card-specific data that the driver reads; sd_raw.cpp:
-- `sd_raw_card_size` and `sd_raw_erase`. A bit field takes the lowest free bits of its byte.
pub mod Capacity
pub mod Register
use fkfs.Base.{
  ℕ, ◌+◌, ◌-◌, ◌*◌, ◌/◌, ◌%◌, ◌^◌, Bool, true, false, not, ◌==◌, ltb, List, if◌then◌else◌,
}
use fkfs.Exec.{Exec, ok, failed, fault, bad_shift, pure, raise, gets, ◌>>=◌, ◌>>◌}
use fkfs.Layout.{byte}
use fkfs.Sd.{Bus, Device}
use fkfs.Sd.Spi.{set_status, cs_high, command, error_if, or_error, flush}
use fkfs.Sd.Read.{read_register, address}
use fkfs.Sd.Command
use fkfs.Sd.Error

-- csd_t as a register's bytes; `v1` and `v2` are two views of them.
abbrev pub csd_version : List ℕ → ℕ
csd_version csd = byte csd 0 / 64

-- csd1_t
module _ (csd : List ℕ) where
  abbrev pub read_bl_len : ℕ
  read_bl_len = byte csd 5 % 16

  abbrev pub c_size : ℕ
  c_size = byte csd 6 % 4 * 2 ^ 10 + byte csd 7 * 4 + byte csd 8 / 64

  abbrev pub c_size_mult : ℕ
  c_size_mult = byte csd 9 % 4 * 2 + byte csd 10 / 128

  abbrev pub erase_blk_en : ℕ
  erase_blk_en = byte csd 10 / 64 % 2

-- csd2_t
abbrev pub c_size_v2 : List ℕ → ℕ
c_size_v2 csd = byte csd 7 / 4 * 2 ^ 16 + byte csd 8 * 2 ^ 8 + byte csd 9

-- `1 << n` as a factor, for an `int` n that is a - 7.
abbrev shift_left : {S : Type 0} → ℕ → ℕ → Exec S ℕ
shift_left value sum = if ltb sum 7 then raise bad_shift else pure (value * 2 ^ (sum - 7) % 2 ^ 32)

module _ {B : Type 0} (p : Bus B) where
  -- A register that cannot be read gives the value `other`.
  unfoldable pub with_csd : {A : Type 0} → ℕ → A → (List ℕ → Exec (Device B) A) → Exec (Device B) A
  with_csd fuel other use_csd d =
      let (r, d') = read_register p fuel Command.cmd9 d in
      elim r [ ok csd ↦ use_csd csd d' | failed ↦ (ok other, d') | fault e ↦ (fault e, d') ]

  -- The number of blocks, from the data of either version.
  unfoldable pub size_of_csd : List ℕ → Exec (Device B) ℕ
  size_of_csd csd = elim (csd_version csd == 0) [
    | true ↦ shift_left (c_size csd + 1) (c_size_mult csd + read_bl_len csd)
    | false ↦ elim (csd_version csd == 1) [
      | true ↦ pure ((c_size_v2 csd + 1) * 1024 % 2 ^ 32)
      | false ↦ do cs_high p; set_status Error.bad_csd; pure 0
    ]
  ]

  unfoldable pub card_size : ℕ → Exec (Device B) ℕ
  unfolding with_csd size_of_csd
  card_size fuel = with_csd fuel 0 size_of_csd

  unfoldable pub erase_single_block_enabled : ℕ → Exec (Device B) ℕ
  unfolding with_csd
  erase_single_block_enabled fuel = with_csd fuel 0 (λ csd. pure (erase_blk_en csd))

  -- Whether one of the three commands was refused; those behind it are not sent.
  unfoldable pub erase_refused : ℕ → ℕ → ℕ → Exec (Device B) Bool
  erase_refused fuel first last = do
    start ← command p fuel Command.cmd32 first
    elim (start == 0) [
      | false ↦ pure true
      | true ↦ do
        end ← command p fuel Command.cmd33 last
        elim (end == 0) [
          | false ↦ pure true
          | true ↦ do answer ← command p fuel Command.cmd38 0; pure (not (answer == 0))
        ]
    ]

  unfoldable pub erase : ℕ → ℕ → ℕ → Exec (Device B) (Unit {0})
  unfolding erase_single_block_enabled erase_refused
  erase fuel first_block last_block = do
    enabled ← erase_single_block_enabled fuel
    error_if p (enabled == 0) Error.erase_single_block
    sd ← gets (λ (d : Device B). d.sd)
    refused ← erase_refused fuel (address sd first_block) (address sd last_block)
    error_if p refused Error.erase
    or_error p (flush p fuel Command.erase_timeout) Error.erase_timeout
    cs_high p
