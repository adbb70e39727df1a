-- ===== src/Sd/Read.antt =====
-- sd_raw.cpp: `sd_wait_start_block`, `sd_raw_read_register` and `sd_raw_read_block`.
use fkfs.Base.{
  max, ℕ, zero, suc, ◌+◌, ◌-◌, ◌*◌, ◌%◌, ◌^◌, true, false, not, ◌||◌, ◌==◌, ltb, List, [], ◌∷◌,
  if◌then◌else◌,
}
use fkfs.Exec.{Exec, ok, out_of_fuel, pure, raise, gets, modify, ◌>>=◌, ◌>>◌}
use fkfs.Layout.{block_size}
use fkfs.Fs.{sub32}
use fkfs.Sd.{Sd, Bus, Device, type_sdhc}
use fkfs.Sd.Spi.{
  set_status, cs_high, clock, spi_read, skip, command, error, error_if, or_error, read_end,
}
use fkfs.Sd.Command
use fkfs.Sd.Error

-- A card without high capacity is addressed by bytes: block <<= 9.
unfoldable pub address : Sd → ℕ → ℕ
address sd block = if not (sd.type == type_sdhc) then block * 512 % 2 ^ 32 else block

module _ {B : Type 0} (p : Bus B) where
  -- The answer is in the status. While it is 0xff the card is still busy.
  unfoldable pub await_token : ℕ → ℕ → Exec (Device B) (Unit {0})
  await_token zero started = raise out_of_fuel
  await_token (suc fuel) started = do
    byte ← spi_read p
    set_status byte
    elim (byte == 0xff) [
      | false ↦ error_if p (not (byte == Command.data_start_block)) Error.read
      | true ↦ do
        now ← clock p
        elim (ltb Command.read_timeout (sub32 now started)) [
          | true ↦ error p Error.read_timeout
          | false ↦ await_token fuel started
        ]
    ]

  unfoldable pub wait_start_block : ℕ → Exec (Device B) (Unit {0})
  unfolding await_token
  wait_start_block fuel = do started ← clock p; await_token fuel started

  -- destiny[i] = sd_raw_spi_read(), for a number of bytes.
  unfoldable pub read_bytes : ℕ → Exec (Device B) (List ℕ)
  read_bytes zero = pure []
  read_bytes (suc count) = do byte ← spi_read p; rest ← read_bytes count; pure (byte ∷ rest)

  -- The sixteen bytes of a register; two bytes of checksum follow them.
  unfoldable pub read_register : ℕ → ℕ → Exec (Device B) (List ℕ)
  unfolding wait_start_block read_bytes
  read_register fuel number = do
    answer ← command p fuel number 0
    error_if p (not (answer == 0)) Error.read_reg
    or_error p (wait_start_block fuel) Error.general
    bytes ← read_bytes 16
    skip p 2
    cs_high p
    pure bytes

  -- The card is asked for the block, unless it is delivering it already.
  unfoldable pub open_block : ℕ → ℕ → ℕ → Exec (Device B) (Unit {0})
  unfolding wait_start_block address
  open_block fuel block offset d =
      elim (not d.sd.in_block || not (block == d.sd.block) || ltb offset d.sd.offset) [
        | false ↦ (ok tt, d)
        | true ↦
            (do
              modify (λ (d : Device B). record d { sd = record d.sd { block = block } })
              sd ← gets (λ (d : Device B). d.sd)
              answer ← command p fuel Command.cmd17 (address sd block)
              error_if p (not (answer == 0)) Error.cmd17
              or_error p (wait_start_block fuel) Error.general
              modify
                  (λ (d : Device B). record d { sd = record d.sd { offset = 0; in_block = true } }))
              d
      ]

  -- The bytes that go to `destiny`. `partialBlockRead` is the constant false, so the block is always
  -- read to its end.
  unfoldable pub read_data : ℕ → ℕ → ℕ → ℕ → Exec (Device B) (List ℕ)
  unfolding open_block read_bytes
  read_data fuel block offset size = elim (size == 0) [
    | true ↦ pure []
    | false ↦ do
      error_if p (ltb block_size (size + offset)) Error.general
      open_block fuel block offset
      at ← gets (λ (d : Device B). d.sd.offset)
      skip p (offset - at)
      bytes ← read_bytes size
      modify (λ (d : Device B). record d {
        sd = record d.sd { offset = (max offset at + size) % 2 ^ 16 };
      })
      read_end p
      pure bytes
  ]

  unfoldable pub read_block : ℕ → ℕ → Exec (Device B) (List ℕ)
  unfolding read_data
  read_block fuel block = read_data fuel block 0 block_size
