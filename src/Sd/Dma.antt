-- ===== src/Sd/Dma.antt =====
-- sd_raw_dma.h and sd_raw_dma.cpp: blocks that are moved by the DMA controller. utility/dma.c is the
-- vendor's driver of the controller, the record `Dma`.
pub mod Transmit
use fkfs.Base.{
  ℕ, zero, suc, ◌+◌, ◌*◌, ◌%◌, ◌^◌, Bool, true, false, not, ◌==◌, Option, none, some, bit_and,
}
use fkfs.Exec.{Exec, ok, failed, fault, out_of_fuel, pure, modify, ◌>>=◌, ◌>>◌}
use fkfs.Sd.{Bus, Device}
use fkfs.Sd.Spi.{set_status, cs_high, spi_read, spi_write, skip, command, error_if, or_error, flush}
use fkfs.Sd.Read.{wait_start_block}
use fkfs.Sd.Write.{status_error}
use fkfs.Sd.Command
use fkfs.Sd.Error

-- dma_beat_size
pub data BeatSize : Type 0 where
  beat_byte beat_hword beat_word : BeatSize

-- SERCOM4_DMAC_ID_TX and SERCOM4_DMAC_ID_RX
pub data Trigger : Type 0 where
  spi_sends spi_receives : Trigger

-- The fields of dma_descriptor_config that are set; the others have the library's defaults.
pub record DescriptorConfig : Type 0 where
  pub beat_size : BeatSize
  pub dst_increment : Bool
  pub src_increment : Bool
  pub count : ℕ
  pub source : ℕ
  pub destination : ℕ

-- The vendor's driver, over resources `R` and descriptors `E`. Statuses are true for STATUS_OK.
pub record Dma (B R E : Type 0) : Type 0 where
  -- dma_allocate with the default configuration, but for the trigger, and one beat for each trigger
  pub allocate : Trigger → B → Option R × B
  pub create_descriptor : DescriptorConfig → E
  pub add_descriptor : R → E → B → Bool × B
  -- dma_register_callback and dma_enable_callback, for a callback that does nothing
  pub enable_callback : R → B → B
  pub start_job : R → B → B
  -- dma_get_job_status, true for STATUS_BUSY
  pub is_busy : R → B → Bool × B
  -- SPI.beginTransaction and SPI.endTransaction
  pub begin_transaction : B → B
  pub end_transaction : B → B
  -- &SERCOM4->SPI.DATA.reg
  pub data_register : ℕ

-- sd_raw_dma_t, without the pointer to the driver's struct
pub record SdDma (R E : Type 0) : Type 0 where
  pub rx_resource : R
  pub tx_resource : R
  pub tx_descriptor : E
  pub rx_descriptor : E

abbrev pub bytes_per_beat : BeatSize → ℕ
bytes_per_beat beat_byte = 1
bytes_per_beat beat_hword = 2
bytes_per_beat beat_word = 4

-- An address that is incremented is given as the end of the transfer.
abbrev pub transfer_address : Bool → BeatSize → ℕ → ℕ → ℕ
transfer_address true beat count start = (start + bytes_per_beat beat * count) % 2 ^ 32
transfer_address false beat count start = start

unfoldable pub transfer_config : ℕ → ℕ → ℕ → BeatSize → Bool → Bool → DescriptorConfig
transfer_config source destination count beat src_increment dst_increment = record {
  beat_size = beat;
  dst_increment = dst_increment;
  src_increment = src_increment;
  count = count;
  source = transfer_address src_increment beat count source;
  destination = transfer_address dst_increment beat count destination;
}

module _ {B R E : Type 0} (p : Bus B) (dma : Dma B R E) where
  abbrev pub on_bus : (B → B) → Exec (Device B) (Unit {0})
  on_bus f = modify (λ d. record d { bus = f d.bus })

  -- One channel: the resource, its descriptor, and its callback.
  unfoldable pub open_channel : Trigger → E → Exec (Device B) R
  open_channel trigger descriptor d =
      let (found, bus) = dma.allocate trigger d.bus in
      elim found [
        | none ↦ (failed, record d { bus = bus })
        | some resource ↦
            let (added, bus') = dma.add_descriptor resource descriptor bus in
            (
              elim added [ true ↦ ok resource | false ↦ failed ],
              record d {
                bus = elim added [ true ↦ dma.enable_callback resource bus' | false ↦ bus' ];
              },
            )
      ]

  unfoldable pub dma_initialize : ℕ → ℕ → ℕ → Exec (Device B) (SdDma R E)
  unfolding open_channel transfer_config
  dma_initialize source_memory destination_memory count = do
    let tx_descriptor =
        dma.create_descriptor
          (transfer_config source_memory dma.data_register count beat_byte true false)
    tx ← open_channel spi_sends tx_descriptor
    let rx_descriptor =
        dma.create_descriptor
          (transfer_config dma.data_register destination_memory count beat_byte false true)
    rx ← open_channel spi_receives rx_descriptor
    pure (record {
      rx_resource = rx;
      tx_resource = tx;
      tx_descriptor = tx_descriptor;
      rx_descriptor = rx_descriptor;
    })

  -- while (dma_get_job_status(...) == STATUS_BUSY);
  unfoldable pub await_job : ℕ → R → Exec (Device B) (Unit {0})
  await_job zero resource d = (fault out_of_fuel, d)
  await_job (suc fuel) resource d =
      let (busy, bus) = dma.is_busy resource d.bus in
      elim busy [
        | true ↦ await_job fuel resource (record d { bus = bus })
        | false ↦ (ok tt, record d { bus = bus })
      ]

  unfoldable pub dma_write_block : SdDma R E → ℕ → ℕ → Exec (Device B) (Unit {0})
  unfolding await_job
  dma_write_block sd_dma fuel block = do
    answer ← command p fuel Command.cmd24 block
    error_if p (not (answer == 0)) Error.cmd24
    _ ← spi_write p Command.data_start_block
    on_bus dma.begin_transaction
    on_bus (dma.start_job sd_dma.tx_resource)
    await_job fuel sd_dma.tx_resource
    on_bus dma.end_transaction
    skip p 2
    accepted ← spi_read p
    set_status accepted
    error_if p (not (bit_and accepted Command.data_res_mask == Command.data_res_accepted))
        Error.write
    or_error p (flush p fuel Command.write_timeout) Error.write_timeout
    bad ← status_error p fuel
    error_if p bad Error.write_programming
    cs_high p

  unfoldable pub dma_read_block : SdDma R E → ℕ → ℕ → Exec (Device B) (Unit {0})
  unfolding await_job
  dma_read_block sd_dma fuel block = do
    answer ← command p fuel Command.cmd17 block
    error_if p (not (answer == 0)) Error.cmd17
    or_error p (wait_start_block p fuel) Error.general
    on_bus dma.begin_transaction
    on_bus (dma.start_job sd_dma.rx_resource)
    on_bus (dma.start_job sd_dma.tx_resource)
    await_job fuel sd_dma.tx_resource
    on_bus dma.end_transaction
    cs_high p
