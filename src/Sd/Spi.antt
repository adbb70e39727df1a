-- ===== src/Sd/Spi.antt =====
-- sd_raw.cpp: chip select, single bytes, the wait for an idle bus, and commands.
use fkfs.Base.{
  ℕ, zero, suc, ◌+◌, ◌-◌, max, ◌/◌, ◌%◌, ◌^◌, Bool, true, false, ◌==◌, ltb, if◌then◌else◌, bit_or,
}
use fkfs.Exec.{Exec, ok, failed, fault, out_of_fuel, pure, fail, raise, gets, modify, ◌>>=◌, ◌>>◌}
use fkfs.Layout.{block_size}
use fkfs.Fs.{sub32}
use fkfs.Sd.{Bus, Device, has_bits, ignore}
use fkfs.Sd.Command

module _ {B : Type 0} where
  abbrev pub set_status : ℕ → Exec (Device B) (Unit {0})
  set_status status = modify (λ d. record d { sd = record d.sd { status = status } })

  abbrev pub set_type : ℕ → Exec (Device B) (Unit {0})
  set_type type = modify (λ d. record d { sd = record d.sd { type = type } })

module _ {B : Type 0} (p : Bus B) where
  unfoldable pub write_cs : Bool → Exec (Device B) (Unit {0})
  write_cs level = modify (λ d. record d { bus = p.digital_write d.sd.cs level d.bus })

  abbrev pub cs_high : Exec (Device B) (Unit {0})
  cs_high = write_cs true

  abbrev pub cs_low : Exec (Device B) (Unit {0})
  cs_low = write_cs false

  unfoldable pub transfer : ℕ → Exec (Device B) ℕ
  transfer value d = let (byte, bus) = p.transfer value d.bus in (ok byte, record d { bus = bus })

  abbrev pub spi_read : Exec (Device B) ℕ
  spi_read = transfer 0xff

  -- The value is a `uint8_t`.
  abbrev pub spi_write : ℕ → Exec (Device B) ℕ
  spi_write value = transfer (value % 256)

  unfoldable pub clock : Exec (Device B) ℕ
  clock d = let (now, bus) = p.millis d.bus in (ok now, record d { bus = bus })

  -- The loop of `sd_raw_flush`: a byte is read, then the time is looked at.
  unfoldable pub flush_loop : ℕ → ℕ → ℕ → Exec (Device B) (Unit {0})
  flush_loop zero started timeout = raise out_of_fuel
  flush_loop (suc fuel) started timeout = do
    byte ← spi_read
    elim (byte == 0xff) [
      | true ↦ pure tt
      | false ↦ do
        now ← clock
        elim (ltb (sub32 now started) timeout) [
          | true ↦ flush_loop fuel started timeout
          | false ↦ fail
        ]
    ]

  unfoldable pub flush : ℕ → ℕ → Exec (Device B) (Unit {0})
  unfolding flush_loop
  flush fuel timeout = do started ← clock; flush_loop fuel started timeout

  -- A number of bytes that are read and dropped.
  unfoldable pub skip : ℕ → Exec (Device B) (Unit {0})
  skip zero = pure tt
  skip (suc count) = do _ ← spi_read; skip count

  -- while (sd->offset++ < SD_RAW_BLOCK_SIZE + 2): the rest of the block and its checksum. Behind the
  -- loop the offset is one more than where it stopped.
  unfoldable pub read_end : Exec (Device B) (Unit {0})
  unfolding skip
  read_end d = elim d.sd.in_block [
    | false ↦ (ok tt, d)
    | true ↦
        (do
          offset ← gets (λ (d : Device B). d.sd.offset)
          skip (block_size + 2 - offset)
          modify (λ (d : Device B). record d {
            sd = record d.sd { offset = (max offset (block_size + 2) + 1) % 2 ^ 16 };
          })
          cs_high
          modify (λ (d : Device B). record d { sd = record d.sd { in_block = false } }))
          d
  ]

  -- The four bytes of the argument, the highest first.
  unfoldable pub send_argument : ℕ → Exec (Device B) (Unit {0})
  send_argument argument = do
    _ ← spi_write (argument / 2 ^ 24)
    _ ← spi_write (argument / 2 ^ 16)
    _ ← spi_write (argument / 2 ^ 8)
    _ ← spi_write argument
    pure tt

  -- The checksum that goes with the two commands for which a card looks at it.
  abbrev pub command_crc : ℕ → ℕ
  command_crc command =
      if command == Command.cmd8 then 0x87 else if command == Command.cmd0 then 0x95 else 0xff

  -- The loop at the end: a byte without the top bit is the answer. `rounds` more bytes are read.
  unfoldable pub await_answer : ℕ → Exec (Device B) ℕ
  await_answer zero = do byte ← spi_read; set_status byte; pure byte
  await_answer (suc rounds) = do
    byte ← spi_read
    set_status byte
    elim (has_bits byte 0x80) [ true ↦ await_answer rounds | false ↦ pure byte ]

  -- The counter of the loop stops it at 0xff.
  unfoldable pub command : ℕ → ℕ → ℕ → Exec (Device B) ℕ
  unfolding read_end flush send_argument await_answer
  command fuel number argument = do
    read_end
    cs_low
    ignore (flush fuel Command.command_timeout)
    _ ← spi_write (bit_or number 0x40)
    send_argument argument
    _ ← spi_write (command_crc number)
    await_answer 0xff

  unfoldable pub acommand : ℕ → ℕ → ℕ → Exec (Device B) ℕ
  unfolding command
  acommand fuel number argument = do _ ← command fuel Command.cmd55 0; command fuel number argument

  -- The call reports failure, with the error in the status, which is a byte.
  unfoldable pub error : {A : Type 0} → ℕ → Exec (Device B) A
  error code = do cs_high; set_status (code % 256); fail

  -- `if (...) { return sd_raw_error(sd, code); }`
  unfoldable pub error_if : Bool → ℕ → Exec (Device B) (Unit {0})
  unfolding error
  error_if true code = error code
  error_if false code = pure tt

  -- `if (!...) { return sd_raw_error(sd, code); }`
  unfoldable pub or_error : Exec (Device B) (Unit {0}) → ℕ → Exec (Device B) (Unit {0})
  unfolding error
  or_error m code d =
      let (r, d') = m d in
      elim r [ ok a ↦ (ok tt, d') | failed ↦ error code d' | fault e ↦ (fault e, d') ]
