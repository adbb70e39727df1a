-- ===== src/Lib.antt =====
-- fkfs, the file system for raw SD cards of this repository: up to four append-only files in one
-- ring of 512-byte blocks behind two header slots.
--
-- The program's parts, and the files that model them (paths from the repository's root):
--   * fkfs.cpp, `crc16_table` and `crc16_update`: Crc.antt.
--   * fkfs.h and sd_raw.h, the packed structs, their sizes and the constants: Layout.antt. A struct in
--     a buffer is its bytes, little-endian, as on the ARM and AVR boards that the library is for.
--   * fkfs.cpp, `fkfs_t` and the access to its arrays: Fs.antt.
--   * fkfs.cpp, the access to blocks, the cached block included: Fs/Blocks.antt; the headers:
--     Fs/Headers.antt; `fkfs_fsync`, `fkfs_touch` and `fkfs_flush`: Fs/Sync.antt.
--   * fkfs.cpp, `fkfs_create`, `fkfs_initialize_file` and `fkfs_initialize`: Fs/Init.antt.
--   * fkfs.cpp, the entries of a block, their check and the search for room: Fs/Check.antt.
--   * fkfs.cpp, `fkfs_file_allocate_block` and `fkfs_file_append`: Fs/Append.antt.
--   * fkfs_log.cpp, the buffer for log data: Log.antt, over any operation that appends to a file;
--     Log/Traced.antt is `fkfs_file_append` as this operation, with the bytes of the entries that it
--     has stored.
--   * fkfs.cpp, the tokens and iterators: Fs/Iterator.antt; the truncations: Fs/Truncate.antt.
--   * sd_raw.h, sd_raw_internal.h and sd_raw.cpp, the driver of the card: Sd.antt, with the constants
--     in Sd/Error.antt and Sd/Command.antt; bytes, waits and commands in Sd/Spi.antt;
--     `sd_raw_initialize` in Sd/Init.antt; reads in Sd/Read.antt; writes in Sd/Write.antt; the
--     card-specific data, the size and the erasure in Sd/Csd.antt.
--     Sd/Serving.antt is the driver in the place of the file system's platform, with a note of whether
--     one of its calls has faulted. Sd/Csd/Register.antt has the register of the SD card
--     specification by the numbers of its bits.
--   * sd_raw_dma.h and sd_raw_dma.cpp, the driver that moves blocks by DMA: Sd/Dma.antt.
--
-- An append finds room by the search of the cached block; where there is none it moves on, by a sync,
-- to the next block. A sync writes the block and then a header slot, and an initialisation later picks
-- the slot that the card can still vouch for. A truncation changes the file's version, from which the
-- checksums of its entries start, and so makes them free for the search.
--
-- How the code is modelled:
--   * A function of the code is an `Exec` (Exec.antt): from a state to a result and a state. `ok` is
--     the return of TRUE with the function's out values, `failed` the return of FALSE, and `fault` is
--     C's undefined behaviour or a loop that is out of fuel. The state is the struct `fkfs_t` (`Fs`),
--     with the platform's own state in it.
--   * To the file system the card's driver, the clock and the random numbers are the operations of the
--     record `Platform` (Platform.antt), over any state `D`. What is read past the end of a buffer is
--     the platform's too (`past`).
--   * The driver's state is its struct `sd_raw_t` (`Sd`) and the state of what it calls, together a
--     `Device`. What it calls, Arduino's pins and clock and the SPI bus with the card on it, is the
--     record `Bus`; the card is in its state, and may answer anything. The DMA controller's driver is
--     the record `Dma`.
--   * Theorems on the driver's waits take laws of the bus (Sd/Timed.antt): `Clock` says that `millis`
--     reads a time of ten thousand ticks to the millisecond, that the exchange of a byte takes a tick at
--     least and that no call takes more than a second; `Pins` says that a pin has the level written last.
--   * Numbers are natural numbers, and each width of the source is a remainder or a bound that is
--     written out.
--   * A loop has fuel. The search of a block has 512, and each round moves by eight bytes at least, as
--     an entry that is passed over has a size. The loop over blocks has one round for the present block
--     and one for each of FKFS_SEEK_BLOCKS_MAX more. A wait of the driver with a limit of n milliseconds
--     has a round for each tick: (n + 2) * 10000 are enough. An iteration over n
--     blocks has 700 rounds for each and 600 more, as an entry takes eight bytes at least; the recount of a
--     file's size has 7600 for each of its calls, and 65536 calls for each block up to the file's last.
--   * Theorems on iterations take the law `NothingBehind` (Fs/Iterator/Delivery.antt): what stands in
--     memory behind the block buffer is not taken for an entry. The code does look there.
--   * The theorem on DMA takes the law `Transmits` (Sd/Dma/Transmit.antt): a job of the controller ends,
--     and puts the bytes of its memory on the bus.
--   * The invariant `IsFs` (Fs/Invariant.antt) says that the buffer is a block, that there are four
--     files with their settings and that each field fits its type.
--
-- Not modelled: the printing functions of fkfs.cpp (`fkfs_printf`, `fkfs_configure_logging`,
-- `fkfs_log_statistics`), which keep nothing that other code reads; the formatting of
-- `fkfs_log_printf`, whose result is an argument; what is compiled only with SD_RAW_CRC_SUPPORT or
-- SD_PROTECT_BLOCK_ZERO, which nothing sets; `cid_t`, which nothing reads; utility/dma.c, dma.h and
-- conf_dma.h, a vendor's driver; src/read.go, examples/ and testing/, which are programs that use the
-- library.
pub mod Base
pub mod Crc
pub mod Layout
pub mod Exec
pub mod Platform
pub mod Fs
pub mod Log
pub mod Sd
mod Tests
