-- ===== src/Sd/Error.antt =====
-- sd_raw.h: SD_CARD_ERROR_*, those that the drivers report.
use fkfs.Base.{ℕ}

abbrev pub cmd0 : ℕ
cmd0 = 0x1

abbrev pub cmd8 : ℕ
cmd8 = 0x2

abbrev pub cmd17 : ℕ
cmd17 = 0x3

abbrev pub cmd24 : ℕ
cmd24 = 0x4

abbrev pub cmd58 : ℕ
cmd58 = 0x6

abbrev pub acmd41 : ℕ
acmd41 = 0x8

abbrev pub bad_csd : ℕ
bad_csd = 0x9

abbrev pub erase : ℕ
erase = 0xA

abbrev pub erase_single_block : ℕ
erase_single_block = 0xB

abbrev pub erase_timeout : ℕ
erase_timeout = 0xC

abbrev pub read : ℕ
read = 0xD

abbrev pub read_reg : ℕ
read_reg = 0xE

abbrev pub read_timeout : ℕ
read_timeout = 0xF

abbrev pub write : ℕ
write = 0x11

abbrev pub write_programming : ℕ
write_programming = 0x14

abbrev pub write_timeout : ℕ
write_timeout = 0x15

abbrev pub general : ℕ
general = 0x17
