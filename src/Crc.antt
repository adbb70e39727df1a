-- ===== src/Crc.antt =====
-- The checksum of fkfs.cpp: `crc16_table` and `crc16_update`. The pointer and the count are the list
-- of the bytes read.
pub mod Injective
pub mod Bitwise
use fkfs.Base.{ℕ, ◌/◌, ◌%◌, List, [], ◌∷◌, get_or, bit_xor}

abbrev pub crc16_table : List ℕ
crc16_table =
    0x0000 ∷ 0xCC01 ∷ 0xD801 ∷ 0x1400 ∷ 0xF001 ∷ 0x3C00 ∷ 0x2800 ∷ 0xE401 ∷ 0xA001 ∷ 0x6C00 ∷ 0x7800
    ∷ 0xB401 ∷ 0x5000 ∷ 0x9C01 ∷ 0x8801 ∷ 0x4400 ∷ []

-- The index is a number below 16, so the default is never taken.
unfoldable pub table_at : ℕ → ℕ
table_at i = get_or crc16_table i 0

-- The two assignments for four bits `nibble` of the input; each is cut to 16 bits.
unfoldable pub crc16_nibble : ℕ → ℕ → ℕ
crc16_nibble crc nibble =
    let r = table_at (crc % 16) % 65536 in
    let shifted = crc / 16 % 4096 in bit_xor (bit_xor shifted r) (table_at nibble) % 65536

-- One round of the loop: the lower four bits, then the upper four.
unfoldable pub crc16_byte : ℕ → ℕ → ℕ
crc16_byte crc byte = crc16_nibble (crc16_nibble crc (byte % 16)) (byte / 16 % 16)

unfoldable pub crc16_update : ℕ → List ℕ → ℕ
crc16_update crc [] = crc
crc16_update crc (byte ∷ rest) = crc16_update (crc16_byte crc byte) rest
