-- ===== src/Sd/Csd/Register.antt =====
-- The card-specific data as the SD card specification has it: a register of 128 bits, which is sent
-- with its highest byte first.
use fkfs.Base.{
  ℕ, zero, suc, ◌+◌, ◌-◌, ◌*◌, ◌/◌, ◌%◌, ◌^◌, ◌<◌, ◌≡◌, List, arith, ap₂, ◌∙◌, ◌==◌, if◌then◌else◌,
}
use native.Mathlib.Nat.{add-zero}
use fkfs.Layout.{byte}
use fkfs.Sd.Csd.{csd_version, read_bl_len, c_size, c_size_mult, c_size_v2}

-- The register is b127 .. b0, and its first byte holds b127 to b120.
abbrev pub bit : List ℕ → ℕ → ℕ
bit csd n = byte csd (15 - n / 8) / 2 ^ (n % 8) % 2

-- The `width` bits from the bit `low` on, as a number.
abbrev pub field : List ℕ → ℕ → ℕ → ℕ
field csd low zero = 0
field csd low (suc width) = bit csd low + 2 * field csd (suc low) width

-- The capacity in bytes: BLOCKNR * BLOCK_LEN in the first version, with C_SIZE in the bits 73 to 62,
-- C_SIZE_MULT in 49 to 47 and READ_BL_LEN in 83 to 80; units of 512 KB in the second, with C_SIZE in
-- the bits 69 to 48. The version, CSD_STRUCTURE, is in the bits 127 to 126.
unfoldable pub capacity : List ℕ → ℕ
capacity csd =
    if field csd 126 2 == 0
    then (field csd 62 12 + 1) * 2 ^ (field csd 47 3 + 2) * 2 ^ field csd 80 4
    else (field csd 48 22 + 1) * 512 * 1024

module _ (csd : List ℕ) (bytes : (i : ℕ) → byte csd i < 256) where
  pub csd_version-field : csd_version csd ≡ field csd 126 2
  csd_version-field = omega (arith, bytes 0)

  pub read_bl_len-field : read_bl_len csd ≡ field csd 80 4
  read_bl_len-field = omega (arith, bytes 5)

  pub c_size_mult-field : c_size_mult csd ≡ field csd 47 3
  c_size_mult-field = omega (arith, bytes 9, bytes 10)

  pub c_size-field : c_size csd ≡ field csd 62 12
  c_size-field = omega (arith, bytes 6, bytes 7, bytes 8)

  -- Eight bits in front of the number n.
  abbrev eight : ℕ → ℕ → ℕ
  eight low n =
      bit csd low
      + 2
        * (bit csd (1 + low)
            + 2
              * (bit csd (2 + low)
                  + 2
                    * (bit csd (3 + low)
                        + 2
                          * (bit csd (4 + low)
                              + 2
                                * (bit csd (5 + low)
                                    + 2 * (bit csd (6 + low) + 2 * (bit csd (7 + low) + 2 * n)))))))

  eight_lem : (low n : ℕ) → eight low n ≡ eight low 0 + 256 * n
  eight_lem low n = omega arith

  high_from_48 : field csd 48 22 ≡ field csd 48 8 + 256 * field csd 56 14
  high_from_48 = eight_lem 48 (field csd 56 14)

  high_from_56 : field csd 56 14 ≡ field csd 56 8 + 256 * field csd 64 6
  high_from_56 = eight_lem 56 (field csd 64 6)

  low_byte : field csd 48 8 ≡ byte csd 9
  low_byte = omega (arith, bytes 9)

  middle_byte : field csd 56 8 ≡ byte csd 8
  middle_byte = omega (arith, bytes 8)

  no_high : byte csd 7 ≡ 0 → field csd 64 6 ≡ 0
  no_high top = omega (arith, top)

  of_bytes : byte csd 7 ≡ 0 → field csd 48 22 ≡ byte csd 9 + 256 * byte csd 8
  of_bytes top =
      high_from_48
      ∙ ap₂ (λ a b. a + 256 * b) low_byte
          (high_from_56
            ∙ ap₂ (λ a b. a + 256 * b) middle_byte (no_high top)
            ∙ add-zero (byte csd 8))

  in_units :
      (n : ℕ)
      → byte csd 7 ≡ 0
      → n ≡ byte csd 9 + 256 * byte csd 8
      → (c_size_v2 csd + 1) * 1024 % 2 ^ 32 * 512 ≡ (n + 1) * 512 * 1024
  in_units n top e = omega (arith, top, e, bytes 8, bytes 9)

  pub c_size_v2-field :
      byte csd 7 ≡ 0
      → (c_size_v2 csd + 1) * 1024 % 2 ^ 32 * 512 ≡ (field csd 48 22 + 1) * 512 * 1024
  c_size_v2-field top = in_units (field csd 48 22) top (of_bytes top)
