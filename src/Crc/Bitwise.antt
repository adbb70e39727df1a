-- ===== src/Crc/Bitwise.antt =====
-- `crc16_update` against the definition of the checksum by single bits: the CRC-16 with the
-- reflected polynomial 0xA001.
use fkfs.Base.{
  ℕ, zero, suc, ◌*◌, ◌/◌, ◌%◌, ◌<◌, ◌≡◌, refl, sym, ap, ap₂, ◌∙◌, arith, List, [], ◌∷◌, true, ◌==◌,
  if◌then◌else◌, bit_xor, ==_iff,
}
use Prim.Native.Nat.{differ}
use fkfs.Base.Bits.{
  xor_exchange, xor_assoc, xor_comm, xor-zero, xor_parity, xor_half, xor_split_four,
}
use fkfs.Crc.{table_at, crc16_nibble, crc16_byte, crc16_update}
use fkfs.Crc.Injective.{
  holds_below, holds_below-at, crc16_nibble-plain, crc16_nibble-lt, crc16_byte-lt,
}

-- One bit leaves the register; if it is set, the polynomial is mixed in.
unfoldable shift : ℕ → ℕ
shift crc = bit_xor (crc / 2) (if crc % 2 == 1 then 0xA001 else 0)

unfoldable shift_four : ℕ → ℕ
unfolding shift
shift_four crc = shift (shift (shift (shift crc)))

-- The bits of the data, the lowest first.
unfoldable bitwise_byte : ℕ → ℕ → ℕ
unfolding shift_four
bitwise_byte crc byte = shift_four (shift_four (bit_xor crc byte))

unfoldable pub bitwise : ℕ → List ℕ → ℕ
unfolding bitwise_byte
bitwise crc [] = crc
bitwise crc (byte ∷ rest) = bitwise (bitwise_byte crc byte) rest

mask-xor :
    (a b : ℕ)
    → a < 2
    → b < 2
    → (if differ a b == 1 then 0xA001 else 0)
      ≡ bit_xor (if a == 1 then 0xA001 else 0) (if b == 1 then 0xA001 else 0)
mask-xor zero zero p q = refl
mask-xor zero (suc zero) p q = refl
mask-xor (suc zero) zero p q = refl
mask-xor (suc zero) (suc zero) p q = refl
mask-xor (suc (suc a)) b p q = absurd (omega arith)
mask-xor zero (suc (suc b)) p q = absurd (omega arith)
mask-xor (suc zero) (suc (suc b)) p q = absurd (omega arith)

-- The register's steps add up, digit by digit.
shift-xor : (a b : ℕ) → shift (bit_xor a b) ≡ bit_xor (shift a) (shift b)
unfolding shift
shift-xor a b =
    ap₂ bit_xor (xor_half a b) (
      ap (λ (d : ℕ). if d == 1 then 0xA001 else 0) (xor_parity a b)
      ∙ mask-xor (a % 2) (b % 2) (omega arith) (omega arith))
    ∙ xor_exchange (a / 2) (b / 2) (if a % 2 == 1 then 0xA001 else 0)
        (if b % 2 == 1 then 0xA001 else 0)

shift_four-xor : (a b : ℕ) → shift_four (bit_xor a b) ≡ bit_xor (shift_four a) (shift_four b)
unfolding shift_four
shift_four-xor a b =
    rw
      (
        shift-xor a b,
        shift-xor (shift a) (shift b),
        shift-xor (shift (shift a)) (shift (shift b)),
        shift-xor (shift (shift (shift a))) (shift (shift (shift b))),
      )
      refl

-- A register whose lowest digit is not set is halved.
shift_even : (a b : ℕ) → a ≡ 2 * b → shift a ≡ b
unfolding shift
shift_even a b e =
    ap₂ bit_xor {x = a / 2} {y = b} {u = if a % 2 == 1 then 0xA001 else 0} {v = 0} (omega arith)
      (ap (λ (d : ℕ). if d == 1 then 0xA001 else 0) {x = a % 2} {y = 0} (omega arith))
    ∙ xor-zero b

shift_four_high : (h : ℕ) → shift_four (16 * h) ≡ h
unfolding shift_four
shift_four_high h =
    ap (λ (t : ℕ). shift (shift (shift t))) (shift_even (16 * h) (8 * h) (omega arith))
    ∙ ap (λ (t : ℕ). shift (shift t)) (shift_even (8 * h) (4 * h) (omega arith))
    ∙ ap shift (shift_even (4 * h) (2 * h) (omega arith))
    ∙ shift_even (2 * h) h refl

table_is_shifts : holds_below (λ i. shift_four i == table_at i) 16 ≡ true
unfolding holds_below shift_four shift table_at
table_is_shifts = refl

-- The table holds what four steps make of four bits.
shift_four-table_at : (i : ℕ) → i < 16 → shift_four i ≡ table_at i
shift_four-table_at i h =
    (==_iff _ (table_at i)).0
      (holds_below-at (λ t. shift_four t == table_at t) 16 h table_is_shifts)

shift_four_split : (x : ℕ) → shift_four x ≡ bit_xor (x / 16) (table_at (x % 16))
shift_four_split x =
    ap shift_four {x = x} {y = bit_xor (16 * (x / 16)) (x % 16)}
      (omega (arith, xor_split_four (x / 16) (x % 16) (omega arith)))
    ∙ shift_four-xor (16 * (x / 16)) (x % 16)
    ∙ ap₂ bit_xor (shift_four_high (x / 16)) (shift_four-table_at (x % 16) (omega arith))

crc16_nibble-shift_four :
    (crc nibble : ℕ)
    → crc < 65536
    → nibble < 16
    → crc16_nibble crc nibble ≡ shift_four (bit_xor crc nibble)
crc16_nibble-shift_four crc nibble h k =
    crc16_nibble-plain crc nibble h k
    ∙ sym (
        shift_four-xor crc nibble
        ∙ ap₂ bit_xor (shift_four_split crc) (shift_four-table_at nibble k))

crc16_byte-bitwise_byte :
    (crc byte : ℕ) → crc < 65536 → byte < 256 → crc16_byte crc byte ≡ bitwise_byte crc byte
unfolding crc16_byte bitwise_byte
crc16_byte-bitwise_byte crc byte h k =
    crc16_nibble-shift_four (crc16_nibble crc (byte % 16)) (byte / 16 % 16) (crc16_nibble-lt crc _)
      (omega arith)
    ∙ ap shift_four inner
  where
    upper : byte / 16 % 16 ≡ shift_four (16 * (byte / 16))
    upper = omega (arith, shift_four_high (byte / 16))

    inner : bit_xor (crc16_nibble crc (byte % 16)) (byte / 16 % 16) ≡ shift_four (bit_xor crc byte)
    inner =
        ap₂ bit_xor (crc16_nibble-shift_four crc (byte % 16) h (omega arith)) upper
        ∙ sym (shift_four-xor (bit_xor crc (byte % 16)) (16 * (byte / 16)))
        ∙ ap shift_four (
            xor_assoc crc (byte % 16) (16 * (byte / 16))
            ∙ ap (bit_xor crc) {x = bit_xor (byte % 16) (16 * (byte / 16))} {y = byte} (
                omega (
                  arith,
                  xor_comm (byte % 16) (16 * (byte / 16)),
                  xor_split_four (byte / 16) (byte % 16) (omega arith),
                )))

-- The bytes of a list are bytes.
abbrev pub AllBytes : List ℕ → Type 0
AllBytes [] = Unit
AllBytes (b ∷ bs) = (b < 256) × AllBytes bs

-- From a 16-bit start value, the table-driven checksum of any bytes is the checksum by single bits.
pub crc16_update-bitwise :
    (crc : ℕ) (bytes : List ℕ)
    → crc < 65536
    → AllBytes bytes
    → crc16_update crc bytes ≡ bitwise crc bytes
unfolding crc16_update bitwise
crc16_update-bitwise crc [] h k = refl
crc16_update-bitwise crc (b ∷ bs) h k =
    crc16_update-bitwise (crc16_byte crc b) bs (crc16_byte-lt crc b) k.1
    ∙ ap (λ (c : ℕ). bitwise c bs) (crc16_byte-bitwise_byte crc b h k.0)
