-- ===== src/Layout/Bytes.antt =====
-- Unsigned integers of one, two and four bytes in little-endian order.
use fkfs.Base.{ℕ, ◌+◌, ◌*◌, ◌/◌, ◌%◌, List, [], ◌∷◌, get_or}

-- The runs that are decoded are as long as the struct, so the default is never taken.
unfoldable pub byte : List ℕ → ℕ → ℕ
byte bytes i = get_or bytes i 0

unfoldable pub le16 : List ℕ → ℕ → ℕ
unfolding byte
le16 bytes i = byte bytes i + 256 * byte bytes (i + 1)

unfoldable pub le32 : List ℕ → ℕ → ℕ
unfolding byte
le32 bytes i =
    byte bytes i
    + 256 * byte bytes (i + 1)
    + 65536 * byte bytes (i + 2)
    + 16777216 * byte bytes (i + 3)

unfoldable pub u8 : ℕ → List ℕ
u8 n = n % 256 ∷ []

unfoldable pub u16 : ℕ → List ℕ
u16 n = n % 256 ∷ n / 256 % 256 ∷ []

unfoldable pub u32 : ℕ → List ℕ
u32 n = n % 256 ∷ n / 256 % 256 ∷ n / 65536 % 256 ∷ n / 16777216 % 256 ∷ []
