-- ===== src/Crc/Injective.antt =====
-- The checksum as a function of its start value, for fixed data.
use fkfs.Base.{
  ℕ, zero, suc, ◌/◌, ◌%◌, ◌<◌, ◌≡◌, refl, sym, ap, ◌∙◌, arith, List, [], ◌∷◌, ◌++◌, Bool, true,
  ◌&&◌, ◌==◌, ltb, bit_xor, get_or, ==_iff, ◌≡⟨◌⟩◌, ◌∎, ap₂, subst,
}
use fkfs.Base.Bits.{zero-xor, xor-cancel, xor-lt, xor_shift_four}
use fkfs.Crc.{table_at, crc16_nibble, crc16_byte, crc16_update}

-- A test that is true of each number below a bound, by running it.
unfoldable pub holds_below : (ℕ → Bool) → ℕ → Bool
holds_below test zero = true
holds_below test (suc bound) = holds_below test bound && test bound

pub holds_below-at :
    (test : ℕ → Bool) (bound : ℕ) {i : ℕ}
    → i < bound
    → holds_below test bound ≡ true
    → test i ≡ true
unfolding holds_below
holds_below-at test zero lt h = absurd (omega arith)
holds_below-at test (suc bound) {i} lt h =
    ground (arith, λ (less : i < bound). holds_below-at test bound less)

table_range : holds_below (λ i. ltb (table_at i) 65536) 16 ≡ true
unfolding holds_below table_at
table_range = refl

pub table_at-lt : (i : ℕ) → i < 16 → table_at i < 65536
table_at-lt i h = ground (arith, holds_below-at (λ t. ltb (table_at t) 65536) 16 h table_range)

-- The top four bits of an entry, by which its index is found again.
abbrev index_of : List ℕ
index_of = 0 ∷ 3 ∷ 6 ∷ 5 ∷ 15 ∷ 12 ∷ 9 ∷ 10 ∷ 14 ∷ 13 ∷ 8 ∷ 11 ∷ 1 ∷ 2 ∷ 7 ∷ 4 ∷ []

table_indices : holds_below (λ i. get_or index_of (table_at i / 4096) 0 == i) 16 ≡ true
unfolding holds_below table_at
table_indices = refl

table_at-top : (i : ℕ) → i < 16 → get_or index_of (table_at i / 4096) 0 ≡ i
table_at-top i h =
    (==_iff _ i).0
      (holds_below-at (λ t. get_or index_of (table_at t / 4096) 0 == t) 16 h table_indices)

table_at-injective : (i j : ℕ) → i < 16 → j < 16 → table_at i / 4096 ≡ table_at j / 4096 → i ≡ j
table_at-injective i j p q e =
    sym (table_at-top i p) ∙ ap (λ (t : ℕ). get_or index_of t 0) e ∙ table_at-top j q

-- The high four bits of a word that is shifted and mixed with a table entry are the entry's.
mixed_top : (s t : ℕ) → s < 4096 → bit_xor s t / 4096 ≡ t / 4096
mixed_top s t h =
    bit_xor s t / 4096
    ≡⟨ omega arith ⟩ bit_xor s t / 16 / 16 / 16
    ≡⟨ ap (λ (u : ℕ). u / 16 / 16) (xor_shift_four s t) ⟩ bit_xor (s / 16) (t / 16) / 16 / 16
    ≡⟨ ap (λ (u : ℕ). u / 16) (xor_shift_four (s / 16) (t / 16)) ⟩
      bit_xor (s / 16 / 16) (t / 16 / 16) / 16
    ≡⟨ xor_shift_four (s / 16 / 16) (t / 16 / 16) ⟩ bit_xor (s / 16 / 16 / 16) (t / 16 / 16 / 16)
    ≡⟨ ap₂ bit_xor {x = s / 16 / 16 / 16} {y = 0} {u = t / 16 / 16 / 16} {v = t / 4096}
        (omega arith) (omega arith) ⟩
      bit_xor 0 (t / 4096)
    ≡⟨ zero-xor (t / 4096) ⟩ t / 4096 ∎

-- On 16-bit values nothing is cut off.
pub crc16_nibble-plain :
    (crc nibble : ℕ)
    → crc < 65536
    → nibble < 16
    → crc16_nibble crc nibble ≡ bit_xor (bit_xor (crc / 16) (table_at (crc % 16))) (table_at nibble)
unfolding crc16_nibble
crc16_nibble-plain crc nibble h k =
    let e : table_at (crc % 16) % 65536 ≡ table_at (crc % 16) =
      omega (arith, table_at-lt (crc % 16) (omega arith)) in
    let s : crc / 16 % 4096 ≡ crc / 16 = omega arith in rw (e, s) (omega (arith, mixed-lt))
  where
    mixed-lt : bit_xor (bit_xor (crc / 16) (table_at (crc % 16))) (table_at nibble) < 65536
    mixed-lt =
        xor-lt 16 (bit_xor (crc / 16) (table_at (crc % 16))) (table_at nibble)
          (xor-lt 16 (crc / 16) (table_at (crc % 16)) (omega arith)
            (table_at-lt (crc % 16) (omega arith)))
          (table_at-lt nibble k)

pub crc16_nibble-lt : (crc nibble : ℕ) → crc16_nibble crc nibble < 65536
unfolding crc16_nibble
crc16_nibble-lt crc nibble = omega arith

crc16_nibble-injective :
    (s t nibble : ℕ)
    → s < 65536
    → t < 65536
    → nibble < 16
    → crc16_nibble s nibble ≡ crc16_nibble t nibble
    → s ≡ t
crc16_nibble-injective s t nibble hs ht hn e =
    let mixed : bit_xor (s / 16) (table_at (s % 16)) ≡ bit_xor (t / 16) (table_at (t % 16)) =
      xor-cancel _ _ (table_at nibble)
        (sym (crc16_nibble-plain s nibble hs hn) ∙ e ∙ crc16_nibble-plain t nibble ht hn) in
    let tops : table_at (s % 16) / 4096 ≡ table_at (t % 16) / 4096 =
      sym (mixed_top (s / 16) (table_at (s % 16)) (omega arith))
      ∙ ap (λ (u : ℕ). u / 4096) mixed
      ∙ mixed_top (t / 16) (table_at (t % 16)) (omega arith) in
    let lows : s % 16 ≡ t % 16 =
      table_at-injective (s % 16) (t % 16) (omega arith) (omega arith) tops in
    let highs : s / 16 ≡ t / 16 = xor-cancel _ _ (table_at (t % 16)) (
      subst (λ (u : ℕ). bit_xor (s / 16) (table_at u) ≡ bit_xor (t / 16) (table_at (t % 16))) lows
        mixed) in
    omega arith

pub crc16_byte-lt : (crc byte : ℕ) → crc16_byte crc byte < 65536
unfolding crc16_byte
crc16_byte-lt crc byte = crc16_nibble-lt _ _

crc16_byte-injective :
    (s t byte : ℕ) → s < 65536 → t < 65536 → crc16_byte s byte ≡ crc16_byte t byte → s ≡ t
unfolding crc16_byte
crc16_byte-injective s t byte hs ht e = crc16_nibble-injective s t (byte % 16) hs ht (omega arith) (
    crc16_nibble-injective _ _ (byte / 16 % 16) (crc16_nibble-lt s _) (crc16_nibble-lt t _)
      (omega arith) e)

pub crc16_update-lt : (crc : ℕ) (bytes : List ℕ) → crc < 65536 → crc16_update crc bytes < 65536
unfolding crc16_update
crc16_update-lt crc [] h = h
crc16_update-lt crc (b ∷ bs) h = crc16_update-lt (crc16_byte crc b) bs (crc16_byte-lt crc b)

-- Over the same bytes, whatever they are, two 16-bit start values with one checksum are equal.
pub crc16_update-injective :
    (s t : ℕ) (bytes : List ℕ)
    → s < 65536
    → t < 65536
    → crc16_update s bytes ≡ crc16_update t bytes
    → s ≡ t
unfolding crc16_update
crc16_update-injective s t [] hs ht e = e
crc16_update-injective s t (b ∷ bs) hs ht e = crc16_byte-injective s t b hs ht (
    crc16_update-injective (crc16_byte s b) (crc16_byte t b) bs (crc16_byte-lt s b)
      (crc16_byte-lt t b) e)

-- The checksum of two runs of bytes is that of the second, started from that of the first.
pub crc16_update-append :
    (crc : ℕ) (xs ys : List ℕ) → crc16_update crc (xs ++ ys) ≡ crc16_update (crc16_update crc xs) ys
unfolding crc16_update
crc16_update-append crc [] ys = refl
crc16_update-append crc (x ∷ xs) ys = crc16_update-append (crc16_byte crc x) xs ys
