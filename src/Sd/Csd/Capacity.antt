-- ===== src/Sd/Csd/Capacity.antt =====
-- sd_raw.cpp, `sd_raw_card_size`: the number of blocks against the capacity in bytes that the SD
-- card specification reads from the card-specific data.
use fkfs.Base.{
  ◌⊎◌, sym, ◌∙◌, ℕ, ◌+◌, ◌-◌, ◌*◌, ◌%◌, ◌^◌, ◌≤◌, ◌<◌, ◌≡◌, List, inl, inr, refl, arith, ◌==◌,
  ==_iff, le→ltb, zero, suc, ap, ap₂, false,
}
use native.Mathlib.Nat.{pow-suc, pow-le-pow_right, mul-le-mul, mul_assoc}
use fkfs.Exec.{ok, ◌>>=◌, ◌>>◌}
use fkfs.Exec.Ends.{Ends, Ends-cases}
use fkfs.Layout.{byte}
use fkfs.Sd.{Bus, Device}
use fkfs.Sd.Error
use fkfs.Sd.Spi.{write_cs}
use fkfs.Sd.Csd.{csd_version, read_bl_len, c_size, c_size_mult, size_of_csd, shift_left}
use fkfs.Sd.Csd.Register.{
  field, capacity, csd_version-field, read_bl_len-field, c_size_mult-field, c_size-field,
  c_size_v2-field,
}

pow_sum : (a b c : ℕ) → c ≡ a + b → 2 ^ c ≡ 2 ^ a * 2 ^ b
pow_sum a zero c h = let same : c ≡ a = omega (arith, h) in ap (λ n. 2 ^ n) same ∙ omega arith
pow_sum a (suc b) c h =
    let next : c ≡ suc (a + b) = omega (arith, h) in
    ap (λ n. 2 ^ n) next ∙ grind (arith, pow_sum a b (a + b) refl, pow-suc 2 (a + b), pow-suc 2 b)

-- A factor of at most 2 ^ 15 keeps twelve bits within 32.
within : (value power : ℕ) → value ≤ 4096 → power ≤ 32768 → value * power % 2 ^ 32 ≡ value * power
within value power h k = omega (arith, mul-le-mul h k)

at_most : (k : ℕ) → k ≤ 15 → 2 ^ k ≤ 32768
at_most k h = pow-le-pow_right {n = 2} (omega arith) {i = k} {j = 15} h

shifted :
    {S : Type 0} (value sum : ℕ) (s : S)
    → value ≤ 4096
    → 7 ≤ sum
    → sum ≤ 22
    → shift_left value sum s ≡ (ok (value * 2 ^ (sum - 7)), s)
shifted value sum s v lo hi =
    rw (le→ltb sum 7 lo)
      (ap (λ n. (ok n, s)) (within value (2 ^ (sum - 7)) v (at_most (sum - 7) (omega arith))))

blocks_of :
    (value m b : ℕ) → 7 ≤ m + b → value * 2 ^ (m + b - 7) * 512 ≡ value * 2 ^ (m + 2) * 2 ^ b
blocks_of value m b h =
    let powers : 2 ^ (m + b - 7) * 512 ≡ 2 ^ (m + 2) * 2 ^ b =
      sym (pow_sum (m + b - 7) 9 (m + b + 2) (omega arith))
      ∙ pow_sum (m + 2) b (m + b + 2) (omega arith) in
    mul_assoc value (2 ^ (m + b - 7)) 512
    ∙ ap (λ n. value * n) powers
    ∙ sym (mul_assoc value (2 ^ (m + 2)) (2 ^ b))

module _ {B : Type 0} (p : Bus B) where
  -- The size that is computed from a register of bytes does not fault. Of the first two versions it is,
  -- in blocks of 512 bytes, the capacity that the specification of SD cards reads from the bits of the
  -- register; of any other version it is zero, with an error in the status. A register of the first
  -- version must have a size of a block at least, and one of the second at most 2 ^ 16 units of 512 KB,
  -- with its reserved bits above them zero.
  pub size_of_csd-Ends :
      (csd : List ℕ) (d : Device B)
      → ((i : ℕ) → byte csd i < 256)
      → (field csd 126 2 ≡ 0 → 7 ≤ field csd 47 3 + field csd 80 4)
      → (field csd 126 2 ≡ 1 → byte csd 7 ≡ 0)
      → Ends
          (λ blocks e.
            ((field csd 126 2 ≤ 1) × (blocks * 512 ≡ capacity csd) × (e ≡ d))
            ⊎ ((2 ≤ field csd 126 2) × (blocks ≡ 0) × (e.sd.status ≡ Error.bad_csd)))
          (λ _. ⊥)
          (size_of_csd p csd d)
  unfolding size_of_csd capacity write_cs ◌>>=◌ ◌>>◌
  size_of_csd-Ends csd d bytes first second =
      let version : csd_version csd ≡ field csd 126 2 = csd_version-field csd bytes in
      Ends-cases _ _ (csd_version csd == 0) _ _ d
        (λ old.
          let is : field csd 126 2 ≡ 0 = sym version ∙ (==_iff (csd_version csd) 0).0 old in
          let enough : 7 ≤ c_size_mult csd + read_bl_len csd =
            rw (c_size_mult-field csd bytes, read_bl_len-field csd bytes) (first is) in
          rw
            (shifted (c_size csd + 1) (c_size_mult csd + read_bl_len csd) d
              (omega (arith, bytes 6, bytes 7, bytes 8)) enough
              (omega (arith, bytes 5, bytes 9, bytes 10)))
            (inl (
              omega (arith, is),
              blocks_of (c_size csd + 1) (c_size_mult csd) (read_bl_len csd) enough
                  ∙ ap₂ (λ n m. (n + 1) * 2 ^ (m + 2) * 2 ^ read_bl_len csd)
                      (c_size-field csd bytes) (c_size_mult-field csd bytes)
                  ∙ ap (λ n. (field csd 62 12 + 1) * 2 ^ (field csd 47 3 + 2) * 2 ^ n)
                      (read_bl_len-field csd bytes)
                  ∙ sym (rw ((==_iff (field csd 126 2) 0).1 is) refl),
              refl,
            )))
        (λ new.
          Ends-cases _ _ (csd_version csd == 1) _ _ d
            (λ one.
              let is : field csd 126 2 ≡ 1 = sym version ∙ (==_iff (csd_version csd) 1).0 one in
              let other : (field csd 126 2 == 0) ≡ false = ap (λ n. n == 0) (sym version) ∙ new in
              inl (omega (arith, is), rw other (c_size_v2-field csd bytes (second is)), refl))
            (λ more. inr (ground (arith, new, more, version), refl, refl)))
