-- ===== src/Base/Bits.antt =====
-- Laws of `bit_xor` at variables, from the recursion on binary digits that it stands for.
use Prim.Native.Nat.{
  ℕ, zero, suc, ◌+◌, ◌-◌, ◌*◌, ◌/◌, ◌%◌, ◌^◌, ◌≤◌, ◌<◌, bit_xor, digits, differ, bit_xor-bitwise,
}
use mathlib.Core.Path.{◌≡◌, refl, ap, ap₂, sym, ◌∙◌}
use native.Mathlib.Omega.{arith}
use native.Mathlib.Nat.{pow-suc}

abbrev xor_digits : ℕ → ℕ → ℕ → ℕ
xor_digits n a b = digits (λ t. t) differ n a b

-- One more round changes nothing once the rounds are as many as the first operand.
one_more : (n a b : ℕ) → a ≤ n → xor_digits n a b ≡ xor_digits (suc n) a b
one_more n zero b h = no_digits n
  where
    no_digits : (k : ℕ) → xor_digits k 0 b ≡ b
    no_digits zero = refl
    no_digits (suc k) = refl
one_more zero (suc a) b h = absurd (omega arith)
one_more (suc n) (suc a) b h = omega (arith, one_more n (suc a / 2) (b / 2) (omega arith))

many_more : (k n a b : ℕ) → a ≤ n → xor_digits n a b ≡ xor_digits (k + n) a b
many_more zero n a b h = ap (λ (m : ℕ). xor_digits m a b) {x = n} {y = 0 + n} (omega arith)
many_more (suc k) n a b h =
    many_more k n a b h
    ∙ one_more (k + n) a b (omega arith)
    ∙ ap (λ (m : ℕ). xor_digits m a b) {x = suc (k + n)} {y = suc k + n} (omega arith)

pub zero-xor : (b : ℕ) → bit_xor 0 b ≡ b
zero-xor b = bit_xor-bitwise 0 b

-- The lowest digit, and the rest.
pub xor_step : (a b : ℕ) → bit_xor a b ≡ bit_xor (a / 2) (b / 2) * 2 + differ (a % 2) (b % 2)
xor_step zero b = omega (arith, zero-xor b, zero-xor (b / 2))
xor_step (suc a) b =
    bit_xor-bitwise (suc a) b
    ∙ ap (λ (t : ℕ). t * 2 + differ (suc a % 2) (b % 2))
        (ap (λ (n : ℕ). xor_digits n (suc a / 2) (b / 2)) {x = a} {y = a - suc a / 2 + suc a / 2}
            (omega arith)
          ∙ sym (
              bit_xor-bitwise (suc a / 2) (b / 2)
              ∙ many_more (a - suc a / 2) (suc a / 2) (suc a / 2) (b / 2) (omega arith)))

differ-lt : (a b : ℕ) → a < 2 → b < 2 → differ a b < 2
differ-lt zero zero p q = omega arith
differ-lt zero (suc zero) p q = omega arith
differ-lt (suc zero) zero p q = omega arith
differ-lt (suc zero) (suc zero) p q = omega arith
differ-lt zero (suc (suc b)) p q = absurd (omega arith)
differ-lt (suc zero) (suc (suc b)) p q = absurd (omega arith)
differ-lt (suc (suc a)) b p q = absurd (omega arith)

differ_cancel : (a b c : ℕ) → a < 2 → b < 2 → c < 2 → differ a c ≡ differ b c → a ≡ b
differ_cancel zero zero c p q r e = refl
differ_cancel (suc zero) (suc zero) c p q r e = refl
differ_cancel zero (suc zero) zero p q r e = absurd (omega arith)
differ_cancel zero (suc zero) (suc zero) p q r e = absurd (omega arith)
differ_cancel (suc zero) zero zero p q r e = absurd (omega arith)
differ_cancel (suc zero) zero (suc zero) p q r e = absurd (omega arith)
differ_cancel (suc (suc a)) b c p q r e = absurd (omega arith)
differ_cancel a (suc (suc b)) c p q r e = absurd (omega arith)
differ_cancel a b (suc (suc c)) p q r e = absurd (omega arith)

digit-lt : (a b : ℕ) → differ (a % 2) (b % 2) < 2
digit-lt a b = differ-lt (a % 2) (b % 2) (omega arith) (omega arith)

-- The digits above the lowest, and the lowest.
pub xor_half : (a b : ℕ) → bit_xor a b / 2 ≡ bit_xor (a / 2) (b / 2)
xor_half a b = omega (arith, xor_step a b, digit-lt a b)

pub xor_parity : (a b : ℕ) → bit_xor a b % 2 ≡ differ (a % 2) (b % 2)
xor_parity a b = omega (arith, xor_step a b, digit-lt a b)

xor-cancel_fuel : (n a b c : ℕ) → a ≤ n → b ≤ n → bit_xor a c ≡ bit_xor b c → a ≡ b
xor-cancel_fuel zero a b c p q e = omega arith
xor-cancel_fuel (suc n) a b c p q e =
    let halves : a / 2 ≡ b / 2 =
      xor-cancel_fuel n (a / 2) (b / 2) (c / 2) (omega arith) (omega arith)
        (sym (xor_half a c) ∙ ap (λ (t : ℕ). t / 2) e ∙ xor_half b c) in
    let parities : a % 2 ≡ b % 2 =
      differ_cancel (a % 2) (b % 2) (c % 2) (omega arith) (omega arith) (omega arith)
        (sym (xor_parity a c) ∙ ap (λ (t : ℕ). t % 2) e ∙ xor_parity b c) in
    omega arith

-- What a mask `c` flips can be told from the result.
pub xor-cancel : (a b c : ℕ) → bit_xor a c ≡ bit_xor b c → a ≡ b
xor-cancel a b c = xor-cancel_fuel (a + b) a b c (omega arith) (omega arith)

-- Two words of at most `k` bits have a word of at most `k` bits.
pub xor-lt : (k a b : ℕ) → a < 2 ^ k → b < 2 ^ k → bit_xor a b < 2 ^ k
xor-lt zero a b p q = omega (arith, ap₂ bit_xor zero_a zero_b)
  where
    zero_a : a ≡ 0
    zero_a = omega arith

    zero_b : b ≡ 0
    zero_b = omega arith
xor-lt (suc k) a b p q = omega (
  arith,
  xor_step a b,
  digit-lt a b,
  xor-lt k (a / 2) (b / 2) (omega (arith, pow-suc 2 k)) (omega (arith, pow-suc 2 k)),
  pow-suc 2 k,
)

-- The high part of an exclusive or of words, for the shifts that the checksum uses.
pub xor_shift_four : (a b : ℕ) → bit_xor a b / 16 ≡ bit_xor (a / 16) (b / 16)
xor_shift_four a b = omega (
  arith,
  xor_half a b,
  xor_half (a / 2) (b / 2),
  xor_half (a / 2 / 2) (b / 2 / 2),
  xor_half (a / 2 / 2 / 2) (b / 2 / 2 / 2),
  ap₂ bit_xor (sixteenth a) (sixteenth b),
)
  where
    sixteenth : (x : ℕ) → x / 2 / 2 / 2 / 2 ≡ x / 16
    sixteenth x = omega arith

differ_comm : (a b : ℕ) → a < 2 → b < 2 → differ a b ≡ differ b a
differ_comm zero zero p q = refl
differ_comm (suc zero) (suc zero) p q = refl
differ_comm zero (suc zero) p q = refl
differ_comm (suc zero) zero p q = refl
differ_comm (suc (suc a)) b p q = absurd (omega arith)
differ_comm zero (suc (suc b)) p q = absurd (omega arith)
differ_comm (suc zero) (suc (suc b)) p q = absurd (omega arith)

differ_assoc : (a b c : ℕ) → a < 2 → b < 2 → c < 2 → differ (differ a b) c ≡ differ a (differ b c)
differ_assoc zero zero zero p q r = refl
differ_assoc zero zero (suc zero) p q r = refl
differ_assoc zero (suc zero) zero p q r = refl
differ_assoc zero (suc zero) (suc zero) p q r = refl
differ_assoc (suc zero) zero zero p q r = refl
differ_assoc (suc zero) zero (suc zero) p q r = refl
differ_assoc (suc zero) (suc zero) zero p q r = refl
differ_assoc (suc zero) (suc zero) (suc zero) p q r = refl
differ_assoc (suc (suc a)) b c p q r = absurd (omega arith)
differ_assoc a (suc (suc b)) c p q r = absurd (omega arith)
differ_assoc a b (suc (suc c)) p q r = absurd (omega arith)

xor-comm_fuel : (n a b : ℕ) → a ≤ n → b ≤ n → bit_xor a b ≡ bit_xor b a
xor-comm_fuel zero a b p q = ap₂ bit_xor {x = a} {y = b} {u = b} {v = a} (omega arith) (omega arith)
xor-comm_fuel (suc n) a b p q = omega (
  arith,
  xor_step a b,
  xor_step b a,
  xor-comm_fuel n (a / 2) (b / 2) (omega arith) (omega arith),
  differ_comm (a % 2) (b % 2) (omega arith) (omega arith),
)

pub xor_comm : (a b : ℕ) → bit_xor a b ≡ bit_xor b a
xor_comm a b = xor-comm_fuel (a + b) a b (omega arith) (omega arith)

pub xor-zero : (a : ℕ) → bit_xor a 0 ≡ a
xor-zero a = xor_comm a 0 ∙ zero-xor a

xor-assoc_fuel :
    (n a b c : ℕ) → a ≤ n → b ≤ n → c ≤ n → bit_xor (bit_xor a b) c ≡ bit_xor a (bit_xor b c)
xor-assoc_fuel zero a b c p q r =
    ap₂ bit_xor {x = bit_xor a b} {y = a} {u = c} {v = bit_xor b c}
      (ap (bit_xor a) {x = b} {y = 0} (omega arith) ∙ xor-zero a)
      (sym (ap (λ (t : ℕ). bit_xor t c) {x = b} {y = 0} (omega arith) ∙ zero-xor c))
xor-assoc_fuel (suc n) a b c p q r =
    let halves : bit_xor (bit_xor a b) c / 2 ≡ bit_xor a (bit_xor b c) / 2 =
      xor_half (bit_xor a b) c
      ∙ ap (λ (t : ℕ). bit_xor t (c / 2)) (xor_half a b)
      ∙ xor-assoc_fuel n (a / 2) (b / 2) (c / 2) (omega arith) (omega arith) (omega arith)
      ∙ sym (xor_half a (bit_xor b c) ∙ ap (bit_xor (a / 2)) (xor_half b c)) in
    let parities : bit_xor (bit_xor a b) c % 2 ≡ bit_xor a (bit_xor b c) % 2 =
      xor_parity (bit_xor a b) c
      ∙ ap (λ (t : ℕ). differ t (c % 2)) (xor_parity a b)
      ∙ differ_assoc (a % 2) (b % 2) (c % 2) (omega arith) (omega arith) (omega arith)
      ∙ sym (xor_parity a (bit_xor b c) ∙ ap (differ (a % 2)) (xor_parity b c)) in
    omega arith

pub xor_assoc : (a b c : ℕ) → bit_xor (bit_xor a b) c ≡ bit_xor a (bit_xor b c)
xor_assoc a b c = xor-assoc_fuel (a + b + c) a b c (omega arith) (omega arith) (omega arith)

-- The middle two of four words change places.
pub xor_exchange :
    (a b c d : ℕ) → bit_xor (bit_xor a b) (bit_xor c d) ≡ bit_xor (bit_xor a c) (bit_xor b d)
xor_exchange a b c d =
    xor_assoc a b (bit_xor c d)
    ∙ ap (bit_xor a)
        (sym (xor_assoc b c d) ∙ ap (λ (t : ℕ). bit_xor t d) (xor_comm b c) ∙ xor_assoc c b d)
    ∙ sym (xor_assoc a c (bit_xor b d))

-- A digit that only one operand has stays.
xor_even : (a b d : ℕ) → d < 2 → bit_xor (2 * a) (2 * b + d) ≡ 2 * bit_xor a b + d
xor_even a b zero h = omega (
  arith,
  xor_step (2 * a) (2 * b + 0),
  ap₂ bit_xor {x = 2 * a / 2} {y = a} {u = (2 * b + 0) / 2} {v = b} (omega arith) (omega arith),
  ap₂ differ {x = 2 * a % 2} {y = 0} {u = (2 * b + 0) % 2} {v = 0} (omega arith) (omega arith),
)
xor_even a b (suc zero) h = omega (
  arith,
  xor_step (2 * a) (2 * b + 1),
  ap₂ bit_xor {x = 2 * a / 2} {y = a} {u = (2 * b + 1) / 2} {v = b} (omega arith) (omega arith),
  ap₂ differ {x = 2 * a % 2} {y = 0} {u = (2 * b + 1) % 2} {v = 1} (omega arith) (omega arith),
)
xor_even a b (suc (suc d)) h = absurd (omega arith)

-- A word is the exclusive or of its lowest four digits and the rest.
pub xor_split_four : (h l : ℕ) → l < 16 → bit_xor (16 * h) l ≡ 16 * h + l
xor_split_four h l lt = omega (
  arith,
  ap₂ bit_xor {x = 16 * h} {y = 2 * (2 * (2 * (2 * h)))} {u = l}
      {v = 2 * (2 * (2 * (2 * 0 + l / 8) + l / 4 % 2) + l / 2 % 2) + l % 2} (omega arith)
      (omega arith),
  xor_even (2 * (2 * (2 * h))) (2 * (2 * (2 * 0 + l / 8) + l / 4 % 2) + l / 2 % 2) (l % 2)
      (omega arith),
  xor_even (2 * (2 * h)) (2 * (2 * 0 + l / 8) + l / 4 % 2) (l / 2 % 2) (omega arith),
  xor_even (2 * h) (2 * 0 + l / 8) (l / 4 % 2) (omega arith),
  xor_even h 0 (l / 8) (omega arith),
  xor-zero h,
)
