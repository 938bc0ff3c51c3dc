-- ===== src/Prelude/Xor.antt =====
-- Laws of `^` on words by their binary digits and half bytes. The libraries have none at variables.
use Prim.Native.Nat.{ℕ, zero, suc, ◌+◌, ◌*◌, ◌/◌, ◌%◌, ◌<◌, bit_xor, differ, bit_xor-bitwise}
use mathlib.Core.Path.{◌≡◌, refl, ap₂}
use native.Mathlib.Omega.{arith}
use mlsimgsearch.Prelude.Digits.{lowest_digit}

-- `bit_xor` by its lowest digit.
zero-bit_xor : (b : ℕ) → bit_xor 0 b ≡ b
zero-bit_xor b = bit_xor-bitwise 0 b

zero-differ : (s : ℕ) → s < 2 → differ 0 s ≡ s
zero-differ zero h = refl
zero-differ (suc zero) h = refl
zero-differ (suc (suc s)) h = absurd (omega arith)

pub bit_xor_step : (a b : ℕ) → bit_xor a b ≡ bit_xor (a / 2) (b / 2) * 2 + differ (a % 2) (b % 2)
bit_xor_step zero b =
    omega (arith, zero-bit_xor b, zero-bit_xor (b / 2), zero-differ (b % 2) (omega arith))
bit_xor_step (suc a) b =
    let whole = bit_xor-bitwise (suc a) b in
    let half = bit_xor-bitwise (suc a / 2) (b / 2) in
    omega (arith, whole, half, lowest_digit (λ y. y) differ a b)

pub xor_cong : (a a' b b' : ℕ) → a ≡ a' → b ≡ b' → bit_xor a b ≡ bit_xor a' b'
xor_cong a a' b b' p q = ap₂ bit_xor p q

-- The law for the lowest digit, two and four digits.
bit_xor_low1 :
    (r a s b : ℕ) → r < 2 → s < 2 → bit_xor (r + 2 * a) (s + 2 * b) ≡ bit_xor r s + 2 * bit_xor a b
bit_xor_low1 r a s b hr hs = omega (
  arith,
  bit_xor_step (r + 2 * a) (s + 2 * b),
  bit_xor_step r s,
  ap₂ differ {x = (r + 2 * a) % 2} {y = r % 2} {u = (s + 2 * b) % 2} {v = s % 2} (omega arith)
      (omega arith),
  xor_cong ((r + 2 * a) / 2) a ((s + 2 * b) / 2) b (omega arith) (omega arith),
  xor_cong (r / 2) 0 (s / 2) 0 (omega arith) (omega arith),
)

bit_xor_low2 :
    (r a s b : ℕ) → r < 4 → s < 4 → bit_xor (r + 4 * a) (s + 4 * b) ≡ bit_xor r s + 4 * bit_xor a b
bit_xor_low2 r a s b hr hs = omega (
  arith,
  bit_xor_low1 (r % 2) (r / 2 + 2 * a) (s % 2) (s / 2 + 2 * b) (omega arith) (omega arith),
  bit_xor_low1 (r / 2) a (s / 2) b (omega arith) (omega arith),
  bit_xor_low1 (r % 2) (r / 2) (s % 2) (s / 2) (omega arith) (omega arith),
  xor_cong (r + 4 * a) (r % 2 + 2 * (r / 2 + 2 * a)) (s + 4 * b) (s % 2 + 2 * (s / 2 + 2 * b))
      (omega arith) (omega arith),
  xor_cong r (r % 2 + 2 * (r / 2)) s (s % 2 + 2 * (s / 2)) (omega arith) (omega arith),
)

pub bit_xor_nibble :
    (r a s b : ℕ)
    → r < 16
    → s < 16
    → bit_xor (r + 16 * a) (s + 16 * b) ≡ bit_xor r s + 16 * bit_xor a b
bit_xor_nibble r a s b hr hs = omega (
  arith,
  bit_xor_low2 (r % 4) (r / 4 + 4 * a) (s % 4) (s / 4 + 4 * b) (omega arith) (omega arith),
  bit_xor_low2 (r / 4) a (s / 4) b (omega arith) (omega arith),
  bit_xor_low2 (r % 4) (r / 4) (s % 4) (s / 4) (omega arith) (omega arith),
  xor_cong (r + 16 * a) (r % 4 + 4 * (r / 4 + 4 * a)) (s + 16 * b) (s % 4 + 4 * (s / 4 + 4 * b))
      (omega arith) (omega arith),
  xor_cong r (r % 4 + 4 * (r / 4)) s (s % 4 + 4 * (s / 4)) (omega arith) (omega arith),
)
