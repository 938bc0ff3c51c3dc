-- ===== src/Prelude/Words.antt =====
-- Laws of `&` and of byte sequences. The libraries have none at variables.
use Prim.Native.Nat.{ℕ, zero, suc, ◌+◌, ◌*◌, ◌/◌, ◌%◌, ◌≤◌, ◌<◌, min, bit_and, bit_and-bitwise}
use mathlib.Core.Path.{◌≡◌, refl, ap, ap₂}
use mathlib.Core.Bool.{Bool, true, false}
use native.Mathlib.Omega.{arith}
use native.Mathlib.Decide.{ℕ_discrete}
use mlsimgsearch.Prelude.Tests.{if◌then◌else◌}
use mlsimgsearch.Prelude.Digits.{lowest_digit}

-- `bit_and` by its lowest digit.
zero-bit_and : (b : ℕ) → bit_and 0 b ≡ 0
zero-bit_and = bit_and-bitwise 0

pub bit_and_step : (x y : ℕ) → bit_and x y ≡ min (x % 2) (y % 2) + 2 * bit_and (x / 2) (y / 2)
bit_and_step zero y =
    let none_left = zero-bit_and y in omega (arith, none_left, zero-bit_and (y / 2))
bit_and_step (suc x) y =
    let whole = bit_and-bitwise (suc x) y in
    let half = bit_and-bitwise (suc x / 2) (y / 2) in
    omega (arith, whole, half, lowest_digit (λ z. 0) min x y)

pub and_cong : (a a' b b' : ℕ) → a ≡ a' → b ≡ b' → bit_and a b ≡ bit_and a' b'
and_cong a a' b b' p q = ap₂ bit_and p q

-- The law for the lowest two, four and eight digits: `&` works on the bytes of a word apart.
bit_and_low1 :
    (r a s b : ℕ) → r < 2 → s < 2 → bit_and (r + 2 * a) (s + 2 * b) ≡ bit_and r s + 2 * bit_and a b
bit_and_low1 r a s b hr hs = omega (
  arith,
  bit_and_step (r + 2 * a) (s + 2 * b),
  bit_and_step r s,
  and_cong ((r + 2 * a) / 2) a ((s + 2 * b) / 2) b (omega arith) (omega arith),
  and_cong (r / 2) 0 (s / 2) 0 (omega arith) (omega arith),
)

bit_and_low2 :
    (r a s b : ℕ) → r < 4 → s < 4 → bit_and (r + 4 * a) (s + 4 * b) ≡ bit_and r s + 4 * bit_and a b
bit_and_low2 r a s b hr hs = omega (
  arith,
  bit_and_low1 (r % 2) (r / 2 + 2 * a) (s % 2) (s / 2 + 2 * b) (omega arith) (omega arith),
  bit_and_low1 (r / 2) a (s / 2) b (omega arith) (omega arith),
  bit_and_low1 (r % 2) (r / 2) (s % 2) (s / 2) (omega arith) (omega arith),
  and_cong (r + 4 * a) (r % 2 + 2 * (r / 2 + 2 * a)) (s + 4 * b) (s % 2 + 2 * (s / 2 + 2 * b))
      (omega arith) (omega arith),
  and_cong r (r % 2 + 2 * (r / 2)) s (s % 2 + 2 * (s / 2)) (omega arith) (omega arith),
)

bit_and_nibble :
    (r a s b : ℕ)
    → r < 16
    → s < 16
    → bit_and (r + 16 * a) (s + 16 * b) ≡ bit_and r s + 16 * bit_and a b
bit_and_nibble r a s b hr hs = omega (
  arith,
  bit_and_low2 (r % 4) (r / 4 + 4 * a) (s % 4) (s / 4 + 4 * b) (omega arith) (omega arith),
  bit_and_low2 (r / 4) a (s / 4) b (omega arith) (omega arith),
  bit_and_low2 (r % 4) (r / 4) (s % 4) (s / 4) (omega arith) (omega arith),
  and_cong (r + 16 * a) (r % 4 + 4 * (r / 4 + 4 * a)) (s + 16 * b) (s % 4 + 4 * (s / 4 + 4 * b))
      (omega arith) (omega arith),
  and_cong r (r % 4 + 4 * (r / 4)) s (s % 4 + 4 * (s / 4)) (omega arith) (omega arith),
)

pub bit_and_byte :
    (r a s b : ℕ)
    → r < 256
    → s < 256
    → bit_and (r + 256 * a) (s + 256 * b) ≡ bit_and r s + 256 * bit_and a b
bit_and_byte r a s b hr hs = omega (
  arith,
  bit_and_nibble (r % 16) (r / 16 + 16 * a) (s % 16) (s / 16 + 16 * b) (omega arith) (omega arith),
  bit_and_nibble (r / 16) a (s / 16) b (omega arith) (omega arith),
  bit_and_nibble (r % 16) (r / 16) (s % 16) (s / 16) (omega arith) (omega arith),
  and_cong (r + 256 * a) (r % 16 + 16 * (r / 16 + 16 * a)) (s + 256 * b)
      (s % 16 + 16 * (s / 16 + 16 * b)) (omega arith) (omega arith),
  and_cong r (r % 16 + 16 * (r / 16)) s (s % 16 + 16 * (s / 16)) (omega arith) (omega arith),
)

-- The result is below the first number, by its digits.
bit_and_bound : (k a b : ℕ) → a ≤ k → bit_and a b ≤ a
bit_and_bound k zero b h = omega (arith, zero-bit_and b)
bit_and_bound zero (suc a) b h = elim h [ ]
bit_and_bound (suc k) (suc a) b h =
    let below = bit_and_bound k (suc a / 2) (b / 2) (omega arith) in
    omega (arith, below, bit_and_step (suc a) b)

pub bit_and-le : (a b : ℕ) → bit_and a b ≤ a
bit_and-le a b = bit_and_bound a a b (omega arith)

bit_and_none : (k a : ℕ) → a ≤ k → bit_and a 0 ≡ 0
bit_and_none k zero h = refl
bit_and_none zero (suc a) h = elim h [ ]
bit_and_none (suc k) (suc a) h =
    let upper = bit_and_none k (suc a / 2) (omega arith) in
    omega (arith, upper, bit_and_step (suc a) 0)

pub bit_and-zero : (a : ℕ) → bit_and a 0 ≡ 0
bit_and-zero a = bit_and_none a a (omega arith)

-- Over a small range a law is checked at every value.
unfoldable pub all_below : ℕ → (ℕ → Bool) → Bool
all_below zero p = true
all_below (suc n) p = if p n then all_below n p else false

pub all_below_sound :
    (bound : ℕ) (law : ℕ → Bool) (v : ℕ) → all_below bound law ≡ true → v < bound → law v ≡ true
unfolding all_below
all_below_sound zero law v checked within = elim within [ ]
all_below_sound (suc top) law v checked within = elim (ℕ_discrete v top) [
  | yes same ↦ ground (arith, ap law same)
  | no other ↦ all_below_sound top law v (ground arith) (omega (arith, other))
]
