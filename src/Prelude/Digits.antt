-- ===== src/Prelude/Digits.antt =====
-- The recursion on binary digits that the native `&` and `^` stand for, without its fuel.
use Prim.Native.Nat.{ℕ, zero, suc, ◌+◌, ◌*◌, ◌/◌, ◌%◌, ◌≤◌, digits}
use mathlib.Core.Path.{◌≡◌, refl}
use native.Mathlib.Omega.{arith}

module _ (rest : ℕ → ℕ) (op : ℕ → ℕ → ℕ) where
  -- More fuel than the first number changes nothing; `k` bounds the recursion.
  spare_fuel :
      (k fuel x y : ℕ) → fuel ≤ k → x ≤ fuel → digits rest op fuel x y ≡ digits rest op x x y
  spare_fuel k zero zero y lk lx = refl
  spare_fuel k (suc fuel) zero y lk lx = refl
  spare_fuel k zero (suc x) y lk lx = elim lx [ ]
  spare_fuel zero (suc fuel) (suc x) y lk lx = elim lk [ ]
  spare_fuel (suc k) (suc fuel) (suc x) y lk lx =
      let long = spare_fuel k fuel (suc x / 2) (y / 2) (omega arith) (omega arith) in
      let short = spare_fuel k x (suc x / 2) (y / 2) (omega arith) (omega arith) in
      omega (arith, long, short)

  pub lowest_digit :
      (x y : ℕ)
      → digits rest op (suc x) (suc x) y
        ≡ digits rest op (suc x / 2) (suc x / 2) (y / 2) * 2 + op (suc x % 2) (y % 2)
  lowest_digit x y = omega (arith, spare_fuel x x (suc x / 2) (y / 2) (omega arith) (omega arith))
