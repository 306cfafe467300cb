-- ===== src/Domain/Number/Arithmetic/Order.antt =====
-- The order of finite numbers.
use native.Mathlib.Nat.{mul-le-mul_right, le_of_mul-le-mul_right}
use content_automation.Base.{ℕ, suc, ◌+◌, ◌*◌, ◌≤◌, true, false, ◌≡◌, arith}
use content_automation.Base.Order.Laws.{Ordered}
use content_automation.Domain.Number.{Number}
use content_automation.Domain.Number.Arithmetic.{
  up, down, den_pred, le_number, lt_number, compare_numbers,
}

parts_trans :
    (p q d r s e u v f : ℕ)
    → p * suc e + s * suc d ≤ r * suc d + q * suc e
    → r * suc f + v * suc e ≤ u * suc e + s * suc f
    → p * suc f + v * suc d ≤ u * suc d + q * suc f
parts_trans p q d r s e u v f h k =
    let scaled : (p * suc f + v * suc d) * suc e ≤ (u * suc d + q * suc f) * suc e =
      omega (arith, mul-le-mul_right (suc f) h, mul-le-mul_right (suc d) k) in
    le_of_mul-le-mul_right scaled (omega arith)

pub le_number_trans :
    (a b c : Number) → le_number a b ≡ true → le_number b c ≡ true → le_number a c ≡ true
le_number_trans a b c h k = ground (
  arith,
  parts_trans (up a) (down a) (den_pred a) (up b) (down b) (den_pred b) (up c) (down c)
      (den_pred c),
)

pub compare_numbers-Ordered : Ordered compare_numbers
compare_numbers-Ordered = record {
  flip = λ a b. ground arith;
  trans = λ a b c h k. ground (
    arith,
    parts_trans (up a) (down a) (den_pred a) (up b) (down b) (den_pred b) (up c) (down c)
        (den_pred c),
  );
}

pub lt_number_le : (a b : Number) → lt_number a b ≡ true → le_number a b ≡ true
lt_number_le a b h = ground arith

pub lt_number-false : (a b : Number) → lt_number a b ≡ false → le_number b a ≡ true
lt_number-false a b h = ground arith
