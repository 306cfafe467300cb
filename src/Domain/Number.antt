-- ===== src/Domain/Number.antt =====
-- The JavaScript numbers that reach the retry policy from a provider or a random source. A finite
-- number is an exact fraction: products are exact and not rounded to a double.
pub mod Arithmetic
use content_automation.Base.{ℕ, zero, suc, ◌*◌, ◌/◌, Bool, true, false}
use content_automation.Base.Tests.{leb, if◌then◌else◌}

pub data Number : Type 0 where
  nan : Number
  infinite : Bool → Number  -- true: positive
  fraction : ℕ → ℕ → Number  -- n / (d + 1)
  negative : ℕ → ℕ → Number  -- - (n + 1) / (d + 1)

-- A fraction n / (d + 1) that a function has brought into [0, 1].
pub record Ratio : Type 0 where
  pub num : ℕ
  pub den_pred : ℕ

-- Number.isFinite
abbrev pub is_finite : Number → Bool
is_finite nan = false
is_finite (infinite _) = false
is_finite _ = true

-- Number.isFinite(value) && value > 0
unfoldable pub is_positive_finite : Number → Bool
is_positive_finite nan = false
is_positive_finite (infinite _) = false
is_positive_finite (negative _ _) = false
is_positive_finite (fraction zero _) = false
is_positive_finite (fraction (suc _) _) = true

-- Math.floor of a number that is not negative; the callers test that first.
unfoldable pub floor : Number → ℕ
floor (fraction n d) = n / suc d
floor _ = 0

-- Math.min(Math.max(value, 0), 1), and 0.5 for what is not finite
unfoldable pub clamp_random : Number → Ratio
clamp_random nan = record { num = 1; den_pred = 1 }
clamp_random (infinite _) = record { num = 1; den_pred = 1 }
clamp_random (negative _ _) = record { num = 0; den_pred = 0 }
clamp_random (fraction n d) =
    if leb n (suc d) then record { num = n; den_pred = d } else record { num = 1; den_pred = 0 }

-- Math.floor(cap * ratio)
abbrev pub floor_product : ℕ → Ratio → ℕ
floor_product cap r = cap * r.num / suc r.den_pred
