-- ===== src/Domain/Number/Arithmetic.antt =====
-- Sums, differences, products and quotients of JavaScript numbers, exact where both are finite.
pub mod Order
use Prim.Native.Nat.{compare, Ordering, lt, eq, gt}
use content_automation.Base.{
  ℕ, zero, suc, ◌+◌, ◌-◌, ◌*◌, ◌/◌, Bool, true, false, not, ◌&&◌, List, [], ◌∷◌,
}
use content_automation.Base.Tests.{leb, ltb, ◌==◌, if◌then◌else◌, max_safe_integer}
use content_automation.Domain.Number.{Number, nan, infinite, fraction, negative, is_finite}

-- A finite number is (up - down) / den.
abbrev pub up : Number → ℕ
up (fraction n d) = n
up _ = 0

abbrev pub down : Number → ℕ
down (negative n d) = suc n
down _ = 0

abbrev pub den_pred : Number → ℕ
den_pred (fraction n d) = d
den_pred (negative n d) = d
den_pred _ = 0

abbrev pub den : Number → ℕ
den x = suc (den_pred x)

abbrev pub of_parts : ℕ → ℕ → ℕ → Number
of_parts p q d = if leb q p then fraction (p - q) d else negative (q - p - 1) d

abbrev pub of_nat : ℕ → Number
of_nat n = fraction n 0

-- x < 0
abbrev pub is_negative : Number → Bool
is_negative (negative _ _) = true
is_negative (infinite positive) = not positive
is_negative _ = false

-- x > 0
abbrev pub is_positive : Number → Bool
is_positive (fraction zero _) = false
is_positive (fraction (suc _) _) = true
is_positive (infinite positive) = positive
is_positive _ = false

-- Math.floor(Math.abs(x)), for a finite number
abbrev pub whole_part : Number → ℕ
whole_part x = (up x + down x) / den x

-- Number.isInteger(x) and Number.isSafeInteger(x)
abbrev pub is_whole : Number → Bool
is_whole x = is_finite x && whole_part x * den x == up x + down x

abbrev pub is_safe_whole : Number → Bool
is_safe_whole x = is_whole x && leb (whole_part x) max_safe_integer

abbrev pub add_finite : Number → Number → Number
add_finite a b =
    of_parts (up a * den b + up b * den a) (down a * den b + down b * den a) (den a * den b - 1)

-- a + b
unfoldable pub add : Number → Number → Number
add nan b = nan
add (infinite s) nan = nan
add (infinite true) (infinite false) = nan
add (infinite false) (infinite true) = nan
add (infinite s) b = infinite s
add (fraction n d) nan = nan
add (fraction n d) (infinite s) = infinite s
add (fraction n d) b = add_finite (fraction n d) b
add (negative n d) nan = nan
add (negative n d) (infinite s) = infinite s
add (negative n d) b = add_finite (negative n d) b

-- -a
abbrev pub negate : Number → Number
negate nan = nan
negate (infinite s) = infinite (not s)
negate (fraction zero d) = fraction zero d
negate (fraction (suc n) d) = negative n d
negate (negative n d) = fraction (suc n) d

-- a - b
abbrev pub sub : Number → Number → Number
sub a b = add a (negate b)

-- Math.abs(a)
abbrev pub magnitude : Number → Number
magnitude (negative n d) = fraction (suc n) d
magnitude (infinite s) = infinite true
magnitude a = a

-- a * b, for finite numbers
unfoldable pub mul : Number → Number → Number
mul a b =
    of_parts (up a * up b + down a * down b) (up a * down b + down a * up b) (den a * den b - 1)

-- a / b, for a finite a and a finite b other than 0
unfoldable pub div : Number → Number → Number
div a (fraction zero d) = nan
div a (fraction (suc n) d) = mul a (fraction (suc d) n)
div a (negative n d) = mul a (negative d n)
div a b = nan

-- a * b, for a positive finite b
unfoldable pub times : Number → Number → Number
times nan b = nan
times (infinite s) b = infinite s
times a b = mul a b

-- a / b, for a finite a and a b other than 0; there is no negative zero
unfoldable pub quotient : Number → Number → Number
quotient a (infinite s) = of_nat 0
quotient a b = div a b

-- The sign of a - b, for finite numbers
abbrev pub compare_numbers : Number → Number → Ordering
compare_numbers a b = compare (up a * den b + down b * den a) (up b * den a + down a * den b)

-- a < b and a <= b, for finite numbers
abbrev pub lt_number : Number → Number → Bool
lt_number a b = ltb (up a * den b + down b * den a) (up b * den a + down a * den b)

abbrev pub le_number : Number → Number → Bool
le_number a b = leb (up a * den b + down b * den a) (up b * den a + down a * den b)

-- The sign of a - b, where NaN counts as 0
unfoldable pub compare_values : Number → Number → Ordering
compare_values nan b = eq
compare_values a nan = eq
compare_values (infinite true) (infinite true) = eq
compare_values (infinite true) b = gt
compare_values (infinite false) (infinite false) = eq
compare_values (infinite false) b = lt
compare_values a (infinite true) = lt
compare_values a (infinite false) = gt
compare_values a b = compare_numbers a b

-- a <= b
unfoldable pub is_at_most : Number → Number → Bool
is_at_most nan b = false
is_at_most a nan = false
is_at_most (infinite false) b = true
is_at_most (infinite true) (infinite true) = true
is_at_most (infinite true) b = false
is_at_most a (infinite positive) = positive
is_at_most a b = le_number a b

-- values.reduce((total, value) => total + value, start)
unfoldable pub sum_from : Number → List Number → Number
sum_from total [] = total
sum_from total (x ∷ xs) = sum_from (add total x) xs
