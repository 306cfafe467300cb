-- ===== src/Analytics/Statistics/Bootstrap.antt =====
-- The seeded generator and the bootstrap of packages/domain/src/analytics-statistics.ts.
use Prim.Native.Nat.{bit_or, bit_xor, ◌%◌}
use content_automation.Base.{
  ℕ, zero, suc, ◌+◌, ◌-◌, ◌*◌, ◌/◌, Bool, true, false, ◌&&◌, ◌||◌, Option, none, some, List, [],
  ◌∷◌,
}
use content_automation.Base.Tests.{if◌then◌else◌, get_or}
use content_automation.Base.Lists.{length}
use content_automation.Base.Order.{sort_by}
use content_automation.Domain.Number.{Number}
use content_automation.Domain.Number.Arithmetic.{
  of_nat, is_negative, is_positive, sub, compare_numbers,
}
use content_automation.Analytics.Spread.{Share, finite_values, value_at, read_position, median}

-- Values of 32 bits, as unsigned numbers: x >>> 0, and Math.imul(x, y).
abbrev pub word : ℕ
word = 4_294_967_296

abbrev pub imul : ℕ → ℕ → ℕ
imul x y = x * y % word

abbrev pub next_state : ℕ → ℕ
next_state state = (state + 1_831_565_813) % word

-- value ^= value + Math.imul(value ^ (value >>> 7), value | 61)
abbrev pub mix : ℕ → ℕ
mix value = bit_xor value ((value + imul (bit_xor value (value / 128)) (bit_or value 61)) % word)

-- The generator's value times 2 ^ 32, from its state
unfoldable pub uniform : ℕ → ℕ
uniform state =
    let value = mix (imul (bit_xor state (state / 32_768)) (bit_or state 1)) in
    bit_xor value (value / 16_384) % word

-- Values drawn, and the state after them.
pub record Drawn : Type 0 where
  pub sample : List Number
  pub state : ℕ

-- Math.floor(next() * values.length)
abbrev pub drawn_index : ℕ → List Number → ℕ
drawn_index state values = uniform state * length values / word

unfoldable pub draw : List Number → ℕ → ℕ → Drawn
draw values zero state = record { sample = []; state = state }
draw values (suc n) state =
    let rest = draw values n (next_state state) in
    record {
      sample = value_at values (drawn_index (next_state state) values) ∷ rest.sample;
      state = rest.state;
    }

abbrev pub median_or_zero : List Number → Number
median_or_zero values = get_or (median values) (of_nat 0)

-- The differences of so many resamples.
unfoldable pub resample : List Number → List Number → ℕ → ℕ → List Number
resample group comparison zero state = []
resample group comparison (suc n) state =
    let g = draw group (length group) state in
    let c = draw comparison (length comparison) g.state in
    let rest = resample group comparison n c.state in
    sub (median_or_zero g.sample) (median_or_zero c.sample) ∷ rest

-- BootstrapInterval
pub record Interval : Type 0 where
  pub excludes_no_difference : Bool
  pub lower : Number
  pub resamples : ℕ
  pub seed : ℕ
  pub upper : Number

-- 1 - tail
abbrev pub upper_share : Share → Share
upper_share tail = record { num = suc tail.den_pred - tail.num; den_pred = tail.den_pred }

abbrev pub interval_of : List Number → Share → ℕ → ℕ → Interval
interval_of sorted tail resamples seed =
    let lower = read_position sorted tail in
    let upper = read_position sorted (upper_share tail) in
    record {
      excludes_no_difference =
          is_positive lower && is_positive upper || is_negative lower && is_negative upper;
      lower = lower;
      resamples = resamples;
      seed = seed;
      upper = upper;
    }

-- Both sides have a value.
abbrev pub have_values : List Number → List Number → Bool
have_values (x ∷ xs) (y ∷ ys) = true
have_values _ _ = false

-- bootstrapMedianDifference, from the number of resamples (bootstrapResamples) and (1 - confidence) / 2
unfoldable pub bootstrap_median_difference :
    ℕ → List Number → Share → List Number → ℕ → Option Interval
bootstrap_median_difference resamples comparison tail group seed =
    let g = finite_values group in
    let c = finite_values comparison in
    if have_values g c
    then some (
        interval_of (sort_by compare_numbers (resample g c resamples (seed % word))) tail resamples
          seed)
    else none
