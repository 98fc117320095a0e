-- ===== src/Decimal.antt =====
-- `LegacyDec` of cosmossdk.io/math, a package that the repository only calls. A decimal is carried
-- by the integer that is 10^18 times its value: addition,
-- subtraction, comparison and the product with an integer are exact on that integer. `Quo` and `Mul`
-- round, and are parameters, on sizes. The decimals that the modelled code meets are not negative,
-- but for those that are made of an int64 conversion: these are `Signed`.
use steem_virtual_machine_ev.Prelude.{
  ℕ, ◌+◌, ◌-◌, ◌*◌, ◌/◌, ◌≤◌, ◌<◌, ◌≡◌, arith, leb, ltb, if◌then◌else◌, Bool, true,
}
use native.Mathlib.Nat.{div-add-mod, mod-lt}

-- 1.0
abbrev pub one : ℕ
one = 1000000000000000000

-- `LegacyNewDecFromInt`
abbrev pub of_int : ℕ → ℕ
of_int n = n * one

pub record Decimal : Type 0 where
  pub quo : ℕ → ℕ → ℕ
  pub mul : ℕ → ℕ → ℕ

-- The documented rounding: a quotient and a product are off by half a unit of the last place at
-- most.
pub record Rounds (d : Decimal) : Type 0 where
  pub quo_upper : (a b : ℕ) → 0 < b → 2 * (d.quo a b * b) ≤ 2 * (a * one) + b
  pub quo_lower : (a b : ℕ) → 0 < b → 2 * (a * one) ≤ 2 * (d.quo a b * b) + b
  pub mul_upper : (a b : ℕ) → 2 * (d.mul a b * one) ≤ 2 * (a * b) + one
  pub mul_lower : (a b : ℕ) → 2 * (a * b) ≤ 2 * (d.mul a b * one) + one

-- A number by its sign and its size, where a conversion may have made it negative: an int64, or a
-- decimal by the integer that is 10^18 times it.
pub data Signed : Type 0 where
  plus minus : ℕ → Signed

-- `LegacyNewDec`
unfoldable pub new_dec : Signed → Signed
new_dec (plus n) = plus (of_int n)
new_dec (minus n) = minus (of_int n)

-- `Quo` and `Mul` round the size, and the sign is that of the exact result.
unfoldable pub signed_quo : Decimal → Signed → Signed → Signed
signed_quo dec (plus a) (plus b) = plus (dec.quo a b)
signed_quo dec (plus a) (minus b) = minus (dec.quo a b)
signed_quo dec (minus a) (plus b) = minus (dec.quo a b)
signed_quo dec (minus a) (minus b) = plus (dec.quo a b)

unfoldable pub signed_mul : Decimal → ℕ → Signed → Signed
signed_mul dec w (plus a) = plus (dec.mul w a)
signed_mul dec w (minus a) = minus (dec.mul w a)

unfoldable pub signed_add : Signed → Signed → Signed
signed_add (plus a) (plus b) = plus (a + b)
signed_add (plus a) (minus b) = if leb b a then plus (a - b) else minus (b - a)
signed_add (minus a) (plus b) = if leb a b then plus (b - a) else minus (a - b)
signed_add (minus a) (minus b) = minus (a + b)

-- `LTE` and `LT` against a decimal that is not negative.
unfoldable pub at_most : Signed → ℕ → Bool
at_most (plus a) n = leb a n
at_most (minus a) n = true

unfoldable pub less_than : Signed → ℕ → Bool
less_than (plus a) n = ltb a n
less_than (minus a) n = ltb 0 (a + n)

module _ (d : Decimal) (r : Rounds d) where
  -- A quotient that is exact is not rounded.
  pub quo_exact : (a b k : ℕ) → 0 < b → a * one ≡ k * b → d.quo a b ≡ k
  quo_exact a b k pos e = grind (arith, r.quo_upper a b pos, r.quo_lower a b pos)

  pub mul_exact : (a b k : ℕ) → a * b ≡ k * one → d.mul a b ≡ k
  mul_exact a b k e = omega (arith, r.mul_upper a b, r.mul_lower a b)

-- Rounding half up, which shows that the laws can be met.
abbrev pub half_up : Decimal
half_up = record {
  quo = λ a b. (2 * (a * one) + b) / (2 * b);
  mul = λ a b. (2 * (a * b) + one) / (2 * one);
}

half_up_quo_upper : (a b : ℕ) → 0 < b → 2 * (half_up.quo a b * b) ≤ 2 * (a * one) + b
half_up_quo_upper a b h = grind (arith, div-add-mod (2 * (a * one) + b) (2 * b))

half_up_quo_lower : (a b : ℕ) → 0 < b → 2 * (a * one) ≤ 2 * (half_up.quo a b * b) + b
half_up_quo_lower a b h =
    grind (arith, div-add-mod (2 * (a * one) + b) (2 * b), mod-lt (2 * (a * one) + b) {m = 2 * b})

pub half_up-Rounds : Rounds half_up
half_up-Rounds = record {
  quo_upper = half_up_quo_upper;
  quo_lower = half_up_quo_lower;
  mul_upper = λ a b. omega arith;
  mul_lower = λ a b. omega arith;
}
