-- ===== src/Base/Double.antt =====
-- What the sources do with a `double`: literals, comparisons and arithmetic, on an abstract type.
-- The laws that a proof needs are in `IsDouble`; they hold in IEEE 754 arithmetic, where a comparison
-- with NaN is false. `milli` is a constant in thousandths, so 0.1 is `milli 100`.
use Prim.Native.Nat.{◌+◌, ◌*◌, ◌/◌}
use mathlib.Core.Path.{◌≡◌}
use mathlib.Core.Bool.{Bool, true, false}
use native.Mathlib.Omega.{arith}
use autoware_ai_common.Base.Int.{leb_ℤ, ltb_ℤ, neg_part, pos, pos_part, sub_ℕ, ℤ, ◌-ℤ◌}

pub record Double (W : Type 0) : Type 0 where
  pub milli : ℤ → W
  pub lt : W → W → Bool
  pub le : W → W → Bool
  pub add : W → W → W
  pub sub : W → W → W
  pub mul : W → W → W
  pub div : W → W → W

pub record IsDouble (W : Type 0) ⦃d : Double W⦄ : Type 0 where
  pub lt_irrefl : (x : W) → d.lt x x ≡ false
  pub lt_trans : (x y z : W) → d.lt x y ≡ true → d.lt y z ≡ true → d.lt x z ≡ true
  pub le_of_lt : (x y : W) → d.lt x y ≡ true → d.le x y ≡ true
  pub not_lt_of_le : (x y : W) → d.le x y ≡ true → d.lt y x ≡ false

-- The products and quotients of thousandths, rounded towards zero on each part.
abbrev mul_milli : ℤ → ℤ → ℤ
mul_milli x y =
    sub_ℕ ((pos_part x * pos_part y + neg_part x * neg_part y) / 1000)
      ((pos_part x * neg_part y + neg_part x * pos_part y) / 1000)

abbrev div_milli : ℤ → ℤ → ℤ
div_milli x y =
    sub_ℕ (pos_part x * 1000 / pos_part y + neg_part x * 1000 / neg_part y)
      (pos_part x * 1000 / neg_part y + neg_part x * 1000 / pos_part y)

-- Whole thousandths, which satisfy the laws.
instance abbrev pub int_double : Double ℤ
int_double = record {
  milli = λ x. x;
  lt = ltb_ℤ;
  le = leb_ℤ;
  add = λ x y. x -ℤ (pos 0 -ℤ y);
  sub = ◌-ℤ◌;
  mul = mul_milli;
  div = div_milli;
}

pub int-IsDouble : IsDouble ℤ
int-IsDouble = record {
  lt_irrefl = λ x. ground arith;
  lt_trans = λ x y z p q. ground arith;
  le_of_lt = λ x y p. ground arith;
  not_lt_of_le = λ x y p. ground arith;
}
