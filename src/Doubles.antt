-- ===== src/Doubles.antt =====
-- IEEE doubles, which the program uses through the language's operators and <cmath>. They are a
-- parameter: a type with the operations that the code calls. Nothing is assumed of them.
use linuxcnc_ctrl.Prelude.{ℤ, Bool, true, false, pos, ◌==ℤ◌, ltb_ℤ, ℕ, if◌then◌else◌, ◌==◌}

pub record Doubles : Type 1 where
  pub Double : Type 0
  pub is_finite : Double → Bool
  pub is_nan : Double → Bool
  pub equal : Double → Double → Bool
  pub less : Double → Double → Bool
  pub add : Double → Double → Double
  pub sub : Double → Double → Double
  pub mul : Double → Double → Double
  pub div : Double → Double → Double
  pub sqrt : Double → Double
  pub abs : Double → Double
  pub of_int : ℤ → Double
  -- `decimal m e` is the literal m * 10^(-e).
  pub decimal : ℕ → ℕ → Double

-- Small integers stand for doubles in the tests.
abbrev pub sample_doubles : Doubles
sample_doubles = record {
  Double = ℤ;
  is_finite = λ x. true;
  is_nan = λ x. false;
  equal = ◌==ℤ◌;
  less = ltb_ℤ;
  add = λ x y. x;
  sub = λ x y. if x ==ℤ y then pos 0 else pos 1;
  mul = λ x y. x;
  div = λ x y. x;
  sqrt = λ x. x;
  abs = λ x. x;
  of_int = λ x. x;
  decimal = λ m e. if e == 4 then pos 1 else pos 0;
}
