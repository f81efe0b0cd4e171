-- ===== src/Prelude/Float.antt =====
-- Double-precision numbers, which are not computed here: their type and operations are a parameter. The
-- laws are IEEE 754's for numbers that are not NaN, and the program forms no NaN.
use mathlib.Core.Path.{◌≡◌}
use mathlib.Core.Bool.{Bool, not, ◌&&◌}
use orchestration.Prelude.Int.{ℤ}
use orchestration.Prelude.Sort.{IsStrictWeak}

pub record Float : Type 1 where
  pub F : Type 0
  pub of_int : ℤ → F
  pub add : F → F → F
  pub div : F → F → F
  pub lt : F → F → Bool
  pub eq : F → F → Bool
  pub floor : F → ℤ

pub record FloatLaws (fl : Float) : Type 0 where
  pub order : IsStrictWeak fl.lt
  pub eq_lem : (x y : fl.F) → fl.eq x y ≡ (not (fl.lt x y) && not (fl.lt y x))
