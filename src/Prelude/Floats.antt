-- ===== src/Prelude/Floats.antt =====
-- What the program does with a float64. The type and its arithmetic are the language's own, and
-- parameters here.
use mathlib.Core.Bool.{Bool}
use draftea_payment.Prelude.Words.{Int64}

pub record Float (F : Type 0) : Type 0 where
  pub zero_float : F
  pub add : F → F → F
  pub sub : F → F → F
  pub lt : F → F → Bool
  pub le : F → F → Bool
  pub mul : F → F → F
  pub div : F → F → F
  pub power : F → F → F
  pub from_int : Int64 → F
  pub to_int : F → Int64
