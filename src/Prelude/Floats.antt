-- ===== src/Prelude/Floats.antt =====
-- Python floats, as a type with operations: the program's definitions take it as a parameter, so
-- nothing about rounding is assumed. `fixed` is a concrete instance for tests.
use Prim.Native.Nat.{ℕ, ◌+◌, ◌-◌, ◌*◌, ◌/◌, ◌^◌}
use mathlib.Core.Bool.{Bool}
use Prim.Native.String.{String}
use mathlib.Core.Option.{Option, none, some}
use text.Mathlib.Text.{◌==◌ as str_eq}
use deep_cab.Prelude.Tests.{ltb, leb, ◌==◌, if◌then◌else◌}

pub record FloatOps (F : Type 0) : Type 0 where
  pub add : F → F → F
  pub sub : F → F → F
  pub mul : F → F → F
  pub div : F → F → F
  pub sqrt : F → F
  pub abs : F → F
  pub lt : F → F → Bool
  pub le : F → F → Bool
  pub eq : F → F → Bool
  pub of_ℕ : ℕ → F
  -- `decimal n k` is the literal n / 10^k
  pub decimal : ℕ → ℕ → F
  pub nan : F
  -- `float(text)`; none is the ValueError
  pub parse : String → Option F

-- Non-negative fixed point numbers with eight decimals.
abbrev pub fixed : FloatOps ℕ
fixed = record {
  add = λ x y. x + y;
  sub = λ x y. x - y;
  mul = λ x y. x * y / 10 ^ 8;
  div = λ x y. x * 10 ^ 8 / y;
  sqrt = λ x. x;
  abs = λ x. x;
  lt = ltb;
  le = leb;
  eq = λ x y. x == y;
  of_ℕ = λ n. n * 10 ^ 8;
  decimal = λ n k. n * 10 ^ (8 - k);
  nan = 10 ^ 30;
  parse = λ text. if str_eq text "nan" then some (10 ^ 30) else none;
}
