-- ===== src/Prelude/Int.antt =====
-- Signed integers over the native numbers.
use Prim.Native.Nat.{ℕ, zero, suc, ◌+◌, ◌-◌, ◌^◌}
use mathlib.Core.Path.{◌≡◌}
use mathlib.Core.Logic.{◌↔◌}
use mathlib.Core.Bool.{Bool, true, false}
use native.Mathlib.Omega.{arith}
use ruststack.Prelude.Tests.{eqb, ltb, if◌then◌else◌, HasEq}

-- `negsuc n` is -(n + 1).
pub data ℤ : Type 0 where
  pos : ℕ → ℤ
  negsuc : ℕ → ℤ

-- `x += 1` on an `i32`, with the wrap-around of a release build.
unfoldable pub i32_increment : ℤ → ℤ
i32_increment (pos n) = if eqb n 2147483647 then negsuc 2147483647 else pos (n + 1)
i32_increment (negsuc zero) = pos 0
i32_increment (negsuc (suc n)) = negsuc n

-- `(x - 1).max(0)` on an `i32`, with the same wrap-around.
unfoldable pub i32_decrement_to_zero : ℤ → ℤ
i32_decrement_to_zero (pos n) = pos (n - 1)
i32_decrement_to_zero (negsuc n) = if eqb n 2147483647 then pos 2147483647 else pos 0

-- `x.clamp(low, high) as usize` between two numbers that are not negative.
unfoldable pub clamp_index : ℕ → ℕ → ℤ → ℕ
clamp_index low high (pos n) = if ltb n low then low else if ltb high n then high else n
clamp_index low high (negsuc n) = low

-- the test of `i32` keys
abbrev pub int_test : ℤ → ℤ → Bool
int_test (pos a) (pos b) = eqb a b
int_test (pos a) (negsuc b) = false
int_test (negsuc a) (pos b) = false
int_test (negsuc a) (negsuc b) = eqb a b

pub int_test_iff : (a b : ℤ) → (int_test a b ≡ true) ↔ (a ≡ b)
int_test_iff (pos a) (pos b) = ground arith
int_test_iff (pos a) (negsuc b) = ground arith
int_test_iff (negsuc a) (pos b) = ground arith
int_test_iff (negsuc a) (negsuc b) = ground arith

instance abbrev pub int_eq : HasEq ℤ
int_eq = record { decides = int_test_iff; test = int_test }

-- `x as usize` of an `i32`
abbrev pub as_usize : ℤ → ℕ
as_usize (pos n) = n
as_usize (negsuc n) = 2 ^ 64 - suc n
