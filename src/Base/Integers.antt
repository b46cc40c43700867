-- ===== src/Base/Integers.antt =====
-- The signed integers, and the conversion of a 32-bit number to an `int`.
use Prim.Native.Nat.{ℕ, ◌-◌, ◌^◌}
use opensrthub.Base.Tests.{ltb, if◌then◌else◌}

pub data ℤ : Type 0 where
  pos negsuc : ℕ → ℤ

-- From 2 ^ 31 on the number stands for itself less 2 ^ 32.
unfoldable pub as_int : ℕ → ℤ
as_int v = if ltb v (2 ^ 31) then pos v else negsuc (2 ^ 32 - 1 - v)
