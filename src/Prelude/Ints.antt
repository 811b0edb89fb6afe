-- ===== src/Prelude/Ints.antt =====
-- Integers over the native numbers, and what the pattern of an `int64` stands for.
use Prim.Native.Nat.{ℕ, ◌-◌, ◌^◌}
use stora_ecommerce.Prelude.Tests.{ltb, if◌then◌else◌}

pub data ℤ : Type 0 where
  pos negsuc : ℕ → ℤ

-- Two's complement: the patterns from 2 ^ 63 on are negative.
abbrev pub signed : ℕ → ℤ
signed n = if ltb n (2 ^ 63) then pos n else negsuc (2 ^ 64 - 1 - n)
