-- ===== src/Base/Bits/Defs.antt =====
-- A bit of a number, and the 32-bit complement.
use Prim.Native.Nat.{ℕ, zero, suc, ◌-◌, ◌/◌, ◌%◌, ◌^◌}
use Prim.Native.Nat.{bit_and}
use mathlib.Core.Bool.{Bool, not}
use systemc_model.Base.Tests.{◌==◌}

-- Bit `k` of `a`, counted from the lowest.
unfoldable pub testbit : ℕ → ℕ → Bool
testbit a zero = a % 2 == 1
testbit a (suc k) = testbit (a / 2) k

abbrev pub word_size : ℕ
word_size = 2 ^ 32

abbrev pub u32 : ℕ → ℕ
u32 a = a % 2 ^ 32

abbrev pub u8 : ℕ → ℕ
u8 a = a % 2 ^ 8

-- `~a` of a `uint32_t`
abbrev pub not_word : ℕ → ℕ
not_word a = 2 ^ 32 - 1 - a

-- `(a & m) != 0`, the test of a mask.
abbrev pub has_any : ℕ → ℕ → Bool
has_any a m = not (bit_and a m == 0)
