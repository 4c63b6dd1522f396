-- ===== src/Base/Word.antt =====
-- Unsigned machine words as natural numbers, with their wrap-around written out.
use Prim.Native.Nat.{ℕ, ◌+◌, ◌-◌, ◌%◌, ◌^◌}
use mathlib.Core.Path.{◌≡◌}
use native.Mathlib.Omega.{arith}

abbrev pub u64_mod : ℕ
u64_mod = 2 ^ 64

abbrev pub u32_mod : ℕ
u32_mod = 2 ^ 32

-- `a + b` on uint64
abbrev pub add_u64 : ℕ → ℕ → ℕ
add_u64 a b = (a + b) % u64_mod

-- `a - b` on uint64
abbrev pub sub_u64 : ℕ → ℕ → ℕ
sub_u64 a b = (a + u64_mod - b) % u64_mod

pub add_u64_regroup : (a b c : ℕ) → (a + add_u64 b c) % u64_mod ≡ (a + b + c) % u64_mod
add_u64_regroup a b c = omega arith
