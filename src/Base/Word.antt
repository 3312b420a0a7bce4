-- ===== src/Base/Word.antt =====
-- `uint32_t` arithmetic: numbers below 2 ^ 32, with the wrap-around written out.
use Prim.Native.Nat.{ℕ, ◌+◌, ◌-◌, ◌%◌, ◌^◌, ◌<◌}
use mathlib.Core.Path.{◌≡◌}
use native.Mathlib.Omega.{arith}

-- `a + b`
abbrev pub add32 : ℕ → ℕ → ℕ
add32 a b = (a + b) % 2 ^ 32

-- `a - b`
abbrev pub sub32 : ℕ → ℕ → ℕ
sub32 a b = (a + 2 ^ 32 - b) % 2 ^ 32

-- The cast `(uint32_t)a`.
abbrev pub u32 : ℕ → ℕ
u32 a = a % 2 ^ 32

-- A cursor moved on by `n` is `n` ahead, also across the wrap at 2 ^ 32.
pub sub32-add32 : (a n : ℕ) → a < 2 ^ 32 → n < 2 ^ 32 → sub32 (add32 a n) a ≡ n
sub32-add32 a n ha hn = omega arith
