-- ===== src/Base/Mask.antt =====
-- `x & (2 ^ k - 1)` is `x % 2 ^ k`, for every `k`.
use Prim.Native.Nat.{
  ℕ, zero, suc, ◌+◌, ◌-◌, ◌*◌, ◌/◌, ◌%◌, ◌^◌, ◌≤◌, ◌<◌, min, bit_and, digits, bit_and-bitwise,
}
use mathlib.Core.Path.{◌≡◌, refl, ap, ◌∙◌}
use native.Mathlib.Nat.{
  two-pow-succ, one-le-pow, div-add-mod, mod-lt, mod-eq_of_lt, add-mul-mod_self_right,
}
use native.Mathlib.Omega.{arith}

abbrev low_digits : ℕ → ℕ → ℕ → ℕ
low_digits n a b = digits (λ b. zero) min n a b

low_digits-fuel : (n m a b : ℕ) → a ≤ n → a ≤ m → low_digits n a b ≡ low_digits m a b
low_digits-fuel zero zero a b p q = refl
low_digits-fuel zero (suc m) zero b p q = refl
low_digits-fuel zero (suc m) (suc a) b p q = absurd (omega arith)
low_digits-fuel (suc n) zero zero b p q = refl
low_digits-fuel (suc n) zero (suc a) b p q = absurd (omega arith)
low_digits-fuel (suc n) (suc m) zero b p q = refl
low_digits-fuel (suc n) (suc m) (suc a) b p q =
    omega (arith, low_digits-fuel n m (suc a / 2) (b / 2) (omega arith) (omega arith))

zero-bit_and : (b : ℕ) → bit_and 0 b ≡ 0
zero-bit_and b = bit_and-bitwise 0 b

-- One binary digit of `&`.
bit_and-digit : (a b : ℕ) → bit_and a b ≡ bit_and (a / 2) (b / 2) * 2 + min (a % 2) (b % 2)
bit_and-digit zero b = omega (arith, zero-bit_and b, zero-bit_and (b / 2))
bit_and-digit (suc a) b = omega (
  arith,
  bit_and-bitwise (suc a) b,
  bit_and-bitwise (suc a / 2) (b / 2),
  low_digits-fuel a (suc a / 2) (suc a / 2) (b / 2) (omega arith) (omega arith),
)

bit_and-zero_below : (n a : ℕ) → a ≤ n → bit_and a 0 ≡ 0
bit_and-zero_below n zero h = zero-bit_and 0
bit_and-zero_below zero (suc a) h = absurd (omega arith)
bit_and-zero_below (suc n) (suc a) h =
    omega (arith, bit_and-digit (suc a) 0, bit_and-zero_below n (suc a / 2) (omega arith))

mod_unique : (c m r : ℕ) → r < m → (r + c * m) % m ≡ r
mod_unique c m r h = add-mul-mod_self_right r c m ∙ mod-eq_of_lt h

-- One binary digit of a remainder by an even number.
mod-digit : (a p : ℕ) → 0 < p → a % (p + p) ≡ (a / 2 % p) * 2 + a % 2
mod-digit a p h =
    ap (λ (t : ℕ). t % (p + p)) split
    ∙ mod_unique (a / 2 / p) (p + p) (a / 2 % p * 2 + a % 2)
        (omega (arith, mod-lt (a / 2) {m = p} h))
  where
    split : a ≡ (a / 2 % p * 2 + a % 2) + (a / 2 / p) * (p + p)
    split = omega (arith, div-add-mod (a / 2) p)

-- Masking with `k` ones is the remainder by `2 ^ k`.
pub bit_and-mask : (k a : ℕ) → bit_and a (2 ^ k - 1) ≡ a % 2 ^ k
bit_and-mask zero a = bit_and-zero_below a a (omega arith) ∙ omega arith
bit_and-mask (suc k) a = omega (
  arith,
  bit_and-digit a (2 ^ suc k - 1),
  ap (bit_and (a / 2)) half,
  bit_and-mask k (a / 2),
  ap (λ (t : ℕ). a % t) (two-pow-succ k),
  mod-digit a (2 ^ k) (one-le-pow k 2 (omega arith)),
  two-pow-succ k,
  one-le-pow k 2 (omega arith),
)
  where
    half : (2 ^ suc k - 1) / 2 ≡ 2 ^ k - 1
    half = omega (arith, two-pow-succ k, one-le-pow k 2 (omega arith))
