-- ===== src/Base/BitOr.antt =====
-- Binary digits of `x | y` and of a shift, for every digit.
use Prim.Native.Nat.{
  ℕ, zero, suc, ◌+◌, ◌-◌, ◌*◌, ◌/◌, ◌%◌, ◌^◌, ◌≤◌, ◌<◌, max, bit_or, digits, bit_or-bitwise,
}
use mathlib.Core.Path.{◌≡◌, refl, sym, ap, ap₂, ◌∙◌}
use native.Mathlib.Nat.{
  div-div-eq-div-mul, div-lt_iff_lt-mul, div-eq_of_lt-le, div-one, one-le-pow, div-eq_of_lt,
  two-pow-succ, add-zero,
}
use native.Mathlib.Decide.{dec_lt}
use native.Mathlib.Omega.{arith}

abbrev or_digits : ℕ → ℕ → ℕ → ℕ
or_digits n a b = digits (λ b. b) max n a b

or_digits-fuel : (n m a b : ℕ) → a ≤ n → a ≤ m → or_digits n a b ≡ or_digits m a b
or_digits-fuel zero zero a b p q = refl
or_digits-fuel zero (suc m) zero b p q = refl
or_digits-fuel zero (suc m) (suc a) b p q = absurd (omega arith)
or_digits-fuel (suc n) zero zero b p q = refl
or_digits-fuel (suc n) zero (suc a) b p q = absurd (omega arith)
or_digits-fuel (suc n) (suc m) zero b p q = refl
or_digits-fuel (suc n) (suc m) (suc a) b p q =
    omega (arith, or_digits-fuel n m (suc a / 2) (b / 2) (omega arith) (omega arith))

zero-bit_or : (b : ℕ) → bit_or 0 b ≡ b
zero-bit_or b = bit_or-bitwise 0 b

bit_or-digit : (a b : ℕ) → bit_or a b ≡ bit_or (a / 2) (b / 2) * 2 + max (a % 2) (b % 2)
bit_or-digit zero b = omega (arith, zero-bit_or b, zero-bit_or (b / 2))
bit_or-digit (suc a) b = omega (
  arith,
  bit_or-bitwise (suc a) b,
  bit_or-bitwise (suc a / 2) (b / 2),
  or_digits-fuel a (suc a / 2) (suc a / 2) (b / 2) (omega arith) (omega arith),
)

-- Digit `i` of `x`.
abbrev pub bit : ℕ → ℕ → ℕ
bit i x = x / 2 ^ i % 2

pub div-pow-suc : (x i : ℕ) → x / 2 / 2 ^ i ≡ x / 2 ^ suc i
div-pow-suc x i =
    div-div-eq-div-mul x 2 (2 ^ i) ∙ ap (λ (t : ℕ). x / t) (omega (arith, two-pow-succ i))

bit_or-div : (i a b : ℕ) → bit_or a b / 2 ^ i ≡ bit_or (a / 2 ^ i) (b / 2 ^ i)
bit_or-div zero a b = div-one _ ∙ ap₂ bit_or (sym (div-one a)) (sym (div-one b))
bit_or-div (suc i) a b =
    sym (div-pow-suc (bit_or a b) i)
    ∙ ap (λ (t : ℕ). t / 2 ^ i) (omega (arith, bit_or-digit a b))
    ∙ bit_or-div i (a / 2) (b / 2)
    ∙ ap₂ bit_or (div-pow-suc a i) (div-pow-suc b i)

pub bit-bit_or : (i a b : ℕ) → bit i (bit_or a b) ≡ max (bit i a) (bit i b)
bit-bit_or i a b =
    ap (λ (t : ℕ). t % 2) (bit_or-div i a b) ∙ omega (arith, bit_or-digit (a / 2 ^ i) (b / 2 ^ i))

-- `|` of two numbers of `n` digits has `n` digits.
pub bit_or-lt : (n a b : ℕ) → a < 2 ^ n → b < 2 ^ n → bit_or a b < 2 ^ n
bit_or-lt n a b ha hb = omega (
  arith,
  (div-lt_iff_lt-mul {k = 2 ^ n} {x = bit_or a b} {y = 1} (one-le-pow n 2 (omega arith))).0
      (omega (arith, none_above)),
)
  where
    none_above : bit_or a b / 2 ^ n ≡ 0
    none_above = bit_or-div n a b ∙ ap₂ bit_or (div-eq_of_lt ha) (div-eq_of_lt hb) ∙ zero-bit_or 0

-- A number of `n` digits that are all ones.
pub ones-eq : (n x : ℕ) → x < 2 ^ n → ((i : ℕ) → i < n → bit i x ≡ 1) → x ≡ 2 ^ n - 1
ones-eq zero x h ones = omega arith
ones-eq (suc n) x h ones = omega (
  arith,
  two-pow-succ n,
  ones-eq n (x / 2) (omega (arith, two-pow-succ n))
      (λ i lt. ap (λ (t : ℕ). t % 2) (div-pow-suc x i) ∙ ones (suc i) (omega arith)),
  ones 0 (omega arith),
  div-one x,
  one-le-pow n 2 (omega arith),
)

-- The highest digit of a positive number.
pub top_bit : (w x : ℕ) → 0 < x → x < 2 ^ w → (b : ℕ) × (b < w) × (2 ^ b ≤ x) × (x < 2 ^ suc b)
top_bit zero x pos h = absurd (omega arith)
top_bit (suc w) x pos h = elim (dec_lt x (2 ^ w)) [
  | yes p ↦ let (b, lt, lo, hi) = top_bit w x pos p in (b, omega arith, lo, hi)
  | no p ↦ (w, omega arith, omega arith, h)
]

pub bit-top : (b x : ℕ) → 2 ^ b ≤ x → x < 2 ^ suc b → bit b x ≡ 1
bit-top b x lo hi =
    ap (λ (t : ℕ). t % 2)
      (div-eq_of_lt-le {k = 1} (2 ^ b) (omega arith) (omega (arith, two-pow-succ b)))

-- A right shift by `s` moves digit `i + s` to place `i`.
pub bit-shift : (i s x : ℕ) → bit i (x / 2 ^ s) ≡ bit (i + s) x
bit-shift i s x = ap (λ (t : ℕ). t % 2) (shift_div s x)
  where
    shift_div : (s x : ℕ) → x / 2 ^ s / 2 ^ i ≡ x / 2 ^ (i + s)
    shift_div zero x = rw (div-one, add-zero)
    shift_div (suc s) x =
        ap (λ (t : ℕ). t / 2 ^ i) (sym (div-pow-suc x s))
        ∙ shift_div s (x / 2)
        ∙ div-pow-suc x (i + s)
        ∙ ap (λ (t : ℕ). x / 2 ^ t) (omega arith)
