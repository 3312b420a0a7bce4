-- ===== src/Ring/Pow2.antt =====
-- `next_pow2` of src/ring_lf.c: the capacity that `ring_lf_init` allocates.
use libchan.Base.{
  ℕ, zero, suc, ◌+◌, ◌-◌, ◌*◌, ◌/◌, ◌^◌, ◌≤◌, ◌<◌, ◌≡◌, ◌⊎◌, refl, ap, ◌∙◌, add32, bit, bit-bit_or,
  bit_or-lt, ones-eq, top_bit, bit-top, bit-shift, arith,
}
use native.Mathlib.Nat.{div-le_self, two-pow-succ, pow-le-pow_right}
use native.Mathlib.Decide.{dec_lt}
use libchan.Ring.{or_shift, smear, next_pow2}

-- Digits `lo` to `b` of `x` are ones, and it has none above.
record Ones (b lo x : ℕ) : Type 0 where
  below : x < 2 ^ suc b
  ones : (i : ℕ) → lo ≤ i → i ≤ b → bit i x ≡ 1

-- A shift by at most the length of the run of ones doubles the run.
or_shift-Ones :
    (s b lo x : ℕ) → (lo ≡ 0) ⊎ (s + lo ≤ suc b) → Ones b lo x → Ones b (lo - s) (or_shift s x)
unfolding or_shift
or_shift-Ones s b lo x h o = record {
  below = bit_or-lt (suc b) x (x / 2 ^ s) o.below (omega (arith, o.below, div-le_self x (2 ^ s)));
  ones = λ i above below. elim (dec_lt i lo) [
    | yes p ↦ omega (
      arith,
      bit-bit_or i x (x / 2 ^ s),
      bit-shift i s x,
      o.ones (i + s) (omega arith) (omega arith),
    )
    | no p ↦ omega (arith, bit-bit_or i x (x / 2 ^ s), o.ones i (omega arith) below)
  ];
}

-- Five shifts fill every digit below the highest of a number of at most 32 digits.
smear-eq : (b x : ℕ) → b ≤ 31 → 2 ^ b ≤ x → x < 2 ^ suc b → smear x ≡ 2 ^ suc b - 1
unfolding smear
smear-eq b x hb lo hi =
    ones-eq (suc b) _ filled.below (λ i lt. filled.ones i (omega arith) (omega arith))
  where
    start : Ones b b x
    start = record {
      below = hi;
      ones = λ i p q. ap (λ (t : ℕ). bit t x) (omega arith) ∙ bit-top b x lo hi;
    }

    filled : Ones b (b - 1 - 2 - 4 - 8 - 16) (smear x)
    filled = or_shift-Ones 16 b _ _ (omega arith) (
        or_shift-Ones 8 b _ _ (omega arith) (
          or_shift-Ones 4 b _ _ (omega arith)
            (or_shift-Ones 2 b _ _ (omega arith) (or_shift-Ones 1 b _ _ (omega arith) start))))

next_pow2-one : next_pow2 1 ≡ 1
unfolding next_pow2 smear or_shift
next_pow2-one = refl

next_pow2-smeared : (m : ℕ) → next_pow2 (suc m) ≡ add32 (smear m) 1
unfolding next_pow2
next_pow2-smeared m = ground (arith, ap smear {x = suc m - 1} {y = m} (omega arith))

-- From 1 to 2 ^ 31, `next_pow2` gives the least power of two that is not below its argument.
pub next_pow2-least :
    (n : ℕ)
    → 0 < n
    → n ≤ 2 ^ 31
    → (k : ℕ) × (k ≤ 31) × (next_pow2 n ≡ 2 ^ k) × (n ≤ 2 ^ k) × (2 ^ k < 2 * n)
next_pow2-least zero pos h = absurd (omega arith)
next_pow2-least (suc zero) pos h = (0, omega arith, next_pow2-one, omega arith, omega arith)
next_pow2-least (suc (suc m)) pos h =
    let (b, lt, lo, hi) = top_bit 31 (suc m) (omega arith) (omega arith) in
    let le : 2 ^ suc b ≤ 2 ^ 31 = pow-le-pow_right {n = 2} (omega arith) {i = suc b} {j = 31} lt in
    (
      suc b,
      lt,
      next_pow2-smeared (suc m)
          ∙ ap (λ (t : ℕ). add32 t 1) (smear-eq b (suc m) (omega arith) lo hi)
          ∙ omega arith,
      omega arith,
      omega (arith, two-pow-succ b),
    )

-- Above 2 ^ 31 and below 2 ^ 32, `next_pow2` gives zero.
pub next_pow2-wraps : (n : ℕ) → 2 ^ 31 < n → n < 2 ^ 32 → next_pow2 n ≡ 0
next_pow2-wraps zero lo hi = absurd (omega arith)
next_pow2-wraps (suc m) lo hi =
    next_pow2-smeared m
    ∙ ap (λ (t : ℕ). add32 t 1) (smear-eq 31 m (omega arith) (omega arith) (omega arith))
    ∙ refl
