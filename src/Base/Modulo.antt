-- ===== src/Base/Modulo.antt =====
-- Slot numbers: remainders by a capacity that divides 2 ^ 32.
use Prim.Native.Nat.{ℕ, zero, suc, ◌+◌, ◌-◌, ◌%◌, ◌^◌, ◌≤◌, ◌<◌, ◌∣◌}
use Prim.Native.Nat.add
use mathlib.Core.Path.{◌≡◌, sym, ap, subst, ◌∙◌}
use mathlib.Core.Logic.{◌⊎◌, inl, inr}
use native.Mathlib.Nat.{
  mod-add-mod, mod-eq_of_lt, mod-eq-sub-mod, mod-mod_of_dvd, pow-suc, dvd_refl,
  dvd-mul_right_of_dvd,
}
use native.Mathlib.Decide.{dec_lt}
use native.Mathlib.Omega.{arith}

-- The remainder of a sum of a slot number and a step of at most one round.
pub add-mod-cases :
    (a d cap : ℕ)
    → a < cap
    → d ≤ cap
    → ((a + d < cap) × ((a + d) % cap ≡ a + d)) ⊎ ((cap ≤ a + d) × ((a + d) % cap ≡ a + d - cap))
add-mod-cases a d cap ha hd = elim (dec_lt (a + d) cap) [
  | yes p ↦ inl (p, mod-eq_of_lt p)
  | no p ↦ inr (
    omega arith,
    mod-eq-sub-mod {n = a + d} {m = cap} (omega arith)
        ∙ mod-eq_of_lt {n = a + d - cap} {m = cap} (omega arith),
  )
]

-- The wrap of a cursor at 2 ^ 32 does not move the slot that it names.
pub u32-mod : (x y cap : ℕ) → cap ∣ 2 ^ 32 → (x % 2 ^ 32 + y) % cap ≡ (x + y) % cap
u32-mod x y cap h =
    sym (mod-add-mod (x % 2 ^ 32) cap y)
    ∙ ap (λ (t : ℕ). (t + y) % cap) (mod-mod_of_dvd cap x h)
    ∙ mod-add-mod x cap y

pub u32-mod_zero : (x cap : ℕ) → cap ∣ 2 ^ 32 → x % 2 ^ 32 % cap ≡ x % cap
u32-mod_zero x cap h = mod-mod_of_dvd cap x h

-- A step of `m` from the slot of `x`.
pub mod_step : (x m cap y : ℕ) → y ≡ x + m → y % cap ≡ (x % cap + m) % cap
mod_step x m cap y e = ap (λ (t : ℕ). t % cap) e ∙ sym (mod-add-mod x cap m)

two-pow-dvd_add : (c b : ℕ) → 2 ^ b ∣ 2 ^ (c + b)
two-pow-dvd_add zero b = rw add.zero (dvd_refl (2 ^ b))
two-pow-dvd_add (suc c) b =
    rw (add.suc, pow-suc) (dvd-mul_right_of_dvd (2 ^ b) (two-pow-dvd_add c b) 2)

pub two-pow-dvd : (b w : ℕ) → b ≤ w → 2 ^ b ∣ 2 ^ w
two-pow-dvd b w h =
    subst (λ (t : ℕ). 2 ^ b ∣ 2 ^ t) {x = w - b + b} {y = w} (omega arith)
      (two-pow-dvd_add (w - b) b)
