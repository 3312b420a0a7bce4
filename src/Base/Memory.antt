-- ===== src/Base/Memory.antt =====
-- Arrays in memory. An array is a function from indices to elements, so that a copy past the end
-- of an object shows as a changed cell.
use Prim.Native.Nat.{ℕ, ◌+◌, ◌-◌, ◌≤◌, ◌<◌}
use mathlib.Core.Path.{◌≡◌}
use mathlib.Core.Bool.{◌&&◌}
use native.Mathlib.Omega.{arith}
use libchan.Base.Tests.{ltb, leb, ◌==◌, if◌then◌else◌}

module _ {ℓ} {A : Type ℓ} where
  -- `memcpy(dst + i, src + j, n)`, in elements.
  abbrev pub memcpy : (ℕ → A) → ℕ → (ℕ → A) → ℕ → ℕ → ℕ → A
  memcpy dst i src j n p = if leb i p && ltb p (i + n) then src (j + (p - i)) else dst p

  pub memcpy_inside :
      (dst : ℕ → A) (i : ℕ) (src : ℕ → A) (j n p : ℕ)
      → i ≤ p
      → p < i + n
      → memcpy dst i src j n p ≡ src (j + (p - i))
  memcpy_inside dst i src j n p h k = ground arith

  pub memcpy_below :
      (dst : ℕ → A) (i : ℕ) (src : ℕ → A) (j n p : ℕ) → p < i → memcpy dst i src j n p ≡ dst p
  memcpy_below dst i src j n p h = ground arith

  pub memcpy_above :
      (dst : ℕ → A) (i : ℕ) (src : ℕ → A) (j n p : ℕ) → i + n ≤ p → memcpy dst i src j n p ≡ dst p
  memcpy_above dst i src j n p h = ground arith

-- A store of values by address, changed at one address.
abbrev pub update {ℓ} : {A : Type ℓ} → (ℕ → A) → ℕ → A → ℕ → A
update f a v x = if x == a then v else f x
