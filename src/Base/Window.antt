-- ===== src/Base/Window.antt =====
-- The list of the first `n` values of a function: what a ring or a buffer holds.
use Prim.Native.Nat.{ℕ, zero, suc, ◌+◌, ◌<◌}
use Prim.Native.Nat.add
use mathlib.Core.Path.{◌≡◌, refl, ap, ap₂}
use mathlib.Core.List.{List, [], ◌∷◌, ◌++◌}
use native.Mathlib.Omega.{arith}
use libchan.Base.Tests.{length}

module _ {ℓ} {A : Type ℓ} where
  abbrev pub tabulate : ℕ → (ℕ → A) → List A
  tabulate zero f = []
  tabulate (suc n) f = f 0 ∷ tabulate n (λ j. f (suc j))

  pub length-tabulate : (n : ℕ) (f : ℕ → A) → length (tabulate n f) ≡ n
  length-tabulate zero f = refl
  length-tabulate (suc n) f = ap suc (length-tabulate n (λ j. f (suc j)))

  pub tabulate-congr :
      (n : ℕ) (f g : ℕ → A) → ((j : ℕ) → j < n → f j ≡ g j) → tabulate n f ≡ tabulate n g
  tabulate-congr zero f g h = refl
  tabulate-congr (suc n) f g h =
      ap₂ ◌∷◌ (h 0 (omega arith))
        (tabulate-congr n (λ j. f (suc j)) (λ j. g (suc j)) (λ j lt. h (suc j) (omega arith)))

  pub tabulate-add :
      (n k : ℕ) (f : ℕ → A) → tabulate (n + k) f ≡ tabulate n f ++ tabulate k (λ j. f (n + j))
  tabulate-add zero k f = simp add.zero
  tabulate-add (suc n) k f = simp add.suc (ap (λ t. f 0 ∷ t) (tabulate-add n k (λ j. f (suc j))))
