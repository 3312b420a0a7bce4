-- ===== src/Base/Addresses.antt =====
-- Lists of addresses: membership, removal of the first occurrence, and lists without repetition.
use Prim.Native.Nat.{ℕ}
use mathlib.Core.Path.{sym}
use mathlib.Core.Logic.{◌≢◌}
use mathlib.Core.Bool.{Bool, false, ◌||◌}
use mathlib.Core.List.{List, [], ◌∷◌, ◌++◌}
use native.Mathlib.Omega.{arith}
use libchan.Base.Tests.{◌==◌, if◌then◌else◌}

abbrev pub mem : ℕ → List ℕ → Bool
mem x [] = false
mem x (y ∷ ys) = y == x || mem x ys

abbrev pub erase : ℕ → List ℕ → List ℕ
erase x [] = []
erase x (y ∷ ys) = if y == x then ys else y ∷ erase x ys

abbrev pub NotIn : ℕ → List ℕ → Type 0
NotIn x [] = Unit
NotIn x (y ∷ ys) = (x ≢ y) × NotIn x ys

abbrev pub Distinct : List ℕ → Type 0
Distinct [] = Unit
Distinct (x ∷ xs) = NotIn x xs × Distinct xs

pub NotIn-erase : (x y : ℕ) (xs : List ℕ) → NotIn x xs → NotIn x (erase y xs)
NotIn-erase x y [] h = tt
NotIn-erase x y (z ∷ xs) h = ground (arith, NotIn-erase x y xs h.1)

pub Distinct-erase : (y : ℕ) (xs : List ℕ) → Distinct xs → Distinct (erase y xs)
Distinct-erase y [] h = tt
Distinct-erase y (z ∷ xs) h = ground (arith, Distinct-erase y xs h.1, NotIn-erase z y xs h.0)

pub NotIn-append : (x y : ℕ) (xs : List ℕ) → x ≢ y → NotIn x xs → NotIn x (xs ++ (y ∷ []))
NotIn-append x y [] ne h = (ne, tt)
NotIn-append x y (z ∷ xs) ne h = (h.0, NotIn-append x y xs ne h.1)

pub Distinct-append : (y : ℕ) (xs : List ℕ) → NotIn y xs → Distinct xs → Distinct (xs ++ (y ∷ []))
Distinct-append y [] n h = (tt, tt)
Distinct-append y (z ∷ xs) n h =
    (NotIn-append z y xs (λ e. n.0 (sym e)) h.0, Distinct-append y xs n.1 h.1)
