-- ===== src/Fifo.antt =====
-- The abstract view of a buffered channel's ring: a first-in first-out list of bounded length.
use libchan.Base.{
  ℕ, Bool, true, false, Option, none, some, List, [], ◌∷◌, ◌++◌, length, ltb, if◌then◌else◌,
}

module _ {A : Type 0} where
  -- A put at the back, refused when `cap` elements are held.
  abbrev pub put : ℕ → List A → A → Bool × List A
  put cap q x = if ltb (length q) cap then (true, q ++ (x ∷ [])) else (false, q)

  -- A get from the front.
  abbrev pub get : List A → Option (A × List A)
  get [] = none
  get (x ∷ q) = some (x, q)
