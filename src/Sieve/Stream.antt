-- ===== src/Sieve/Stream.antt =====
-- What a chain of the sieve still has to give.
use mathlib.Core.Option.{some-injective}
use libchan.Base.{
  ℕ, zero, suc, ◌+◌, ◌-◌, ◌%◌, ◌≤◌, ◌<◌, Bool, true, false, Option, none, some, List, [], ◌∷◌, ◌++◌,
  append_assoc, leb, ◌==◌, if◌then◌else◌, if_true, if_false, Bool-cases, and_left, and_right, ◌≡◌,
  refl, sym, ap, ap₂, subst, ◌∙◌, inl, inr, arith,
}
use libchan.Sieve.{
  limit, Chain, generate, filter, has_room, is_empty, receive, ended, generate_step,
}

-- `n` numbers from `i` on, and those from `i` to the limit.
abbrev pub count_up : ℕ → ℕ → List ℕ
count_up zero i = []
count_up (suc n) i = i ∷ count_up n (i + 1)

abbrev pub up_from : ℕ → List ℕ
up_from i = count_up ((limit + 1) - i) i

-- What is left without the multiples of `p`.
unfoldable pub survivors : ℕ → List ℕ → List ℕ
survivors p [] = []
survivors p (x ∷ xs) = let rest = survivors p xs in if x % p == 0 then rest else x ∷ rest

abbrev pub held : Option ℕ → List ℕ
held none = []
held (some i) = i ∷ []

unfoldable pub stream : Chain → List ℕ
stream (generate i q closed) = q ++ up_from i
stream (filter p hand q closed up) = q ++ (held hand ++ survivors p (stream up))

-- A closed channel gets nothing more.
abbrev pub Tidy : Chain → Type 0
Tidy (generate i q closed) = closed ≡ true → limit < i
Tidy (filter p hand q closed up) = (closed ≡ true → (hand ≡ none) × (stream up ≡ [])) × Tidy up

up_from-next : (i : ℕ) → i ≤ limit → up_from i ≡ i ∷ up_from (i + 1)
up_from-next i h =
    ap (λ (n : ℕ). count_up n i) {x = (limit + 1) - i} {y = suc ((limit + 1) - (i + 1))}
      (omega (arith, h))

up_from-end : (i : ℕ) → limit < i → up_from i ≡ []
up_from-end i h = ap (λ (n : ℕ). count_up n i) {x = (limit + 1) - i} {y = 0} (omega (arith, h))

pub generate_step-stream :
    (i : ℕ) (q : List ℕ) (closed : Bool) → stream (generate_step i q closed) ≡ q ++ up_from i
unfolding stream generate_step
generate_step-stream i q true = refl
generate_step-stream i q false = elim (Bool-cases (leb i limit)) [
  | inl e ↦ ap stream (if_true _ (generate i q true) e) ∙ elim (Bool-cases (has_room q)) [
    | inl room ↦
        ap stream (if_true _ (generate i q false) room)
        ∙ append_assoc q (i ∷ []) (up_from (i + 1))
        ∙ ap (λ t. q ++ t) (sym (up_from-next i (within i e)))
    | inr full ↦ ap stream (if_false _ (generate i q false) full)
  ]
  | inr e ↦ ap stream (if_false _ (generate i q true) e)
]
  where
    within : (k : ℕ) → leb k limit ≡ true → k ≤ limit
    within k h = ground arith

-- A receive takes the first.
pub receive-stream :
    (ch : Chain) (x : ℕ) (ch' : Chain) → receive ch ≡ some (x, ch') → stream ch ≡ x ∷ stream ch'
unfolding stream
receive-stream (generate i [] closed) x ch' e = cc
receive-stream (generate i (y ∷ q) closed) x ch' e =
    ap (λ (t : ℕ × Chain). t.0 ∷ stream t.1) (some-injective _ _ e)
receive-stream (filter p hand [] closed up) x ch' e = cc
receive-stream (filter p hand (y ∷ q) closed up) x ch' e =
    ap (λ (t : ℕ × Chain). t.0 ∷ stream t.1) (some-injective _ _ e)

pub receive-Tidy :
    (ch : Chain) (x : ℕ) (ch' : Chain) → receive ch ≡ some (x, ch') → Tidy ch → Tidy ch'
receive-Tidy (generate i [] closed) x ch' e h = cc
receive-Tidy (generate i (y ∷ q) closed) x ch' e h =
    subst (λ (t : ℕ × Chain). Tidy t.1) (some-injective _ _ e) h
receive-Tidy (filter p hand [] closed up) x ch' e h = cc
receive-Tidy (filter p hand (y ∷ q) closed up) x ch' e h =
    subst (λ (t : ℕ × Chain). Tidy t.1) (some-injective _ _ e) h

is_empty-nil : (q : List ℕ) → is_empty q ≡ true → q ≡ []
is_empty-nil [] e = refl
is_empty-nil (x ∷ q) e = cc

pub ended-stream : (ch : Chain) → Tidy ch → ended ch ≡ true → stream ch ≡ []
unfolding stream survivors
ended-stream (generate i q closed) h e =
    ap₂ ◌++◌ (is_empty-nil q (and_right closed (is_empty q) e))
      (up_from-end i (h (and_left closed (is_empty q) e)))
ended-stream (filter p hand q closed up) h e =
    let (free, dry) = h.0 (and_left closed (is_empty q) e) in
    ap₂ ◌++◌ (is_empty-nil q (and_right closed (is_empty q) e))
      (ap₂ (λ t u. held t ++ survivors p u) free dry)
