-- ===== src/Pipeline/PathList.antt =====
-- examples/dplane_pipeline.c: the list of paths of the option -l.
--
-- A string is the list of its characters, without the final 0. `strtol` is a parameter: it answers
-- the number and what follows it.
use libchan.Base.{
  ℕ, zero, suc, ◌+◌, ◌-◌, ◌≤◌, ◌<◌, Bool, true, false, not, ◌&&◌, ◌||◌, List, [], ◌∷◌, ◌==◌, leb,
  length, if◌then◌else◌, if_true, if_false, Bool-cases, or_false_left, or_false_right, ℤ, pos,
  negsuc, ◌≡◌, refl, sym, ap, subst, ◌∙◌, inl, inr, arith,
}

-- -1, or the number of paths and which they are, by `path_id_t`; or the loop did not end.
pub data Parsed : Type 0 where
  out_of_fuel invalid : Parsed
  selected : ℕ → (ℕ → Bool) → Parsed

-- `v - 1` where `v` is the number of a path.
abbrev pub index : ℤ → ℕ
index (pos v) = v - 1
index (negsuc v) = 0

abbrev pub is_path : ℤ → Bool
is_path (pos v) = leb 1 v && leb v 6
is_path (negsuc v) = false

abbrev pub enable : (ℕ → Bool) → ℕ → ℕ → Bool
enable enabled k i = if i == k then true else enabled i

-- The end of a turn: a comma, or the end of the string.
abbrev pub next_item : (List ℕ → Parsed) → List ℕ → Parsed
next_item again [] = again []
next_item again (c ∷ rest) = if c == 44 then again rest else invalid

-- The loop of `parse_path_list`, with so many turns left.
unfoldable pub path_loop : (List ℕ → ℤ × List ℕ) → ℕ → (ℕ → Bool) → ℕ → List ℕ → Parsed
path_loop strtol fuel enabled n [] = selected n enabled
path_loop strtol zero enabled n (c ∷ s) = out_of_fuel
path_loop strtol (suc fuel) enabled n (c ∷ s) =
    let (v, end) = strtol (c ∷ s) in
    let k = index v in
    let rest =
      next_item (path_loop strtol fuel (enable enabled k) (if not (enabled k) then n + 1 else n))
        end in
    if length end == length (c ∷ s) || not (is_path v) then invalid else rest

-- `parse_path_list`
unfoldable pub parse_path_list : (List ℕ → ℤ × List ℕ) → List ℕ → Parsed
parse_path_list strtol list = path_loop strtol (length list) (λ i. false) 0 list

abbrev bit : Bool → ℕ
bit true = 1
bit false = 0

-- How many of the six paths are enabled.
abbrev pub count : (ℕ → Bool) → ℕ
count e = bit (e 0) + (bit (e 1) + (bit (e 2) + (bit (e 3) + (bit (e 4) + bit (e 5)))))

count-enable : (e : ℕ → Bool) (k : ℕ) → k < 6 → count (enable e k) + bit (e k) ≡ count e + 1
count-enable e zero l = omega arith
count-enable e (suc zero) l = omega arith
count-enable e (suc (suc zero)) l = omega arith
count-enable e (suc (suc (suc zero))) l = omega arith
count-enable e (suc (suc (suc (suc zero)))) l = omega arith
count-enable e (suc (suc (suc (suc (suc zero))))) l = omega arith
count-enable e (suc (suc (suc (suc (suc (suc k)))))) l = absurd (omega (arith, l))

counted-next :
    (e : ℕ → Bool) (k n : ℕ)
    → k < 6
    → n ≡ count e
    → (if not (e k) then n + 1 else n) ≡ count (enable e k)
counted-next e k n l h = elim (Bool-cases (e k)) [
  | inl on ↦ if_false _ _ (ap not on) ∙ omega (arith, h, count-enable e k l, ap bit on)
  | inr out ↦ if_true _ _ (ap not out) ∙ omega (arith, h, count-enable e k l, ap bit out)
]

-- The loop ended, and where it accepted the list, it counted the paths that are enabled.
abbrev pub Counted : Parsed → Type 0
Counted out_of_fuel = ⊥
Counted invalid = Unit
Counted (selected n e) = n ≡ count e

next_item-Counted :
    (again : List ℕ → Parsed) (end : List ℕ) (m : ℕ)
    → ((s : List ℕ) → length s ≤ m → Counted (again s))
    → length end ≤ m
    → Counted (next_item again end)
next_item-Counted again [] m f l = f [] l
next_item-Counted again (c ∷ rest) m f l = elim (Bool-cases (c == 44)) [
  | inl e ↦ subst Counted (sym (if_true _ _ e)) (f rest (omega (arith, l)))
  | inr e ↦ subst Counted (sym (if_false _ _ e)) tt
]

path-index : (v : ℤ) → is_path v ≡ true → index v < 6
path-index (pos v) h = ground arith
path-index (negsuc v) h = cc

path_loop-Counted :
    (strtol : List ℕ → ℤ × List ℕ)
    → ((s : List ℕ) → length (strtol s).1 ≤ length s)
    → (fuel : ℕ) (e : ℕ → Bool) (n : ℕ) (s : List ℕ) → n ≡ count e
    → length s ≤ fuel
    → Counted (path_loop strtol fuel e n s)
unfolding path_loop
path_loop-Counted strtol within fuel e n [] h l = h
path_loop-Counted strtol within zero e n (c ∷ s) h l = absurd (omega (arith, l))
path_loop-Counted strtol within (suc fuel) e n (c ∷ s) h l =
    let v = (strtol (c ∷ s)).0 in
    let end = (strtol (c ∷ s)).1 in
    elim (Bool-cases (length end == length (c ∷ s) || not (is_path v))) [
      | inl bad ↦ subst Counted (sym (if_true _ _ bad)) tt
      | inr good ↦
          let ok = not_not (is_path v) (or_false_right (length end == length (c ∷ s)) _ good) in
          subst Counted (sym (if_false _ _ good)) (
            next_item-Counted _ end fuel
              (λ t m.
                path_loop-Counted strtol within fuel (enable e (index v))
                  (if not (e (index v)) then n + 1 else n) t
                  (counted-next e (index v) n (path-index v ok) h) m)
              (shorter (length end) (length s) fuel (within (c ∷ s)) l
                (or_false_left (length end == length (c ∷ s)) _ good)))
    ]
  where
    not_not : (b : Bool) → not b ≡ false → b ≡ true
    not_not b g = ground arith

    shorter : (a b m : ℕ) → a ≤ suc b → suc b ≤ suc m → (a == suc b) ≡ false → a ≤ m
    shorter a b m g j k = ground arith

-- As long as what `strtol` leaves of a string is no longer than the string: the loop over the list of
-- the option -l ends, for every string, and where it accepts the list, the number that it returns is
-- the number of different paths that it enabled.
pub parse_path_list-Counted :
    (strtol : List ℕ → ℤ × List ℕ) (s : List ℕ)
    → ((t : List ℕ) → length (strtol t).1 ≤ length t)
    → Counted (parse_path_list strtol s)
unfolding parse_path_list
parse_path_list-Counted strtol s within =
    path_loop-Counted strtol within (length s) (λ i. false) 0 s refl (omega arith)
