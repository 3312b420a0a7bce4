-- ===== src/Snake/Board.antt =====
-- Cells of the board: the walls, the food, and the cells beside one another.
use libchan.Base.{
  ℕ, zero, suc, ◌+◌, ◌*◌, ◌≤◌, ◌<◌, Bool, true, false, or_false_left, or_false_right, ◌≡◌, refl,
  subst, ◌⊎◌, inl, inr, arith,
}
use libchan.Snake.Keys.{Dir, dir_up, dir_down, dir_left, dir_right, dir_none, is_none}
use libchan.Snake.Game.{Pos, same, among, on_snake, hit_wall, draw_food, place_food, move}

-- Inside the walls.
pub record Inside (p : Pos) : Type 0 where
  pub left : 1 ≤ p.x
  pub right : p.x ≤ 42
  pub top : 1 ≤ p.y
  pub bottom : p.y ≤ 22

pub hit_wall-Inside : (p : Pos) → hit_wall p ≡ false → Inside p
unfolding hit_wall
hit_wall-Inside p h = record {
  left = ground arith;
  right = ground arith;
  top = ground arith;
  bottom = ground arith;
}

draw_food-Inside : (rand : ℕ → ℕ) (calls : ℕ) → Inside (draw_food rand calls)
unfolding draw_food
draw_food-Inside rand calls = record {
  left = omega arith;
  right = omega arith;
  top = omega arith;
  bottom = omega arith;
}

-- Whatever a try finds.
place_food-cases {ℓ} :
    (P : Pos → Type ℓ) (rand : ℕ → ℕ) (tries calls : ℕ) (snake : ℕ → Pos) (len : ℕ) (food : Pos)
    → P food
    → ((k : ℕ) → P (draw_food rand k))
    → P (place_food rand tries calls snake len food).0
unfolding place_food
place_food-cases P rand zero calls snake len food old drawn = old
place_food-cases P rand (suc tries) calls snake len food old drawn =
    let p = draw_food rand calls in
    elim (on_snake snake len p)
      as (λ b.
        P
          (elim b as (λ c. Pos × ℕ) [
            | true ↦ place_food rand tries (calls + 2) snake len p
            | false ↦ (p, calls + 2)
          ]).0) [
            | true ↦ place_food-cases P rand tries (calls + 2) snake len p (drawn calls) drawn
            | false ↦ drawn calls
          ]

-- One try is enough for food inside the walls.
pub place_food-drawn :
    (rand : ℕ → ℕ) (tries calls : ℕ) (snake : ℕ → Pos) (len : ℕ) (food : Pos)
    → Inside (place_food rand (suc tries) calls snake len food).0
unfolding place_food
place_food-drawn rand tries calls snake len food =
    let p = draw_food rand calls in
    elim (on_snake snake len p)
      as (λ b.
        Inside
          (elim b as (λ c. Pos × ℕ) [
            | true ↦ place_food rand tries (calls + 2) snake len p
            | false ↦ (p, calls + 2)
          ]).0) [
            | true ↦
                place_food-cases Inside rand tries (calls + 2) snake len p
                  (draw_food-Inside rand calls) (draw_food-Inside rand)
            | false ↦ draw_food-Inside rand calls
          ]

pub place_food-Inside :
    (rand : ℕ → ℕ) (tries calls : ℕ) (snake : ℕ → Pos) (len : ℕ) (food : Pos)
    → Inside food
    → Inside (place_food rand tries calls snake len food).0
place_food-Inside rand tries calls snake len food h =
    place_food-cases Inside rand tries calls snake len food h (draw_food-Inside rand)

-- What `place_food` found: a cell off the snake, or nothing but cells on it in all of its tries.
abbrev pub Found : (ℕ → ℕ) → ℕ → ℕ → (ℕ → Pos) → ℕ → Pos → Type 0
Found rand tries calls snake len p =
    (on_snake snake len p ≡ false)
    ⊎ ((j : ℕ) → j < tries → on_snake snake len (draw_food rand (calls + 2 * j)) ≡ true)

Found-more :
    (rand : ℕ → ℕ) (tries calls : ℕ) (snake : ℕ → Pos) (len : ℕ) (p : Pos)
    → on_snake snake len (draw_food rand calls) ≡ true
    → Found rand tries (calls + 2) snake len p
    → Found rand (suc tries) calls snake len p
Found-more rand tries calls snake len p first (inl off) = inl off
Found-more rand tries calls snake len p first (inr all) = inr every
  where
    at :
        (a b : ℕ)
        → a ≡ b
        → on_snake snake len (draw_food rand a) ≡ true
        → on_snake snake len (draw_food rand b) ≡ true
    at a b e h = subst (λ t. on_snake snake len (draw_food rand t) ≡ true) e h

    every : (j : ℕ) → j < suc tries → on_snake snake len (draw_food rand (calls + 2 * j)) ≡ true
    every zero l = at calls (calls + 2 * 0) (omega arith) first
    every (suc j) l =
        at (calls + 2 + 2 * j) (calls + 2 * suc j) (omega arith) (all j (omega (arith, l)))

-- The food is placed off the cells of the snake that `place_food` is given, unless all of its tries
-- drew cells on them.
pub place_food-Found :
    (rand : ℕ → ℕ) (tries calls : ℕ) (snake : ℕ → Pos) (len : ℕ) (food : Pos)
    → Found rand tries calls snake len (place_food rand tries calls snake len food).0
unfolding place_food
place_food-Found rand zero calls snake len food = inr (λ j l. absurd (omega (arith, l)))
place_food-Found rand (suc tries) calls snake len food =
    go (place_food-Found rand tries (calls + 2) snake len (draw_food rand calls))
      (on_snake snake len (draw_food rand calls)) refl
  where
    go :
        Found rand tries
          (calls + 2)
          snake
          len
          (place_food rand tries (calls + 2) snake len (draw_food rand calls)).0
        → (b : Bool) → on_snake snake len (draw_food rand calls) ≡ b
        → Found rand
            (suc tries)
            calls
            snake
            len
            (elim b as (λ c. Pos × ℕ) [
              | true ↦ place_food rand tries (calls + 2) snake len (draw_food rand calls)
              | false ↦ (draw_food rand calls, calls + 2)
            ]).0
    go more true e = Found-more rand tries calls snake len _ e more
    go more false e = inl e

pub among-off :
    (n : ℕ) (snake : ℕ → Pos) (i : ℕ) (p : Pos)
    → among snake i n p ≡ false
    → (k : ℕ) → k < n
    → same (snake (i + k)) p ≡ false
among-off zero snake i p h k l = absurd (omega (arith, l))
among-off (suc n) snake i p h zero l =
    subst (λ (t : ℕ). same (snake t) p ≡ false) {x = i} {y = i + 0} (omega arith)
      (or_false_left _ _ h)
among-off (suc n) snake i p h (suc k) l =
    subst (λ (t : ℕ). same (snake t) p ≡ false) {x = suc i + k} {y = i + suc k} (omega arith)
      (among-off n snake (suc i) p (or_false_right (same (snake i) p) _ h) k (omega (arith, l)))

pub same_refl : (p : Pos) → same p p ≡ true
same_refl p = ground arith

-- Two cells that share a side.
abbrev pub Beside : Pos → Pos → Type 0
Beside p q =
    ((p.x ≡ q.x) × ((p.y ≡ q.y + 1) ⊎ (q.y ≡ p.y + 1)))
    ⊎ ((p.y ≡ q.y) × ((p.x ≡ q.x + 1) ⊎ (q.x ≡ p.x + 1)))

pub Beside-apart : (p q : Pos) → Beside p q → same q p ≡ false
Beside-apart p q (inl (e, inl f)) = ground arith
Beside-apart p q (inl (e, inr f)) = ground arith
Beside-apart p q (inr (e, inl f)) = ground arith
Beside-apart p q (inr (e, inr f)) = ground arith

pub move-Beside : (d : Dir) (p : Pos) → is_none d ≡ false → Inside p → Beside (move d p) p
move-Beside dir_up p h i = inl (refl, inr (omega (arith, i.top)))
move-Beside dir_down p h i = inl (refl, inl refl)
move-Beside dir_left p h i = inr (refl, inr (omega (arith, i.left)))
move-Beside dir_right p h i = inr (refl, inl refl)
move-Beside dir_none p h i = cc
