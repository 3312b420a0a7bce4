-- ===== src/Snake/Turns.antt =====
-- Whole games.
use libchan.Base.{
  ℕ, zero, suc, ◌-◌, ◌/◌, ◌<◌, Bool, false, ◌||◌, ltb, if◌then◌else◌, if_true, if_false, Bool-cases,
  or_false_left, or_false_right, List, [], ◌∷◌, ◌≡◌, refl, sym, ap, subst, ◌∙◌, inl, inr, arith,
}
use libchan.Snake.Keys.{Dir, is_none, opposite}
use libchan.Snake.Game.{
  width, height, Pos, Game, Turn, quits, game_over, goes_on, Frame, same, hit_self, hit_wall,
  apply_dirs, move, turn, tick_sleep, rested, play, new_game,
}
use libchan.Snake.Board.{Inside, hit_wall-Inside, place_food-drawn, Beside, move-Beside}
use libchan.Snake.Body.{Playing, advance-Playing}

-- No DIR_NONE is among these.
abbrev pub Sendable : List Dir → Type 0
Sendable [] = Unit
Sendable (d ∷ ds) = (is_none d ≡ false) × Sendable ds

abbrev pub SendableNaps : List (List Dir × Bool) → Type 0
SendableNaps [] = Unit
SendableNaps ((ds, closed) ∷ naps) = Sendable ds × SendableNaps naps

abbrev pub SendableFrames : List Frame → Type 0
SendableFrames [] = Unit
SendableFrames (f ∷ fs) = (Sendable f.dirs × SendableNaps f.naps) × SendableFrames fs

apply_dirs-heading :
    (ds : List Dir) (cur : Dir)
    → is_none cur ≡ false
    → Sendable ds
    → is_none (apply_dirs cur ds) ≡ false
unfolding apply_dirs
apply_dirs-heading [] cur h s = h
apply_dirs-heading (d ∷ ds) cur h s =
    apply_dirs-heading ds (if opposite cur d then cur else d)
      (elim (Bool-cases (opposite cur d)) [
        | inl e ↦ ap is_none (if_true _ _ e) ∙ h
        | inr e ↦ ap is_none (if_false _ _ e) ∙ s.0
      ])
      s.1

tick_sleep-heading :
    (left : ℕ) (cur : Dir) (naps : List (List Dir × Bool))
    → is_none cur ≡ false
    → SendableNaps naps
    → is_none (tick_sleep left cur naps) ≡ false
unfolding tick_sleep
tick_sleep-heading zero cur naps h s = h
tick_sleep-heading (suc left) cur [] h s = h
tick_sleep-heading (suc left) cur ((ds, closed) ∷ naps) h s =
    let k = apply_dirs-heading ds cur h s.0 in
    elim (Bool-cases closed) [
      | inl e ↦ ap is_none (if_true _ _ e) ∙ k
      | inr e ↦ ap is_none (if_false _ _ e) ∙ tick_sleep-heading left (apply_dirs cur ds) naps k s.1
    ]

-- A turn ends the game, or the game can go on.
abbrev pub StillPlaying : Turn → Type 0
StillPlaying quits = Unit
StillPlaying game_over = Unit
StillPlaying (goes_on g) = Playing g

turn-Playing :
    (rand : ℕ → ℕ) (g : Game) (ds : List Dir) (closed : Bool)
    → Playing g
    → Sendable ds
    → StillPlaying (turn rand g ds closed)
unfolding turn
turn-Playing rand g ds closed h s = elim (Bool-cases closed) [
  | inl e ↦ subst StillPlaying (sym (if_true _ _ e)) tt
  | inr e ↦ elim (Bool-cases (hit_wall head || hit_self g.snake g.len head)) [
    | inl hit ↦ subst StillPlaying (sym (if_false _ _ e ∙ if_true _ _ hit)) tt
    | inr free ↦
        let clear = hit_wall-Inside head (or_false_left _ _ free) in
        subst StillPlaying (sym (if_false _ _ e ∙ if_false _ _ free)) (
          advance-Playing rand (record g { cur = cur }) head
            (record {
              body = h.body;
              heading = heading;
              food_inside = h.food_inside;
              len_lem = h.len_lem;
            })
            clear (move-Beside cur (g.snake 0) heading (h.body.inside 0 (omega (arith, h.len_lem))))
            (or_false_right (hit_wall head) _ free))
  ]
]
  where
    cur : Dir
    cur = apply_dirs g.cur ds

    heading : is_none cur ≡ false
    heading = apply_dirs-heading ds g.cur h.heading s

    head : Pos
    head = move cur (g.snake 0)

rested-Playing :
    (t : Turn) (naps : List (List Dir × Bool))
    → StillPlaying t
    → SendableNaps naps
    → StillPlaying (rested t naps)
rested-Playing quits naps h s = tt
rested-Playing game_over naps h s = tt
rested-Playing (goes_on g) naps h s = record {
  body = h.body;
  heading = tick_sleep-heading 28 g.cur naps h.heading s;
  food_inside = h.food_inside;
  len_lem = h.len_lem;
}

play-Playing :
    (rand : ℕ → ℕ) (fs : List Frame) (t : Turn)
    → StillPlaying t
    → SendableFrames fs
    → StillPlaying (play rand t fs)
unfolding play
play-Playing rand [] quits h s = tt
play-Playing rand [] game_over h s = tt
play-Playing rand [] (goes_on g) h s = h
play-Playing rand (f ∷ fs) quits h s = tt
play-Playing rand (f ∷ fs) game_over h s = tt
play-Playing rand (f ∷ fs) (goes_on g) h s =
    play-Playing rand fs (rested (turn rand g f.dirs f.closed) f.naps)
      (rested-Playing (turn rand g f.dirs f.closed) f.naps
        (turn-Playing rand g f.dirs f.closed h s.0.0) s.0.1)
      s.1

new_game-Playing :
    (rand : ℕ → ℕ) (memory : ℕ → Pos) (unset : Pos) → Playing (new_game rand memory unset)
unfolding new_game
new_game-Playing rand memory unset = record {
  body = record { inside = all; joined = chain; apart = off };
  heading = refl;
  food_inside = place_food-drawn rand 999 0 _ 3 unset;
  len_lem = refl;
}
  where
    cells : ℕ → Pos
    cells i = if ltb i 3 then record { x = width / 2 - i; y = height / 2 } else memory i

    all : (i : ℕ) → i < 3 → Inside (cells i)
    all zero l = record {
      left = omega arith;
      right = omega arith;
      top = omega arith;
      bottom = omega arith;
    }
    all (suc zero) l = record {
      left = omega arith;
      right = omega arith;
      top = omega arith;
      bottom = omega arith;
    }
    all (suc (suc zero)) l = record {
      left = omega arith;
      right = omega arith;
      top = omega arith;
      bottom = omega arith;
    }
    all (suc (suc (suc i))) l = absurd (omega (arith, l))

    chain : (i : ℕ) → suc i < 3 → Beside (cells i) (cells (suc i))
    chain zero l = inr (refl, inl refl)
    chain (suc zero) l = inr (refl, inl refl)
    chain (suc (suc i)) l = absurd (omega (arith, l))

    off : (i j : ℕ) → i < j → j < 3 → same (cells j) (cells i) ≡ false
    off zero (suc zero) l m = refl
    off zero (suc (suc zero)) l m = refl
    off (suc zero) (suc (suc zero)) l m = refl
    off i zero l m = absurd (omega (arith, l))
    off i (suc (suc (suc j))) l m = absurd (omega (arith, m))
    off (suc i) (suc zero) l m = absurd (omega (arith, l))
    off (suc (suc i)) (suc (suc zero)) l m = absurd (omega (arith, l))

-- In every game that started as `main` starts it, whatever `rand` answers, whatever directions come at
-- each turn and nap, so long as none of them is DIR_NONE: while the game goes on, every cell of the
-- snake and the food are inside the walls, each cell of the snake is beside the next, no two of its
-- cells are the same, and it is 3 and the score long, at most MAXLEN.
pub game-Playing :
    (rand : ℕ → ℕ) (memory : ℕ → Pos) (unset : Pos) (fs : List Frame)
    → SendableFrames fs
    → StillPlaying (play rand (goes_on (new_game rand memory unset)) fs)
game-Playing rand memory unset fs s =
    play-Playing rand fs (goes_on (new_game rand memory unset)) (new_game-Playing rand memory unset)
      s
