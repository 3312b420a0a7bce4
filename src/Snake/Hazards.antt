-- ===== src/Snake/Hazards.antt =====
-- Turns that the player and the food do not expect.
use libchan.Base.{
  ℕ, suc, ◌+◌, ◌-◌, ◌≤◌, Bool, true, false, ◌||◌, ltb, if◌then◌else◌, if_true, if_false, or_left,
  or_right, [], ◌∷◌, ◌≡◌, refl, ap, subst, ◌∙◌, arith,
}
use libchan.Snake.Keys.{Dir, opposite}
use libchan.Snake.Game.{
  maxlen, Pos, Game, Turn, game_over, goes_on, same, among, on_snake, hit_self, hit_wall,
  apply_dirs, move, draw_food, place_food, shift, eat, advance, turn,
}
use libchan.Snake.Board.{same_refl}

-- A turn by way of the side, in one turn: where neither message is opposite to the direction before
-- it, and the second points from the head to the cell behind it, the game is over.
pub turn-reversed :
    (rand : ℕ → ℕ) (g : Game) (side back : Dir)
    → opposite g.cur side ≡ false
    → opposite side back ≡ false
    → g.snake 1 ≡ move back (g.snake 0)
    → 2 ≤ g.len
    → turn rand g (side ∷ back ∷ []) false ≡ game_over
unfolding turn apply_dirs
turn-reversed rand g side back ok still behind long =
    ap (λ d. after d) (turned ∙ refl)
    ∙ if_true _ _ (or_right (hit_wall (move back (g.snake 0))) _ bites)
  where
    after : Dir → Turn
    after d =
        let head = move d (g.snake 0) in
        if hit_wall head || hit_self g.snake g.len head
        then game_over
        else goes_on (advance rand (record g { cur = d }) head)

    turned :
        (if opposite (if opposite g.cur side then g.cur else side) back
          then if opposite g.cur side then g.cur else side
          else back)
        ≡ back
    turned =
        ap (λ (d : Dir). if opposite d back then d else back) (if_false _ _ ok) ∙ if_false _ _ still

    bites : hit_self g.snake g.len (move back (g.snake 0)) ≡ true
    bites =
        subst (λ (n : ℕ). among g.snake 1 n (move back (g.snake 0)) ≡ true) {x = suc (g.len - 2)}
          {y = g.len - 1} (omega (arith, long))
          (or_left _ _
            (ap (λ p. same p (move back (g.snake 0))) behind ∙ same_refl (move back (g.snake 0))))

-- The food of the next round may lie under the head: where the head is on the food, and the numbers
-- that come next choose its cell again, and none of the cells that `place_food` looks at is that one,
-- the food stays there after the move.
pub advance-food :
    (rand : ℕ → ℕ) (g : Game) (head : Pos)
    → same head g.food ≡ true
    → draw_food rand g.calls ≡ head
    → on_snake g.snake (if ltb g.len maxlen then g.len + 1 else g.len) head ≡ false
    → (advance rand g head).food ≡ (advance rand g head).snake 0
unfolding advance eat place_food shift
advance-food rand g head fed again off =
    ap (λ (t : Game). t.food) (if_true _ _ fed)
    ∙ first (on_snake g.snake longer (draw_food rand g.calls))
        (ap (on_snake g.snake longer) again ∙ off)
    ∙ again
  where
    longer : ℕ
    longer = if ltb g.len maxlen then g.len + 1 else g.len

    first :
        (b : Bool)
        → b ≡ false
        → (elim b as (λ c. Pos × ℕ) [
          | true ↦ place_food rand 999 (g.calls + 2) g.snake longer (draw_food rand g.calls)
          | false ↦ (draw_food rand g.calls, g.calls + 2)
        ]).0
          ≡ draw_food rand g.calls
    first true e = cc
    first false e = refl
