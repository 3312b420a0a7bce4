-- ===== src/Snake/Game.antt =====
-- examples/snake_chan.c: the board, and a turn of the loop of `main`.
--
-- `rand` is a parameter, by the number of calls before this one. Coordinates are natural: the one
-- subtraction is made on a cell inside the walls, whose coordinates are not 0. What the channel
-- holds when it is emptied is a list. The drawing is left out.
use libchan.Base.{
  ℕ, zero, suc, ◌+◌, ◌-◌, ◌/◌, ◌%◌, Bool, true, false, ◌&&◌, ◌||◌, List, [], ◌∷◌, ◌==◌, leb, ltb,
  if◌then◌else◌,
}
use libchan.Snake.Keys.{Dir, dir_up, dir_down, dir_left, dir_right, dir_none, opposite}

-- W, H and MAXLEN
abbrev pub width : ℕ
width = 44

abbrev pub height : ℕ
height = 24

abbrev pub maxlen : ℕ
maxlen = 1056

-- `pos_t`
pub record Pos : Type 0 where
  pub x : ℕ
  pub y : ℕ

abbrev pub same : Pos → Pos → Bool
same p q = p.x == q.x && p.y == q.y

-- `apply_dirs`
unfoldable pub apply_dirs : Dir → List Dir → Dir
apply_dirs cur [] = cur
apply_dirs cur (d ∷ ds) = apply_dirs (if opposite cur d then cur else d) ds

-- One of the `n` cells from number `i` on is `p`.
abbrev pub among : (ℕ → Pos) → ℕ → ℕ → Pos → Bool
among snake i zero p = false
among snake i (suc n) p = same (snake i) p || among snake (suc i) n p

abbrev pub on_snake : (ℕ → Pos) → ℕ → Pos → Bool
on_snake snake len p = among snake 0 len p

-- `hit_self` and `hit_wall`
abbrev pub hit_self : (ℕ → Pos) → ℕ → Pos → Bool
hit_self snake len head = among snake 1 (len - 1) head

unfoldable pub hit_wall : Pos → Bool
hit_wall p = p.x == 0 || (leb (width - 1) p.x || (p.y == 0 || leb (height - 1) p.y))

-- The cell that the next two numbers choose.
unfoldable pub draw_food : (ℕ → ℕ) → ℕ → Pos
draw_food rand calls = record {
  x = 1 + rand calls % (width - 2);
  y = 1 + rand (calls + 1) % (height - 2);
}

-- `place_food`, with so many tries left: the food, and the number of calls of `rand`.
unfoldable pub place_food : (ℕ → ℕ) → ℕ → ℕ → (ℕ → Pos) → ℕ → Pos → Pos × ℕ
place_food rand zero calls snake len food = (food, calls)
place_food rand (suc tries) calls snake len food =
    let p = draw_food rand calls in
    elim (on_snake snake len p) [
      | true ↦ place_food rand tries (calls + 2) snake len p
      | false ↦ (p, calls + 2)
    ]

-- The variables of `main`, with the number of calls of `rand`.
pub record Game : Type 0 where
  pub snake : ℕ → Pos
  pub len : ℕ
  pub cur : Dir
  pub food : Pos
  pub score : ℕ
  pub calls : ℕ

-- The new head.
abbrev pub move : Dir → Pos → Pos
move dir_up p = record p { y = p.y - 1 }
move dir_down p = record p { y = p.y + 1 }
move dir_left p = record p { x = p.x - 1 }
move dir_right p = record p { x = p.x + 1 }
move dir_none p = p

-- `memmove(snake + 1, snake, n * sizeof(pos_t))`, and then `snake[0] = head`.
unfoldable pub shift : (ℕ → Pos) → ℕ → Pos → ℕ → Pos
shift snake n head zero = head
shift snake n head (suc i) = if leb (suc i) n then snake i else snake (suc i)

-- The branch where the head is on the food.
unfoldable pub eat : (ℕ → ℕ) → Game → Game
eat rand g =
    let len = if ltb g.len maxlen then g.len + 1 else g.len in
    let (food, calls) = place_food rand 1000 g.calls g.snake len g.food in
    record g { len = len; food = food; score = g.score + 1; calls = calls }

-- The turn where nothing is hit.
unfoldable pub advance : (ℕ → ℕ) → Game → Pos → Game
advance rand g head =
    let fed = if same head g.food then eat rand g else g in
    record fed { snake = shift fed.snake (fed.len - 1) head }

-- How a turn ends.
pub data Turn : Type 0 where
  quits game_over : Turn
  goes_on : Game → Turn

-- A turn of the loop of `main`, from `apply_dirs` to the move, with what the channel holds.
unfoldable pub turn : (ℕ → ℕ) → Game → List Dir → Bool → Turn
turn rand g dirs closed =
    let cur = apply_dirs g.cur dirs in
    let head = move cur (g.snake 0) in
    if closed
    then quits
    else if hit_wall head || hit_self g.snake g.len head
    then game_over
    else goes_on (advance rand (record g { cur = cur }) head)

-- `tick_sleep`, with so many naps left, and what the channel holds at each.
unfoldable pub tick_sleep : ℕ → Dir → List (List Dir × Bool) → Dir
tick_sleep zero cur naps = cur
tick_sleep (suc left) cur [] = cur
tick_sleep (suc left) cur ((dirs, closed) ∷ naps) =
    let next = tick_sleep left (apply_dirs cur dirs) naps in
    if closed then apply_dirs cur dirs else next

-- What the input thread does during one turn and the sleep after it.
pub record Frame : Type 0 where
  pub dirs : List Dir
  pub closed : Bool
  pub naps : List (List Dir × Bool)

abbrev pub rested : Turn → List (List Dir × Bool) → Turn
rested (goes_on g) naps = goes_on (record g { cur = tick_sleep 28 g.cur naps })
rested t naps = t

-- The loop of `main`.
unfoldable pub play : (ℕ → ℕ) → Turn → List Frame → Turn
play rand (goes_on g) (f ∷ fs) = play rand (rested (turn rand g f.dirs f.closed) f.naps) fs
play rand t fs = t

-- `main` before the loop. What `snake` and `food` hold before they are set is arbitrary.
unfoldable pub new_game : (ℕ → ℕ) → (ℕ → Pos) → Pos → Game
new_game rand memory unset =
    let cells : ℕ → Pos =
      λ i. if ltb i 3 then record { x = width / 2 - i; y = height / 2 } else memory i in
    let (food, calls) = place_food rand 1000 0 cells 3 unset in
    record { snake = cells; len = 3; cur = dir_right; food = food; score = 0; calls = calls }
