-- ===== src/Snake/Tests.antt =====
-- A short game, and a key.
use libchan.Base.{ℕ, ◌+◌, ◌-◌, false, List, [], ◌∷◌, ◌≡◌, refl, arith}
use libchan.Snake.Keys.{dir_up, dir_left, dir_right}
use libchan.Snake.Game.{Pos, Game, game_over, goes_on, Frame, turn, play, new_game}
use libchan.Snake.Hazards.{turn-reversed}
use libchan.Snake.Turns.{StillPlaying, game-Playing}

abbrev counter : ℕ → ℕ
counter n = 22 + n

abbrev origin : Pos
origin = record { x = 0; y = 0 }

-- Up, and then nothing.
abbrev frames : List Frame
frames =
    record { dirs = dir_up ∷ []; closed = false; naps = [] }
    ∷ record { dirs = []; closed = false; naps = (dir_left ∷ [], false) ∷ [] }
    ∷ []

abbrev first_game : Game
first_game = record {
  snake = λ i. record { x = 22 - i; y = 12 };
  len = 3;
  cur = dir_right;
  food = record { x = 23; y = 12 };
  score = 0;
  calls = 0;
}

game-Playing_example :
    StillPlaying (play counter (goes_on (new_game counter (λ i. origin) origin)) frames)
game-Playing_example =
    game-Playing counter (λ i. origin) origin frames
      (((refl, tt), tt), ((tt, ((refl, tt), tt)), tt))

turn-reversed_example : turn counter first_game (dir_up ∷ dir_left ∷ []) false ≡ game_over
turn-reversed_example =
    turn-reversed counter first_game dir_up dir_left refl refl refl (omega arith)
