-- ===== src/Snake.antt =====
-- examples/snake_chan.c: a game of Snake, whose input thread sends directions over a channel to the
-- thread of the game.
pub mod Keys
pub mod Game
pub mod Board
pub mod Body
pub mod Turns
pub mod Hazards
pub mod Input
mod Tests
