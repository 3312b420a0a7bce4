-- ===== src/Snake/Keys.antt =====
-- examples/snake_chan.c: the input thread, from the bytes that it reads to the directions it sends.
--
-- The answers of `read_byte` are a list, with `none` for -1; after the end of the list it answers -1.
use libchan.Base.{
  ℕ, zero, suc, Bool, true, false, ◌&&◌, ◌||◌, Option, none, some, List, [], ◌∷◌, ◌==◌, leb,
  if◌then◌else◌,
}

-- `dir_t`
pub data Dir : Type 0 where
  dir_up dir_down dir_left dir_right dir_none : Dir

-- `opposite`
abbrev pub opposite : Dir → Dir → Bool
opposite dir_up dir_down = true
opposite dir_down dir_up = true
opposite dir_left dir_right = true
opposite dir_right dir_left = true
opposite a b = false

-- The inner `switch` of `read_escape_seq`, on 'A' to 'D'.
abbrev pub arrow : ℕ → Dir
arrow f =
    if f == 65
    then dir_up
    else if f == 66
    then dir_down
    else if f == 67
    then dir_right
    else if f == 68
    then dir_left
    else dir_none

-- A byte from 'A' to '~' ends the sequence.
abbrev pub is_final : ℕ → Bool
is_final f = leb 65 f && leb f 126

-- After ESC [.
unfoldable pub read_csi : List (Option ℕ) → Dir × List (Option ℕ)
read_csi [] = (dir_none, [])
read_csi (none ∷ rest) = (dir_none, rest)
read_csi (some f ∷ rest) = let more = read_csi rest in if is_final f then (arrow f, rest) else more

-- After ESC O.
abbrev pub read_ss3 : List (Option ℕ) → Dir × List (Option ℕ)
read_ss3 [] = (dir_none, [])
read_ss3 (none ∷ rest) = (dir_none, rest)
read_ss3 (some f ∷ rest) = (arrow f, rest)

-- `read_escape_seq`: the direction, and what is left to read.
unfoldable pub read_escape_seq : List (Option ℕ) → Dir × List (Option ℕ)
read_escape_seq [] = (dir_none, [])
read_escape_seq (none ∷ rest) = (dir_none, rest)
read_escape_seq (some c ∷ rest) =
    if c == 79 then read_ss3 rest else if c == 91 then read_csi rest else (dir_none, rest)

-- `key_to_dir`: 'w', 'W', 's', 'S', 'a', 'd' and 'D'.
unfoldable pub key_to_dir : ℕ → Dir
key_to_dir c =
    if c == 119 || c == 87
    then dir_up
    else if c == 115 || c == 83
    then dir_down
    else if c == 97
    then dir_left
    else if c == 100 || c == 68
    then dir_right
    else dir_none

abbrev pub is_none : Dir → Bool
is_none dir_none = true
is_none d = false

-- The direction of the key `c`, and what is left to read.
unfoldable pub read_dir : ℕ → List (Option ℕ) → Dir × List (Option ℕ)
read_dir c rest =
    let d = key_to_dir c in if is_none d && c == 27 then read_escape_seq rest else (d, rest)

abbrev pub sent : Dir → List Dir → List Dir
sent d ds = if is_none d then ds else d ∷ ds

-- The directions that `input_thread` sends in so many turns of its loop, and whether it then has
-- closed the channel.
unfoldable pub input_thread : ℕ → List (Option ℕ) → List Dir × Bool
input_thread zero bytes = ([], false)
input_thread (suc turns) [] = ([], false)
input_thread (suc turns) (none ∷ rest) = input_thread turns rest
input_thread (suc turns) (some c ∷ rest) =
    let (d, left) = read_dir c rest in
    let (ds, closed) = input_thread turns left in
    if c == 113 || c == 81 then ([], true) else (sent d ds, closed)
