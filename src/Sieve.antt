-- ===== src/Sieve.antt =====
-- examples/sieve_primes.c: a chain of threads, one for each prime, with a channel of one place between
-- any two.
--
-- An event is one channel operation of a thread, and what follows of it up to the next; a call that would
-- block is an event that does nothing. A channel is the list of its numbers. A send never meets a closed
-- channel, since each channel is closed by the one thread that sends into it.
pub mod Stream
pub mod Output
pub mod Primes
pub mod Pull
pub mod Ends
mod Tests
use libchan.Base.{
  ℕ, zero, suc, ◌+◌, ◌%◌, Bool, true, false, ◌&&◌, Option, none, some, List, [], ◌∷◌, ◌++◌, length,
  ltb, leb, ◌==◌, if◌then◌else◌,
}

-- LIMIT
abbrev pub limit : ℕ
limit = 541

-- The threads with the channels that they send into: `generate` with its next number, and `filter` with
-- its prime, the number that it is to send, and what it receives from. A channel has its numbers and
-- whether it is closed.
pub data Chain : Type 0 where
  generate : ℕ → List ℕ → Bool → Chain
  filter : ℕ → Option ℕ → List ℕ → Bool → Chain → Chain

abbrev pub has_room : List ℕ → Bool
has_room q = ltb (length q) 1

abbrev pub is_empty : List ℕ → Bool
is_empty [] = true
is_empty (x ∷ q) = false

-- `chan_recv` from the end of a chain, where there is a number, and where the channel is closed and empty.
abbrev pub receive : Chain → Option (ℕ × Chain)
receive (generate i [] closed) = none
receive (generate i (x ∷ q) closed) = some (x, generate i q closed)
receive (filter p hand [] closed up) = none
receive (filter p hand (x ∷ q) closed up) = some (x, filter p hand q closed up)

abbrev pub ended : Chain → Bool
ended (generate i q closed) = closed && is_empty q
ended (filter p hand q closed up) = closed && is_empty q

-- The next operation of `generate`.
unfoldable pub generate_step : ℕ → List ℕ → Bool → Chain
generate_step i q closed =
    if closed
    then generate i q closed
    else if leb i limit
    then (if has_room q then generate (i + 1) (q ++ (i ∷ [])) closed else generate i q closed)
    else generate i q true

-- The next operation of `filter`.
abbrev pub received : ℕ → List ℕ → Chain → Option (ℕ × Chain) → Chain
received p q up none = filter p none q (ended up) up
received p q up (some (i, up')) =
    if i % p == 0 then filter p none q false up' else filter p (some i) q false up'

abbrev pub filter_step : ℕ → Option ℕ → List ℕ → Bool → Chain → Chain
filter_step p hand q true up = filter p hand q true up
filter_step p none q false up = received p q up (receive up)
filter_step p (some i) q false up =
    if has_room q then filter p none (q ++ (i ∷ [])) false up else filter p (some i) q false up

-- The thread that is the `n`-th from the end of the chain.
abbrev pub thread_step : ℕ → Chain → Chain
thread_step n (generate i q closed) = generate_step i q closed
thread_step zero (filter p hand q closed up) = filter_step p hand q closed up
thread_step (suc n) (filter p hand q closed up) = filter p hand q closed (thread_step n up)

-- `main`, with what it has printed and whether its loop is over.
pub record Main : Type 0 where
  pub printed : List ℕ
  pub chain : Chain
  pub over : Bool

abbrev pub sieved : Main → Option (ℕ × Chain) → Main
sieved m none = record m { over = ended m.chain }
sieved m (some (p, up)) = record {
  printed = m.printed ++ (p ∷ []);
  chain = filter p none [] false up;
  over = false;
}

abbrev pub main_step : Main → Main
main_step m = if m.over then m else sieved m (receive m.chain)

pub data Event : Type 0 where
  threads : ℕ → Event
  mains : Event

abbrev pub step : Main → Event → Main
step m (threads n) = record m { chain = thread_step n m.chain }
step m mains = main_step m

unfoldable pub run : Main → List Event → Main
run m [] = m
run m (e ∷ es) = run (step m e) es

abbrev pub begin : Main
begin = record { printed = []; chain = generate 2 [] false; over = false }
