-- ===== src/Pipeline/Modes.antt =====
-- examples/dplane_pipeline.c: what a thread does when it found no packet, and the names of these modes.
--
-- A string is the list of its characters, without the final 0. `strtoul` is a parameter: it answers
-- the number and what follows it.
use libchan.Base.{
  ℕ, ◌+◌, Bool, true, false, not, ◌&&◌, ◌||◌, Option, none, some, List, [], ◌∷◌, ◌==◌, leb, ltb,
  length, u32, if◌then◌else◌,
}
use libchan.Pipeline.Topology.{Packet, Port}

-- `poll_mode_t`
pub data PollMode : Type 0 where
  poll_spin poll_yield poll_backoff poll_block : PollMode

-- What the thread does before it looks again.
pub data Rest : Type 0 where
  no_rest spin_pause sched_yield : Rest
  sleep_usec : ℕ → Rest

abbrev pub escalated : ℕ → ℕ → Rest
escalated usec idle_spins =
    if ltb idle_spins 40
    then spin_pause
    else if ltb idle_spins 200
    then sched_yield
    else sleep_usec usec

-- `poll_idle`: also the counter that it leaves.
unfoldable pub poll_idle : PollMode → ℕ → ℕ → Rest × ℕ
poll_idle poll_spin block_wait_usec idle_spins = (no_rest, idle_spins)
poll_idle poll_yield block_wait_usec idle_spins = (sched_yield, idle_spins)
poll_idle poll_backoff block_wait_usec idle_spins = (escalated 100 idle_spins, idle_spins + 1)
poll_idle poll_block block_wait_usec idle_spins =
    (escalated (if ltb 0 block_wait_usec then block_wait_usec else 1) idle_spins, idle_spins + 1)

-- `ports_have_backlog`
abbrev pub ports_have_backlog : (Port → List Packet) → List Port → Bool
ports_have_backlog queue [] = false
ports_have_backlog queue (a ∷ rest) = ltb 0 (length (queue a)) || ports_have_backlog queue rest

abbrev pub is_block : PollMode → Bool
is_block poll_block = true
is_block m = false

-- `node_idle`
unfoldable pub node_idle : (Port → List Packet) → PollMode → ℕ → List Port → ℕ → Rest × ℕ
node_idle queue mode block_wait_usec ports idle =
    if is_block mode && ports_have_backlog queue ports
    then (spin_pause, idle)
    else poll_idle mode block_wait_usec idle

-- `strcmp(s, t) == 0`
abbrev pub same_string : List ℕ → List ℕ → Bool
same_string [] [] = true
same_string (c ∷ s) (d ∷ t) = c == d && same_string s t
same_string s t = false

-- `poll_mode_name`: "spin", "yield", "backoff" and "block".
abbrev pub poll_mode_name : PollMode → List ℕ
poll_mode_name poll_spin = 115 ∷ 112 ∷ 105 ∷ 110 ∷ []
poll_mode_name poll_yield = 121 ∷ 105 ∷ 101 ∷ 108 ∷ 100 ∷ []
poll_mode_name poll_backoff = 98 ∷ 97 ∷ 99 ∷ 107 ∷ 111 ∷ 102 ∷ 102 ∷ []
poll_mode_name poll_block = 98 ∷ 108 ∷ 111 ∷ 99 ∷ 107 ∷ []

-- `parse_poll_mode`
unfoldable pub parse_poll_mode : List ℕ → Option PollMode
parse_poll_mode s =
    if same_string s (poll_mode_name poll_spin)
    then some poll_spin
    else if same_string s (poll_mode_name poll_yield)
    then some poll_yield
    else if same_string s (poll_mode_name poll_backoff)
    then some poll_backoff
    else if same_string s (poll_mode_name poll_block)
    then some poll_block
    else none

-- `strchr(s, ':')`: what comes before the first colon, and what comes after it.
abbrev pub onto : ℕ → Option (List ℕ × List ℕ) → Option (List ℕ × List ℕ)
onto c none = none
onto c (some (before, after)) = some (c ∷ before, after)

abbrev pub at_colon : List ℕ → Option (List ℕ × List ℕ)
at_colon [] = none
at_colon (c ∷ s) = let rest = at_colon s in if c == 58 then some ([], s) else onto c rest

-- The mode and, where it was given, the wait of the block mode: the number that `strtoul` reads, if it
-- reads something, up to the end, and not 0.
abbrev pub waited : PollMode → List ℕ → ℕ × List ℕ → Option (PollMode × Option ℕ)
waited m digits (w, end) =
    if length end == length digits || (not (length end == 0) || w == 0)
    then none
    else some (m, some (u32 w))

abbrev pub suffixed :
    (List ℕ → ℕ × List ℕ) → Option PollMode → List ℕ → Option (PollMode × Option ℕ)
suffixed strtoul none digits = none
suffixed strtoul (some m) digits =
    if not (is_block m) then none else waited m digits (strtoul digits)

abbrev pub unsuffixed : Option PollMode → Option (PollMode × Option ℕ)
unsuffixed none = none
unsuffixed (some m) = some (m, none)

abbrev pub parsed_at :
    (List ℕ → ℕ × List ℕ) → List ℕ → Option (List ℕ × List ℕ) → Option (PollMode × Option ℕ)
parsed_at strtoul s none = unsuffixed (parse_poll_mode s)
parsed_at strtoul s (some (name, digits)) =
    if length name == 0 || leb 16 (length name)
    then none
    else suffixed strtoul (parse_poll_mode name) digits

-- `parse_mode_opt`
unfoldable pub parse_mode_opt : (List ℕ → ℕ × List ℕ) → List ℕ → Option (PollMode × Option ℕ)
parse_mode_opt strtoul s = parsed_at strtoul s (at_colon s)
