-- ===== src/Park/Schedule.antt =====
-- src/park.c: an interleaving of a thread in `chan_park_wait`, one in `chan_park_wake`, and the system.
use libchan.Base.{ℕ, suc, Bool, true, false, List, [], ◌∷◌, ℤ, pos, negsuc, ◌≡◌, sym, ◌∙◌}

-- Who moves next: the one, the other, or the system, which ends a sleep without a wake.
pub data Event : Type 0 where
  waits : Event
  wakes : Event
  interrupts : Event
  times_out : Event

-- The wait never times out in a schedule; with no limit it need not be said.
abbrev pub has_timeout : List Event → Bool
has_timeout [] = false
has_timeout (waits ∷ es) = has_timeout es
has_timeout (wakes ∷ es) = has_timeout es
has_timeout (interrupts ∷ es) = has_timeout es
has_timeout (times_out ∷ es) = true

abbrev pub InTime : ℤ → List Event → Type 0
InTime (pos n) es = has_timeout es ≡ false
InTime (negsuc n) es = Unit

pub InTime-same :
    (t : ℤ) (es ds : List Event) → has_timeout es ≡ has_timeout ds → InTime t es → InTime t ds
InTime-same (pos n) es ds e k = sym e ∙ k
InTime-same (negsuc n) es ds e k = tt

-- How often the thread in the wait moves.
abbrev pub turns : List Event → ℕ
turns [] = 0
turns (waits ∷ es) = suc (turns es)
turns (wakes ∷ es) = turns es
turns (interrupts ∷ es) = turns es
turns (times_out ∷ es) = turns es
