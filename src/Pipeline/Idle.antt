-- ===== src/Pipeline/Idle.antt =====
-- When a thread sleeps, and which modes are read.
use libchan.Base.{
  ℕ, ◌≤◌, Bool, true, false, not, ◌||◌, Option, none, some, List, ◌==◌, leb, ltb, length, u32,
  if◌then◌else◌, if_true, if_false, Bool-cases, ◌≡◌, refl, sym, ap, subst, ◌∙◌, inl, inr, arith,
}
use libchan.Pipeline.Topology.{Packet, Port}
use libchan.Pipeline.Modes.{
  PollMode, poll_spin, poll_yield, poll_backoff, poll_block, Rest, spin_pause, sched_yield,
  sleep_usec, poll_idle, ports_have_backlog, node_idle, poll_mode_name, parse_poll_mode, at_colon,
  waited, suffixed, unsuffixed, parsed_at, parse_mode_opt,
}

abbrev pub sleeps : Rest → Bool
sleeps (sleep_usec n) = true
sleeps r = false

abbrev pub MaySleep : (Port → List Packet) → PollMode → List Port → Type 0
MaySleep queue poll_backoff ports = Unit
MaySleep queue poll_block ports = ports_have_backlog queue ports ≡ false
MaySleep queue m ports = ⊥

pub rested-late :
    (usec idle : ℕ)
    → sleeps
        (if ltb idle 40 then spin_pause else if ltb idle 200 then sched_yield else sleep_usec usec)
      ≡ true
    → 200 ≤ idle
rested-late usec idle h = ground arith

-- A node sleeps only after 200 looks in a row that found nothing, only in the backoff and the block
-- mode, and in the block mode only while all of its channels are empty.
pub node_idle-sleeps :
    (queue : Port → List Packet) (m : PollMode) (wait : ℕ) (ports : List Port) (idle : ℕ)
    → sleeps (node_idle queue m wait ports idle).0 ≡ true
    → (200 ≤ idle) × MaySleep queue m ports
unfolding node_idle poll_idle
node_idle-sleeps queue poll_spin wait ports idle h = cc
node_idle-sleeps queue poll_yield wait ports idle h = cc
node_idle-sleeps queue poll_backoff wait ports idle h = (rested-late 100 idle h, tt)
node_idle-sleeps queue poll_block wait ports idle h =
    elim (Bool-cases (ports_have_backlog queue ports)) [
      | inl e ↦ cc (sym (ap (λ (r : Rest × ℕ). sleeps r.0) (if_true _ _ e)) ∙ h)
      | inr e ↦
          (rested-late _ idle (sym (ap (λ (r : Rest × ℕ). sleeps r.0) (if_false _ _ e)) ∙ h), e)
    ]

-- The name that is printed for a mode is read back as that mode.
pub parse_mode_opt-poll_mode_name :
    (strtoul : List ℕ → ℕ × List ℕ) (m : PollMode)
    → parse_mode_opt strtoul (poll_mode_name m) ≡ some (m, none)
unfolding parse_mode_opt parse_poll_mode
parse_mode_opt-poll_mode_name strtoul poll_spin = refl
parse_mode_opt-poll_mode_name strtoul poll_yield = refl
parse_mode_opt-poll_mode_name strtoul poll_backoff = refl
parse_mode_opt-poll_mode_name strtoul poll_block = refl

-- The mode and the wait that come of a string are of this kind: a wait is a number that `strtoul` read,
-- cut to 32 bits, and the mode is then block.
abbrev pub FromBlock : (List ℕ → ℕ × List ℕ) → Option (PollMode × Option ℕ) → Type 0
FromBlock strtoul none = Unit
FromBlock strtoul (some (m, none)) = Unit
FromBlock strtoul (some (m, some w)) =
    (m ≡ poll_block)
    × ((digits : List ℕ) × (w ≡ u32 (strtoul digits).0) × (length (strtoul digits).1 ≡ 0))

waited-FromBlock :
    (strtoul : List ℕ → ℕ × List ℕ) (digits : List ℕ)
    → FromBlock strtoul (waited poll_block digits (strtoul digits))
waited-FromBlock strtoul digits =
    let bad =
      length (strtoul digits).1 == length digits
      || (not (length (strtoul digits).1 == 0) || (strtoul digits).0 == 0) in
    elim (Bool-cases bad) [
      | inl e ↦ subst (FromBlock strtoul) (sym (if_true _ _ e)) tt
      | inr e ↦ subst (FromBlock strtoul) (sym (if_false _ _ e)) (
        refl,
        (digits, refl, ended (length (strtoul digits).1) (length digits) (strtoul digits).0 e),
      )
    ]
  where
    ended : (a b c : ℕ) → (a == b || (not (a == 0) || c == 0)) ≡ false → a ≡ 0
    ended a b c h = ground arith

suffixed-FromBlock :
    (strtoul : List ℕ → ℕ × List ℕ) (o : Option PollMode) (digits : List ℕ)
    → FromBlock strtoul (suffixed strtoul o digits)
suffixed-FromBlock strtoul none digits = tt
suffixed-FromBlock strtoul (some poll_spin) digits = tt
suffixed-FromBlock strtoul (some poll_yield) digits = tt
suffixed-FromBlock strtoul (some poll_backoff) digits = tt
suffixed-FromBlock strtoul (some poll_block) digits = waited-FromBlock strtoul digits

unsuffixed-FromBlock :
    (strtoul : List ℕ → ℕ × List ℕ) (o : Option PollMode) → FromBlock strtoul (unsuffixed o)
unsuffixed-FromBlock strtoul none = tt
unsuffixed-FromBlock strtoul (some m) = tt

parsed_at-FromBlock :
    (strtoul : List ℕ → ℕ × List ℕ) (s : List ℕ) (o : Option (List ℕ × List ℕ))
    → FromBlock strtoul (parsed_at strtoul s o)
parsed_at-FromBlock strtoul s none = unsuffixed-FromBlock strtoul (parse_poll_mode s)
parsed_at-FromBlock strtoul s (some (name, digits)) =
    elim (Bool-cases (length name == 0 || leb 16 (length name))) [
      | inl e ↦ subst (FromBlock strtoul) (sym (if_true _ _ e)) tt
      | inr e ↦
          subst (FromBlock strtoul) (sym (if_false _ _ e))
            (suffixed-FromBlock strtoul (parse_poll_mode name) digits)
    ]

-- Whatever `strtoul` answers: where a string is read as a mode with a wait, the mode is block, and the
-- wait is a number that `strtoul` read to the end of the string, cut to 32 bits. In every other mode
-- a suffix is refused.
pub parse_mode_opt-FromBlock :
    (strtoul : List ℕ → ℕ × List ℕ) (s : List ℕ) → FromBlock strtoul (parse_mode_opt strtoul s)
unfolding parse_mode_opt
parse_mode_opt-FromBlock strtoul s = parsed_at-FromBlock strtoul s (at_colon s)
