-- ===== src/Mpsc/Nodes.antt =====
-- examples/dplane_pipeline_mpsc.c: a turn of a node's loop on its inbox.
use libchan.Base.{
  ℕ, suc, ◌≤◌, Bool, true, false, ◌&&◌, List, [], ◌∷◌, length, ltb, if◌then◌else◌, if_true,
  if_false, Bool-cases, ◌≡◌, refl, sym, ap, subst, ◌⊎◌, inl, inr, arith,
}
use libchan.Pipeline.Topology.{Packet}
use libchan.Pipeline.Modes.{
  PollMode, poll_spin, poll_yield, poll_backoff, poll_block, is_block, Rest, spin_pause, poll_idle,
  escalated,
}
use libchan.Pipeline.Idle.{sleeps, rested-late}

-- What a node sees at its turn: the inbox when it tries to receive, and behind that, when others may
-- have sent meanwhile, whether the inbox is closed and what is in it then.
pub record View : Type 0 where
  pub stop : Bool
  pub received : List Packet
  pub closed : Bool
  pub later : List Packet
  pub mode : PollMode
  pub block_wait_usec : ℕ
  pub idle : ℕ

-- It receives, ends, or pauses, with its counter then.
pub data Turn : Type 0 where
  takes : Packet → Turn
  ends : Turn
  pauses : Rest → ℕ → Turn

-- `node_idle_one`
abbrev pub node_idle_one : PollMode → ℕ → List Packet → ℕ → Rest × ℕ
node_idle_one mode block_wait_usec inbox idle =
    if is_block mode && ltb 0 (length inbox)
    then (spin_pause, idle)
    else poll_idle mode block_wait_usec idle

-- `inbox_done`
abbrev inbox_done : View → Bool
inbox_done v = v.closed

-- The loop that `tun_node`, `forward_node`, `enc_node`, `tunnel_node` and `oam_node` have in common, up to
-- the handler.
abbrev rests : Rest × ℕ → Turn
rests (r, idle) = pauses r idle

abbrev otherwise : View → List Packet → Turn
otherwise v (x ∷ rest) = takes x
otherwise v [] =
    if inbox_done v then ends else rests (node_idle_one v.mode v.block_wait_usec v.later v.idle)

unfoldable pub node_turn : View → Turn
node_turn v = if v.stop then ends else otherwise v v.received

-- What a turn means.
abbrev pub Front : Packet → List Packet → Type 0
Front x [] = ⊥
Front x (y ∷ rest) = x ≡ y

abbrev pub Blocks : PollMode → List Packet → Type 0
Blocks poll_block inbox = inbox ≡ []
Blocks m inbox = Unit

abbrev pub Means : View → Turn → Type 0
Means v (takes x) = (v.stop ≡ false) × Front x v.received
Means v ends = (v.stop ≡ true) ⊎ ((v.received ≡ []) × (v.closed ≡ true))
Means v (pauses r idle) =
    (v.stop ≡ false)
    × (v.received ≡ [])
    × (v.closed ≡ false)
    × ((sleeps r ≡ false) ⊎ ((200 ≤ v.idle) × Blocks v.mode v.later))

node_idle_one-rests :
    (m : PollMode) (wait : ℕ) (inbox : List Packet) (idle : ℕ)
    → let r = (node_idle_one m wait inbox idle).0 in
      (sleeps r ≡ false) ⊎ ((200 ≤ idle) × Blocks m inbox)
unfolding poll_idle
node_idle_one-rests poll_spin wait inbox idle = inl refl
node_idle_one-rests poll_yield wait inbox idle = inl refl
node_idle_one-rests poll_backoff wait inbox idle = elim (Bool-cases (sleeps (escalated 100 idle))) [
  | inl e ↦ inr (rested-late 100 idle e, tt)
  | inr e ↦ inl e
]
node_idle_one-rests poll_block wait (x ∷ rest) idle =
    inl (ap (λ (r : Rest × ℕ). sleeps r.0) (if_true _ _ (some_there (length rest))))
  where
    some_there : (n : ℕ) → ltb 0 (suc n) ≡ true
    some_there n = ground arith
node_idle_one-rests poll_block wait [] idle =
    let usec = if ltb 0 wait then wait else 1 in
    elim (Bool-cases (sleeps (escalated usec idle))) [
      | inl e ↦ inr (rested-late usec idle e, refl)
      | inr e ↦ inl e
    ]

otherwise-Means :
    (v : View) (q : List Packet) → v.stop ≡ false → v.received ≡ q → Means v (otherwise v q)
otherwise-Means v (x ∷ rest) s e = (s, subst (Front x) (sym e) refl)
otherwise-Means v [] s e =
    let pause = rests (node_idle_one v.mode v.block_wait_usec v.later v.idle) in
    elim (Bool-cases v.closed) [
      | inl c ↦ subst (Means v) (sym (if_true ends pause c)) (inr (e, c))
      | inr c ↦
          subst (Means v) (sym (if_false ends pause c))
            (s, e, c, node_idle_one-rests v.mode v.block_wait_usec v.later v.idle)
    ]

-- At every turn, whatever comes into the inbox between the receive and the pause: a node that receives
-- was not told to stop and takes the oldest packet of its inbox; one that ends was told to stop, or found
-- its inbox empty and then closed; one that pauses was not told to stop and found its inbox empty and
-- open, and it sleeps only after 200 looks in a row that found nothing, and in the block mode only where
-- the inbox is empty still.
pub inbox_turn-Means : (v : View) → Means v (node_turn v)
unfolding node_turn
inbox_turn-Means v = elim (Bool-cases v.stop) [
  | inl s ↦ subst (Means v) (sym (if_true ends (otherwise v v.received) s)) (inl s)
  | inr s ↦
      subst (Means v) (sym (if_false ends (otherwise v v.received) s))
        (otherwise-Means v v.received s refl)
]
