-- ===== src/Mpsc/Traffic.antt =====
-- examples/dplane_pipeline_mpsc.c: the loops in which `main` injects packets and waits for them.
--
-- What happens around `main` is a list of moments, one for each time that it looks at the clock or tries
-- to send: what the nodes have done meanwhile, and the clock. A run that is out of moments goes on still.
-- A `double` duration that is above 0 is given in nanoseconds; pauses and latencies are left out, and so
-- is the failure of a send, since no inbox is closed before these loops end.
use libchan.Base.{
  ℕ, zero, suc, ◌+◌, ◌*◌, Bool, not, ◌&&◌, Option, none, some, List, [], ◌∷◌, length, ltb,
  if◌then◌else◌,
}
use libchan.Pipeline.Topology.{PathId, Node}
use libchan.Pipeline.Plane.{path_drained}
use libchan.Pipeline.Totals.{all_paths, all_drained, enabled_path_count, exit_status}
use libchan.Mpsc.Boxes.{
  Boxes, inject_inbox, has_room, node_receive, node_send, inject_packet, poll_done_try, start,
}

-- The nodes' events, each a receive or a send, and `now_ns`.
pub record Moment : Type 0 where
  pub others : List (Node × Bool)
  pub now : ℕ

abbrev pub node_event : Boxes → Node × Bool → Boxes
node_event s (n, receives) = if receives then node_receive n s else node_send n s

abbrev pub meanwhile : Boxes → List (Node × Bool) → Boxes
meanwhile s [] = s
meanwhile s (t ∷ ts) = meanwhile (node_event s t) ts

-- Where `main` stands, with the moments to come.
pub record Main : Type 0 where
  pub boxes : Boxes
  pub ahead : List Moment

-- It goes on still; it returned -1; or it returned 0.
pub data Ran : Type 0 where
  still : Ran
  failed : Boxes → Ran
  went : Main → Ran

infixl 5 ◌>>=◌
abbrev pub ◌>>=◌ : Ran → (Main → Ran) → Ran
still >>= f = still
failed s >>= f = failed s
went s >>= f = f s

-- `inject_packet`, which blocks while the inbox is full, and the `poll_done_try` behind it.
abbrev pub inject_wait : PathId → Boxes → List Moment → Ran
inject_wait p s [] = still
inject_wait p s (m ∷ ms) =
    let s' = meanwhile s m.others in
    let later = inject_wait p s' ms in
    if has_room s' (inject_inbox p)
    then went (record { boxes = poll_done_try (inject_packet p s'); ahead = ms })
    else later

-- `inject_round`, over the paths that are left.
abbrev pub inject_round : List PathId → Main → Ran
inject_round [] s = went s
inject_round (p ∷ ps) s =
    if not (s.boxes.stats p).enabled
    then inject_round ps s
    else do t ← inject_wait p s.boxes s.ahead; inject_round ps t

-- The loops for a number of rounds, and until a time. The second makes at most `fuel` rounds.
abbrev pub repeat : ℕ → (Main → Ran) → Main → Ran
repeat zero f s = went s
repeat (suc n) f s = do t ← f s; repeat n f t

abbrev pub looks : Main → (ℕ → Main → Ran) → Ran
looks s f = elim s.ahead [
  | [] ↦ still
  | m ∷ ms ↦ f m.now (record { boxes = meanwhile s.boxes m.others; ahead = ms })
]

abbrev pub until : ℕ → ℕ → (Main → Ran) → Main → Ran
until zero deadline f s = still
until (suc fuel) deadline f s =
    looks s (λ now t. if ltb now deadline then (do u ← f t; until fuel deadline f u) else went t)

-- The loop of a traffic: for `count` rounds, or for a duration.
abbrev pub rounds : Option ℕ → ℕ → (Main → Ran) → Main → Ran
rounds none count f s = repeat count f s
rounds (some duration) count f s =
    looks s (λ now t. until (suc (length t.ahead)) (now + duration) f t)

-- `drain_remaining` and `drain_path`: `done` is what they test.
abbrev pub drain_loop : ℕ → (Boxes → Bool) → Boxes → List Moment → Ran
drain_loop deadline done s [] = still
drain_loop deadline done s (m ∷ ms) =
    let s' = meanwhile s m.others in
    let later = drain_loop deadline done (poll_done_try s') ms in
    if ltb m.now deadline
    then (if done s' then went (record { boxes = s'; ahead = ms }) else later)
    else failed s'

abbrev pub drain : (Boxes → Bool) → ℕ → Main → Ran
drain done timeout_sec s =
    looks s (λ now t. drain_loop (now + timeout_sec * 1000000000) done t.boxes t.ahead)

-- DRAIN_SEC
abbrev pub drain_sec : ℕ
drain_sec = 30

abbrev pub drain_path : PathId → Main → Ran
drain_path p = drain (λ s. path_drained (s.stats p)) drain_sec

abbrev pub drain_remaining : Main → Ran
drain_remaining = drain (λ s. all_drained s.stats) drain_sec

-- `run_traffic_parallel`
abbrev pub run_traffic_parallel : Option ℕ → ℕ → Main → Ran
run_traffic_parallel duration count = rounds duration count (inject_round all_paths)

-- `run_traffic_sequential`, over the paths that are left.
abbrev pub run_traffic_sequential : Option ℕ → ℕ → List PathId → Main → Ran
run_traffic_sequential duration count [] s = went s
run_traffic_sequential duration count (p ∷ ps) s =
    if not (s.boxes.stats p).enabled then run_traffic_sequential duration count ps s else do
      t ← rounds duration count (λ u. inject_wait p u.boxes u.ahead) s
      v ← drain_path p t
      run_traffic_sequential duration count ps v

-- `run_traffic`
unfoldable pub run_traffic : Bool → Option ℕ → ℕ → Main → Ran
run_traffic parallel duration count s = do
  t ←
      (if ltb 1 (enabled_path_count s.boxes.stats) && not parallel
        then run_traffic_sequential duration count all_paths s
        else run_traffic_parallel duration count s)
  drain_remaining t

-- What `main` returns.
abbrev pub status : Ran → Option ℕ
status still = none
status (failed s) = some 1
status (went s) = some (exit_status s.boxes.stats)

abbrev pub begin : (PathId → Bool) → List Moment → Main
begin on_path ahead = record { boxes = start on_path; ahead = ahead }
