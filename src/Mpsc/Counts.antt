-- ===== src/Mpsc/Counts.antt =====
-- The end of `run_traffic`: what `main` finds when it returns 0.
use libchan.Base.{
  ℕ, ◌+◌, ◌*◌, ◌^◌, ◌≤◌, ◌<◌, Bool, true, false, not, ◌&&◌, Option, none, some, List, [], ◌≡◌, refl,
  sym, ap, subst, ◌∙◌, ltb, if◌then◌else◌, if_true, if_false, Bool-cases, inl, inr, arith,
}
use libchan.Pipeline.Topology.{PathId, Node}
use libchan.Pipeline.Plane.{u64}
use libchan.Pipeline.Totals.{all_paths, all_drained, enabled_path_count, total_sent, total_recv}
use libchan.Pipeline.Accounts.{settled}
use libchan.Pipeline.Order.{InOrder, flight}
use libchan.Pipeline.Schedule.{start-InOrder}
use libchan.Pipeline.Exit.{all_drained-each}
use libchan.Mpsc.Boxes.{Box}
use libchan.Mpsc.Links.{view}
use libchan.Mpsc.Exit.{drained-clears}
use libchan.Mpsc.Traffic.{
  Moment, Main, Ran, went, inject_round, run_traffic_parallel, run_traffic_sequential, drain_sec,
  drain_remaining, run_traffic, status, begin,
}
use libchan.Mpsc.Sends.{cost}
use libchan.Mpsc.Loops.{Holds, Holds-bind, SendsAt, Reaches, times, inject_round-Sends}
use libchan.Mpsc.Delivers.{rounds-Reaches, drain-Reaches, sequential-Reaches}

-- What each path is to send.
abbrev pub planned : (PathId → Bool) → ℕ → PathId → ℕ
planned on_path count q = 0 + count * times on_path all_paths q

module _ (bound : ℕ) (on_path : PathId → Bool) where
  -- All traffic, and then the drain.
  Settled : Option ℕ → (PathId → ℕ) → Main → Type 0
  Settled duration k t = Reaches bound on_path duration k t × (all_drained t.boxes.stats ≡ true)

  traffic-Settled :
      (parallel : Bool) (duration : Option ℕ) (count : ℕ) (k : PathId → ℕ) (s : Main)
      → Reaches bound on_path duration k s
      → Holds
          (Settled duration (λ q. k q + count * times on_path all_paths q))
          (run_traffic parallel duration count s)
  unfolding run_traffic Settled
  traffic-Settled parallel duration count k s h =
      let j : PathId → ℕ = λ q. k q + count * times on_path all_paths q in
      let in_turn : Ran = run_traffic_sequential duration count all_paths s in
      let at_once : Ran = run_traffic_parallel duration count s in
      let split : Bool = ltb 1 (enabled_path_count s.boxes.stats) && not parallel in
      Holds-bind (Reaches bound on_path duration j) (Settled duration j)
        (if split then in_turn else at_once) drain_remaining
        (elim (Bool-cases split) [
          | inl e ↦
              subst (Holds (Reaches bound on_path duration j)) (sym (if_true in_turn at_once e))
                (sequential-Reaches bound on_path duration count all_paths k s h)
          | inr e ↦
              subst (Holds (Reaches bound on_path duration j)) (sym (if_false in_turn at_once e)) (
                rounds-Reaches bound on_path (times on_path all_paths) (inject_round all_paths)
                  (λ i u g. inject_round-Sends bound on_path all_paths i u g) duration count k s h)
        ])
        (λ t g. drain-Reaches bound on_path duration (λ b. all_drained b.stats) drain_sec j t g)

  in-order :
      (duration : Option ℕ) (k : PathId → ℕ) (s : Main)
      → Reaches bound on_path duration k s
      → (m : ℕ) × (m ≤ bound) × InOrder (view s.boxes) m
  in-order none k s h = (h.events, omega (arith, h.budget), h.order)
  in-order (some duration) k s (j, h) = (h.events, omega (arith, h.budget), h.order)

begin-Sends :
    (on_path : PathId → Bool) (ms : List Moment)
    → SendsAt (cost ms) on_path (λ q. 0) (begin on_path ms)
begin-Sends on_path ms = record {
  events = 0;
  order = start-InOrder on_path;
  budget = omega arith;
  enabled_lem = λ q. refl;
  sent_lem = λ q. refl;
}

begin-Reaches :
    (on_path : PathId → Bool) (ms : List Moment) (duration : Option ℕ)
    → Reaches (cost ms) on_path duration (λ q. 0) (begin on_path ms)
begin-Reaches on_path ms none = begin-Sends on_path ms
begin-Reaches on_path ms (some duration) = (λ q. 0, begin-Sends on_path ms)

returned :
    (parallel : Bool) (duration : Option ℕ) (count : ℕ) (on_path : PathId → Bool) (ms : List Moment)
    (t : Main)
    → run_traffic parallel duration count (begin on_path ms) ≡ went t
    → Settled (cost ms) on_path duration (planned on_path count) t
returned parallel duration count on_path ms t e =
    subst (Holds (Settled (cost ms) on_path duration (planned on_path count))) e (
      traffic-Settled (cost ms) on_path parallel duration count (λ q. 0) (begin on_path ms)
        (begin-Reaches on_path ms duration))

-- Whatever the nodes do meanwhile, within 2 ^ 64 events, with one path after the other or all at once,
-- for a count or for a time: where `run_traffic` returns 0, `main` returns 0, as many packets were
-- received as sent, and all inboxes and all hands of the nodes are empty.
pub run_traffic-clears :
    (parallel : Bool) (duration : Option ℕ) (count : ℕ) (on_path : PathId → Bool) (ms : List Moment)
    (t : Main)
    → cost ms < 2 ^ 64
    → run_traffic parallel duration count (begin on_path ms) ≡ went t
    → (status (went t) ≡ some 0)
      × (total_recv t.boxes.stats ≡ total_sent t.boxes.stats)
      × ((b : Box) → t.boxes.queue b ≡ [])
      × ((n : Node) → t.boxes.hand n ≡ none)
unfolding Settled
run_traffic-clears parallel duration count on_path ms t few e =
    let (reached, drained) = returned parallel duration count on_path ms t e in
    let (m, le, order) = in-order (cost ms) on_path duration (planned on_path count) t reached in
    let (exit, totals, boxes, hands) =
      drained-clears t.boxes m order (omega (arith, few, le)) drained in
    (ap some exit, totals, boxes, hands)

times-all :
    (on_path : PathId → Bool) (q : PathId)
    → times on_path all_paths q ≡ (if on_path q then 1 else 0)
times-all on_path q = ground arith

-- Whatever the nodes do meanwhile, within 2 ^ 64 events, with one path after the other or all at once:
-- where `run_traffic` returns 0 in a run for a count, every enabled path has received exactly that many
-- packets and every other path none, and no packet was lost or came twice.
pub run_traffic-counts :
    (parallel : Bool) (count : ℕ) (on_path : PathId → Bool) (ms : List Moment) (t : Main)
    (p : PathId)
    → cost ms < 2 ^ 64
    → count < 2 ^ 64
    → run_traffic parallel none count (begin on_path ms) ≡ went t
    → let s = t.boxes.stats p in
      (s.recv ≡ (if on_path p then count else 0)) × (s.lost ≡ 0) × (s.dup ≡ 0)
unfolding Settled
run_traffic-counts parallel count on_path ms t p few small e =
    let (reached, drained) = returned parallel none count on_path ms t e in
    let (m, le, order) = in-order (cost ms) on_path none (planned on_path count) t reached in
    let within : m < 2 ^ 64 = omega (arith, few, le) in
    let each =
      all_drained-each t.boxes.stats (flight (view t.boxes)) m order.accounts within drained p in
    let (lost, dup, le_sent, others) = settled _ _ m within (order.accounts p) in
    (
      each.0
          ∙ reached.sent_lem p
          ∙ ap (λ (i : ℕ). u64 (0 + count * i)) (times-all on_path p)
          ∙ counted (on_path p),
      lost,
      dup,
    )
  where
    counted : (b : Bool) → u64 (0 + count * (if b then 1 else 0)) ≡ (if b then count else 0)
    counted true = omega (arith, small)
    counted false = omega arith
