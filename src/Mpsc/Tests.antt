-- ===== src/Mpsc/Tests.antt =====
-- Runs of the pipeline with inboxes.
use libchan.Base.{
  ℕ, ◌+◌, ◌-◌, ◌≤◌, ◌==◌, Bool, true, false, none, some, List, [], ◌∷◌, tabulate, u32,
  if◌then◌else◌, ◌≡◌, ◌≢◌, refl, inl, inr, arith,
}
use libchan.Pipeline.Topology.{
  PathId, path_tunnel_forward_tun, path_tun_forward_tunnel, Node, tun, forward, tunnel, path_id,
}
use libchan.Pipeline.Plane.{stat_on_recv, path_drained}
use libchan.Pipeline.Totals.{total_sent, total_recv, all_drained}
use libchan.Pipeline.Order.{flight}
use libchan.Mpsc.Boxes.{
  Box, Boxes, Event, receives, sends, injects, polls, run, start, node_receive, node_send,
  inject_packet, poll_done_try,
}
use libchan.Mpsc.Links.{view}
use libchan.Mpsc.Schedule.{boxes_in_order}
use libchan.Mpsc.Traffic.{Moment, Main, Ran, still, went, drain, run_traffic, status, begin}
use libchan.Mpsc.Counts.{run_traffic-clears, run_traffic-counts}
use libchan.Mpsc.Halts.{drain-ends}
use libchan.Mpsc.Stuck.{two_paths, slow_forward}
use libchan.Mpsc.Standstill.{run_traffic-stuck}

-- Packets of two paths meet in the inbox of `forward_node`.
abbrev mixed : List Event
mixed =
    injects path_tunnel_forward_tun
    ∷ injects path_tun_forward_tunnel
    ∷ receives tunnel
    ∷ receives tun
    ∷ sends tun
    ∷ sends tunnel
    ∷ injects path_tunnel_forward_tun
    ∷ receives forward
    ∷ sends forward
    ∷ receives tunnel
    ∷ sends tunnel
    ∷ receives tunnel
    ∷ sends tunnel
    ∷ polls
    ∷ []

boxes_in_order_example :
    let s = run (start (λ p. true)) mixed in
    let t = s.stats path_tunnel_forward_tun in
    (t.lost ≡ 0)
    × (t.dup ≡ 0)
    × (t.recv ≤ t.sent)
    × (flight (view s) path_tunnel_forward_tun ≡ tabulate (t.sent - t.recv) (λ j. u32 (t.recv + j)))
boxes_in_order_example = boxes_in_order (λ p. true) mixed path_tunnel_forward_tun (omega arith)

-- One packet of one path: `main` sends it, the nodes hand it on, and the drain counts it.
abbrev just : PathId → Bool
just p = path_id p == 2

abbrev at : ℕ → List (Node × Bool) → Moment
at now others = record { others = others; now = now }

abbrev journey : List Moment
journey =
    at 5 []
    ∷ at 6 ((tunnel, true) ∷ (tunnel, false) ∷ (forward, true) ∷ [])
    ∷ at 7 ((forward, false) ∷ (tun, true) ∷ (tun, false) ∷ [])
    ∷ at 8 []
    ∷ []

abbrev ended : Ran
ended = run_traffic false none 1 (begin just journey)

abbrev end_of : Ran → Main
end_of (went t) = t
end_of r = begin just []

journey-ends : ended ≡ went (end_of ended)
unfolding run_traffic node_receive node_send inject_packet poll_done_try stat_on_recv path_drained
journey-ends = refl

run_traffic-clears_example :
    let t = end_of ended in
    (status (went t) ≡ some 0)
    × (total_recv t.boxes.stats ≡ total_sent t.boxes.stats)
    × ((b : Box) → t.boxes.queue b ≡ [])
    × ((n : Node) → t.boxes.hand n ≡ none)
run_traffic-clears_example =
    run_traffic-clears false none 1 just journey (end_of ended) (omega arith) journey-ends

run_traffic-counts_example :
    let s = (end_of ended).boxes.stats path_tunnel_forward_tun in
    (s.recv ≡ (if just path_tunnel_forward_tun then 1 else 0)) × (s.lost ≡ 0) × (s.dup ≡ 0)
run_traffic-counts_example =
    run_traffic-counts false 1 just journey (end_of ended) path_tunnel_forward_tun (omega arith)
      (omega arith) journey-ends

-- Nobody handles the packet that was sent, and the clock goes past the timeout.
abbrev stuck : Boxes
stuck = run (start just) (injects path_tunnel_forward_tun ∷ [])

drain-ends_example :
    drain
      (λ s. all_drained s.stats)
      30
      (record { boxes = stuck; ahead = at 5 [] ∷ at 9 [] ∷ at 30000000005 [] ∷ [] })
    ≢ still
drain-ends_example =
    drain-ends (λ s. all_drained s.stats) 30 stuck (at 5 []) (at 9 [] ∷ at 30000000005 [] ∷ [])
      (inr (inl (omega arith)))

run_traffic-stuck_example :
    status (run_traffic true none 8193 (begin two_paths (slow_forward (at 30000000000 [] ∷ []))))
    ≡ some 1
run_traffic-stuck_example =
    run_traffic-stuck (at 30000000000 [] ∷ []) (inl (omega arith)) (omega arith)
