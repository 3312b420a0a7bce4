-- ===== src/Pipeline/Plane.antt =====
-- examples/dplane_pipeline.c: what the threads do to the channels and the accounts.
--
-- A channel is the list of its packets, oldest first, as `Chan.Send.Try` and `Chan.Recv.Try` have
-- it. A node's turn is two events, the receive and the send that the handler makes of it, since
-- other threads act in between; a call that would block is an event that does nothing. Times are
-- left out of `done_msg_t`, which then has the fields of `pkt_t`.
use libchan.Base.{
  ℕ, ◌+◌, ◌-◌, ◌%◌, ◌^◌, Bool, not, ◌&&◌, ◌||◌, Option, none, some, List, [], ◌∷◌, ◌++◌, length,
  ltb, leb, ◌==◌, if◌then◌else◌, u32,
}
use libchan.Pipeline.Topology.{
  PathId, Packet, Port, Node, ports, handle, inject_ch, port_id, node_id, path_id, on, done_tun,
  done_tunnel, done_oam,
}

-- `path_stat_t`. `sent` to `lost` are `uint64_t`.
pub record PathStat : Type 0 where
  pub enabled : Bool
  pub sent : ℕ
  pub recv : ℕ
  pub dup : ℕ
  pub lost : ℕ
  pub next_expected : ℕ

-- CHAN_CAP
abbrev pub chan_cap : ℕ
chan_cap = 4096

-- `uint64_t`
abbrev pub u64 : ℕ → ℕ
u64 n = n % 2 ^ 64

-- `stat_on_recv`, without the latency.
unfoldable pub stat_on_recv : PathStat → ℕ → PathStat
stat_on_recv s seq =
    if not s.enabled
    then s
    else if ltb seq s.next_expected
    then record s { dup = u64 (s.dup + 1) }
    else if ltb s.next_expected seq
    then record s {
      lost = u64 (s.lost + (seq - s.next_expected));
      next_expected = u32 (seq + 1);
      recv = u64 (s.recv + 1);
    }
    else record s { next_expected = u32 (s.next_expected + 1); recv = u64 (s.recv + 1) }

-- `path_drained` and `path_ok`
unfoldable pub path_drained : PathStat → Bool
path_drained s = leb s.sent (u64 (s.recv + s.dup))

unfoldable pub path_ok : PathStat → Bool
path_ok s = not s.enabled || (s.lost == 0 && (s.dup == 0 && s.recv == s.sent))

-- The channels of `plane_t`, what each node has received and not yet sent on, with the port that
-- its handler chose, and the accounts.
pub record Plane : Type 0 where
  pub queue : Port → List Packet
  pub hand : Node → Option (Port × Packet)
  pub stats : PathId → PathStat

abbrev pub set_queue : Plane → Port → List Packet → Plane
set_queue pl a q = record pl { queue = λ b. if port_id b == port_id a then q else pl.queue b }

abbrev pub set_hand : Plane → Node → Option (Port × Packet) → Plane
set_hand pl n h = record pl { hand = λ m. if node_id m == node_id n then h else pl.hand m }

abbrev pub set_stats : Plane → PathId → PathStat → Plane
set_stats pl p s = record pl { stats = λ q. if path_id q == path_id p then s else pl.stats q }

-- What a handler makes of a packet: a send to come, or nothing.
abbrev pub in_hand : Option Port → Packet → Option (Port × Packet)
in_hand none x = none
in_hand (some b) x = some (b, x)

-- A node that has nothing in hand receives from one of its ports.
abbrev pub take : Node → Port → Plane → List Packet → Plane
take n a pl [] = pl
take n a pl (x ∷ rest) = set_hand (set_queue pl a rest) n (in_hand (handle a x.path) x)

abbrev pub receive_idle : Node → Port → Plane → Option (Port × Packet) → Plane
receive_idle n a pl (some _) = pl
receive_idle n a pl none = if on a (ports n) then take n a pl (pl.queue a) else pl

unfoldable pub node_receive : Node → Port → Plane → Plane
node_receive n a pl = receive_idle n a pl (pl.hand n)

-- `spsc_send`: the packet in hand goes into its channel, when there is room.
abbrev pub send_held : Node → Plane → Option (Port × Packet) → Plane
send_held n pl none = pl
send_held n pl (some (b, x)) =
    if ltb (length (pl.queue b)) chan_cap
    then set_hand (set_queue pl b (pl.queue b ++ (x ∷ []))) n none
    else pl

unfoldable pub node_send : Node → Plane → Plane
node_send n pl = send_held n pl (pl.hand n)

-- `inject_packet`, on a path that `inject_round` finds enabled.
unfoldable pub inject_packet : PathId → Plane → Plane
inject_packet p pl =
    let s = pl.stats p in
    let a = inject_ch p in
    let x : Packet = record { seq = u32 s.sent; path = p } in
    if s.enabled && ltb (length (pl.queue a)) chan_cap
    then set_stats (set_queue pl a (pl.queue a ++ (x ∷ []))) p
        (record s { sent = u64 (s.sent + 1) })
    else pl

-- One branch of `poll_done_try`.
abbrev pub record_done : Port → Plane → List Packet → Plane
record_done a pl [] = pl
record_done a pl (x ∷ rest) =
    set_stats (set_queue pl a rest) x.path (stat_on_recv (pl.stats x.path) x.seq)

abbrev pub is_done : Port → Bool
is_done a = on a (done_tun ∷ done_tunnel ∷ done_oam ∷ [])

unfoldable pub poll_done : Port → Plane → Plane
poll_done a pl = if is_done a then record_done a pl (pl.queue a) else pl

-- What one of the six threads does next.
pub data Event : Type 0 where
  receives : Node → Port → Event
  sends : Node → Event
  injects : PathId → Event
  polls : Port → Event

unfoldable pub step : Plane → Event → Plane
step pl (receives n a) = node_receive n a pl
step pl (sends n) = node_send n pl
step pl (injects p) = inject_packet p pl
step pl (polls a) = poll_done a pl

-- Any schedule of the threads.
unfoldable pub run : Plane → List Event → Plane
run pl [] = pl
run pl (e ∷ es) = run (step pl e) es

-- `main` before it starts the threads, with the paths that are enabled.
abbrev pub start : (PathId → Bool) → Plane
start on_path = record {
  queue = λ a. [];
  hand = λ n. none;
  stats =
      λ p. record { enabled = on_path p; sent = 0; recv = 0; dup = 0; lost = 0; next_expected = 0 };
}
