-- ===== src/Mpsc/Boxes.antt =====
-- examples/dplane_pipeline_mpsc.c: the inboxes, where each node sends a packet, and what the threads do
-- to the inboxes and the accounts.
--
-- As in the pipeline with links, an inbox is the list of its packets, oldest first, a turn of a node is
-- two events, a call that would block is an event that does nothing, and times are left out of
-- `done_msg_t`. The paths, packets, accounts and threads are those of the pipeline with links, whose
-- code the program repeats.
use libchan.Base.{
  ℕ, ◌+◌, Bool, ◌&&◌, ◌||◌, Option, none, some, List, [], ◌∷◌, ◌++◌, length, ltb, ◌==◌,
  if◌then◌else◌, u32,
}
use libchan.Pipeline.Topology.{
  PathId, path_tun_forward_enc_tunnel, path_tunnel_enc_forward_tun, path_tunnel_forward_tun,
  path_tun_forward_tunnel, path_tunnel_forward_oam, path_oam_forward_tunnel, Packet, Node, tun,
  forward, enc, tunnel, oam, node_id, path_id,
}
use libchan.Pipeline.Plane.{PathStat, stat_on_recv, u64}

-- The fields of `inboxes_t`.
pub data Box : Type 0 where
  in_tun in_forward in_enc in_tunnel in_oam in_done : Box

abbrev pub box_id : Box → ℕ
box_id in_tun = 0
box_id in_forward = 1
box_id in_enc = 2
box_id in_tunnel = 3
box_id in_oam = 4
box_id in_done = 5

-- `inboxes_init`: CHAN_CAP, or CHAN_CAP_HOT for the inboxes of many.
abbrev pub box_cap : Box → ℕ
box_cap in_tun = 4096
box_cap in_forward = 8192
box_cap in_enc = 4096
box_cap in_tunnel = 8192
box_cap in_oam = 4096
box_cap in_done = 8192

-- The inbox that each node receives from.
abbrev pub inbox : Node → Box
inbox tun = in_tun
inbox forward = in_forward
inbox enc = in_enc
inbox tunnel = in_tunnel
inbox oam = in_oam

-- `forward_route`
abbrev forward_route : PathId → Box
forward_route path_tun_forward_enc_tunnel = in_enc
forward_route path_tun_forward_tunnel = in_tunnel
forward_route path_oam_forward_tunnel = in_tunnel
forward_route path_tunnel_enc_forward_tun = in_tun
forward_route path_tunnel_forward_tun = in_tun
forward_route path_tunnel_forward_oam = in_oam

-- `path == PATH_...`
abbrev is_path : PathId → PathId → Bool
is_path p q = path_id p == path_id q

-- `handle_enc_pkt`: a packet of another path is dropped.
abbrev handle_enc_pkt : PathId → Option Box
handle_enc_pkt p =
    if is_path p path_tun_forward_enc_tunnel
    then some in_tunnel
    else if is_path p path_tunnel_enc_forward_tun
    then some in_forward
    else none

-- `tunnel_outbound`
abbrev tunnel_outbound : PathId → Box
tunnel_outbound p = if is_path p path_tunnel_enc_forward_tun then in_enc else in_forward

-- `tun_pkt_forward` and `tun_pkt_sink`
abbrev tun_pkt_forward : PathId → Bool
tun_pkt_forward p = is_path p path_tun_forward_enc_tunnel || is_path p path_tun_forward_tunnel

abbrev tun_pkt_sink : PathId → Bool
tun_pkt_sink p = is_path p path_tunnel_enc_forward_tun || is_path p path_tunnel_forward_tun

-- `tunnel_pkt_outbound` and `tunnel_pkt_sink`
abbrev tunnel_pkt_outbound : PathId → Bool
tunnel_pkt_outbound p =
    is_path p path_tunnel_enc_forward_tun
    || (is_path p path_tunnel_forward_tun || is_path p path_tunnel_forward_oam)

abbrev tunnel_pkt_sink : PathId → Bool
tunnel_pkt_sink p =
    is_path p path_tun_forward_enc_tunnel
    || (is_path p path_tun_forward_tunnel || is_path p path_oam_forward_tunnel)

-- The branches of the five loops: where the node sends a packet that it has received. `send_done` sends
-- to `in_done`.
abbrev tun_handle : PathId → Option Box
tun_handle p =
    if tun_pkt_forward p then some in_forward else if tun_pkt_sink p then some in_done else none

abbrev tunnel_handle : PathId → Option Box
tunnel_handle p =
    if tunnel_pkt_outbound p
    then some (tunnel_outbound p)
    else if tunnel_pkt_sink p
    then some in_done
    else none

abbrev oam_handle : PathId → Option Box
oam_handle p =
    if is_path p path_oam_forward_tunnel
    then some in_forward
    else if is_path p path_tunnel_forward_oam
    then some in_done
    else none

abbrev pub handle : Node → PathId → Option Box
handle tun p = tun_handle p
handle forward p = some (forward_route p)
handle enc p = handle_enc_pkt p
handle tunnel p = tunnel_handle p
handle oam p = oam_handle p

-- `inject_inbox`
abbrev pub inject_inbox : PathId → Box
inject_inbox path_tun_forward_enc_tunnel = in_tun
inject_inbox path_tun_forward_tunnel = in_tun
inject_inbox path_tunnel_enc_forward_tun = in_tunnel
inject_inbox path_tunnel_forward_tun = in_tunnel
inject_inbox path_tunnel_forward_oam = in_tunnel
inject_inbox path_oam_forward_tunnel = in_oam

-- The inboxes, what each node has received and not yet sent on, with the inbox that its handler chose,
-- and the accounts.
pub record Boxes : Type 0 where
  pub queue : Box → List Packet
  pub hand : Node → Option (Box × Packet)
  pub stats : PathId → PathStat

abbrev pub set_queue : Boxes → Box → List Packet → Boxes
set_queue s b q = record s { queue = λ c. if box_id c == box_id b then q else s.queue c }

abbrev pub set_hand : Boxes → Node → Option (Box × Packet) → Boxes
set_hand s n h = record s { hand = λ m. if node_id m == node_id n then h else s.hand m }

abbrev pub set_stats : Boxes → PathId → PathStat → Boxes
set_stats s p t = record s { stats = λ q. if path_id q == path_id p then t else s.stats q }

abbrev pub in_hand : Option Box → Packet → Option (Box × Packet)
in_hand none x = none
in_hand (some b) x = some (b, x)

-- A node that has nothing in hand receives from its inbox.
abbrev pub take : Node → Boxes → List Packet → Boxes
take n s [] = s
take n s (x ∷ rest) = set_hand (set_queue s (inbox n) rest) n (in_hand (handle n x.path) x)

abbrev pub receive_idle : Node → Boxes → Option (Box × Packet) → Boxes
receive_idle n s (some _) = s
receive_idle n s none = take n s (s.queue (inbox n))

unfoldable pub node_receive : Node → Boxes → Boxes
node_receive n s = receive_idle n s (s.hand n)

-- `mpsc_send`: the packet in hand goes into its inbox, when there is room.
abbrev pub has_room : Boxes → Box → Bool
has_room s b = ltb (length (s.queue b)) (box_cap b)

abbrev pub send_held : Node → Boxes → Option (Box × Packet) → Boxes
send_held n s none = s
send_held n s (some (b, x)) =
    if has_room s b then set_hand (set_queue s b (s.queue b ++ (x ∷ []))) n none else s

unfoldable pub node_send : Node → Boxes → Boxes
node_send n s = send_held n s (s.hand n)

-- `inject_packet`, on a path that its callers find enabled.
unfoldable pub inject_packet : PathId → Boxes → Boxes
inject_packet p s =
    let t = s.stats p in
    let b = inject_inbox p in
    let x : Packet = record { seq = u32 t.sent; path = p } in
    if t.enabled && has_room s b
    then set_stats (set_queue s b (s.queue b ++ (x ∷ []))) p (record t { sent = u64 (t.sent + 1) })
    else s

-- `poll_done_try`
abbrev pub record_done : Boxes → List Packet → Boxes
record_done s [] = s
record_done s (x ∷ rest) =
    set_stats (set_queue s in_done rest) x.path (stat_on_recv (s.stats x.path) x.seq)

unfoldable pub poll_done_try : Boxes → Boxes
poll_done_try s = record_done s (s.queue in_done)

-- What one of the six threads does next.
pub data Event : Type 0 where
  receives sends : Node → Event
  injects : PathId → Event
  polls : Event

unfoldable pub step : Boxes → Event → Boxes
step s (receives n) = node_receive n s
step s (sends n) = node_send n s
step s (injects p) = inject_packet p s
step s polls = poll_done_try s

-- Any schedule of the threads.
unfoldable pub run : Boxes → List Event → Boxes
run s [] = s
run s (e ∷ es) = run (step s e) es

-- `main` before it starts the threads, with the paths that are enabled.
abbrev pub start : (PathId → Bool) → Boxes
start on_path = record {
  queue = λ b. [];
  hand = λ n. none;
  stats =
      λ p. record { enabled = on_path p; sent = 0; recv = 0; dup = 0; lost = 0; next_expected = 0 };
}
