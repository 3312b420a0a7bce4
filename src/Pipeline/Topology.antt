-- ===== src/Pipeline/Topology.antt =====
-- examples/dplane_pipeline.c: the paths, the channels between the nodes, and where each node sends a
-- packet.
use libchan.Base.{ℕ, Bool, false, ◌||◌, Option, none, some, List, [], ◌∷◌, ◌==◌}

-- `path_id_t`
pub data PathId : Type 0 where
  path_tun_forward_enc_tunnel path_tunnel_enc_forward_tun path_tunnel_forward_tun : PathId
  path_tun_forward_tunnel path_tunnel_forward_oam path_oam_forward_tunnel : PathId

-- `pkt_t`
pub record Packet : Type 0 where
  pub seq : ℕ
  pub path : PathId

-- The fields of `links_t` and `test_io_t`: each is a channel of its own.
pub data Port : Type 0 where
  tun_to_forward forward_to_enc enc_to_tunnel tunnel_to_enc enc_to_forward : Port
  forward_to_tun tunnel_to_forward forward_to_oam oam_to_forward forward_to_tunnel : Port
  inj_tun inj_tunnel inj_oam done_tun done_tunnel done_oam : Port

-- The threads that run `tun_node` to `oam_node`.
pub data Node : Type 0 where
  tun forward enc tunnel oam : Node

-- The ports that each node polls, in its order.
abbrev pub ports : Node → List Port
ports tun = inj_tun ∷ forward_to_tun ∷ []
ports forward = tun_to_forward ∷ tunnel_to_forward ∷ oam_to_forward ∷ enc_to_forward ∷ []
ports enc = forward_to_enc ∷ tunnel_to_enc ∷ []
ports tunnel = inj_tunnel ∷ enc_to_tunnel ∷ forward_to_tunnel ∷ []
ports oam = inj_oam ∷ forward_to_oam ∷ []

-- `forward_route`
abbrev pub forward_route : PathId → Port
forward_route path_tun_forward_enc_tunnel = forward_to_enc
forward_route path_tun_forward_tunnel = forward_to_tunnel
forward_route path_oam_forward_tunnel = forward_to_tunnel
forward_route path_tunnel_enc_forward_tun = forward_to_tun
forward_route path_tunnel_forward_tun = forward_to_tun
forward_route path_tunnel_forward_oam = forward_to_oam

-- `handle_enc_pkt`: a packet of another path is dropped.
abbrev pub handle_enc_pkt : PathId → Option Port
handle_enc_pkt path_tun_forward_enc_tunnel = some enc_to_tunnel
handle_enc_pkt path_tunnel_enc_forward_tun = some enc_to_forward
handle_enc_pkt _ = none

-- `tunnel_outbound`
abbrev pub tunnel_outbound : PathId → Port
tunnel_outbound path_tunnel_enc_forward_tun = tunnel_to_enc
tunnel_outbound _ = tunnel_to_forward

-- `handle_tun_inj`, `handle_tun_return`, `handle_tunnel_sink`, `handle_oam_inj` and
-- `handle_oam_return`: where they send a packet.
abbrev handle_tun_inj : Port
handle_tun_inj = tun_to_forward

abbrev handle_tun_return : Port
handle_tun_return = done_tun

abbrev handle_tunnel_sink : Port
handle_tunnel_sink = done_tunnel

abbrev handle_oam_inj : Port
handle_oam_inj = oam_to_forward

abbrev handle_oam_return : Port
handle_oam_return = done_oam

-- The branches of the five loops: where a packet of a path goes that came from a port of the node.
abbrev tun_handle : Port → PathId → Option Port
tun_handle inj_tun path = some handle_tun_inj
tun_handle forward_to_tun path = some handle_tun_return
tun_handle _ path = none

abbrev forward_try_recv : Port → PathId → Option Port
forward_try_recv tun_to_forward path = some (forward_route path)
forward_try_recv tunnel_to_forward path = some (forward_route path)
forward_try_recv oam_to_forward path = some (forward_route path)
forward_try_recv enc_to_forward path = some (forward_route path)
forward_try_recv _ path = none

abbrev enc_handle : Port → PathId → Option Port
enc_handle forward_to_enc path = handle_enc_pkt path
enc_handle tunnel_to_enc path = handle_enc_pkt path
enc_handle _ path = none

abbrev tunnel_handle : Port → PathId → Option Port
tunnel_handle inj_tunnel path = some (tunnel_outbound path)
tunnel_handle enc_to_tunnel path = some handle_tunnel_sink
tunnel_handle forward_to_tunnel path = some handle_tunnel_sink
tunnel_handle _ path = none

abbrev oam_handle : Port → PathId → Option Port
oam_handle inj_oam path = some handle_oam_inj
oam_handle forward_to_oam path = some handle_oam_return
oam_handle _ path = none

-- The branch of the one node that polls the port. Nobody polls the done channels.
abbrev pub handle : Port → PathId → Option Port
handle inj_tun path = tun_handle inj_tun path
handle forward_to_tun path = tun_handle forward_to_tun path
handle tun_to_forward path = forward_try_recv tun_to_forward path
handle tunnel_to_forward path = forward_try_recv tunnel_to_forward path
handle oam_to_forward path = forward_try_recv oam_to_forward path
handle enc_to_forward path = forward_try_recv enc_to_forward path
handle forward_to_enc path = enc_handle forward_to_enc path
handle tunnel_to_enc path = enc_handle tunnel_to_enc path
handle inj_tunnel path = tunnel_handle inj_tunnel path
handle enc_to_tunnel path = tunnel_handle enc_to_tunnel path
handle forward_to_tunnel path = tunnel_handle forward_to_tunnel path
handle inj_oam path = oam_handle inj_oam path
handle forward_to_oam path = oam_handle forward_to_oam path
handle _ path = none

-- `inject_ch`
abbrev pub inject_ch : PathId → Port
inject_ch path_tun_forward_enc_tunnel = inj_tun
inject_ch path_tun_forward_tunnel = inj_tun
inject_ch path_tunnel_enc_forward_tun = inj_tunnel
inject_ch path_tunnel_forward_tun = inj_tunnel
inject_ch path_tunnel_forward_oam = inj_tunnel
inject_ch path_oam_forward_tunnel = inj_oam

-- Numbers for ports, nodes and paths, by which they are compared.
abbrev pub port_id : Port → ℕ
port_id tun_to_forward = 0
port_id forward_to_enc = 1
port_id enc_to_tunnel = 2
port_id tunnel_to_enc = 3
port_id enc_to_forward = 4
port_id forward_to_tun = 5
port_id tunnel_to_forward = 6
port_id forward_to_oam = 7
port_id oam_to_forward = 8
port_id forward_to_tunnel = 9
port_id inj_tun = 10
port_id inj_tunnel = 11
port_id inj_oam = 12
port_id done_tun = 13
port_id done_tunnel = 14
port_id done_oam = 15

abbrev pub node_id : Node → ℕ
node_id tun = 0
node_id forward = 1
node_id enc = 2
node_id tunnel = 3
node_id oam = 4

abbrev pub path_id : PathId → ℕ
path_id path_tun_forward_enc_tunnel = 0
path_id path_tunnel_enc_forward_tun = 1
path_id path_tunnel_forward_tun = 2
path_id path_tun_forward_tunnel = 3
path_id path_tunnel_forward_oam = 4
path_id path_oam_forward_tunnel = 5

abbrev pub on : Port → List Port → Bool
on a [] = false
on a (b ∷ bs) = port_id b == port_id a || on a bs
