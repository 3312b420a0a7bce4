-- ===== src/Mpsc/Links.antt =====
-- The inboxes sorted by the links of examples/dplane_pipeline.c: a packet of a path comes into an inbox
-- on one link.
use libchan.Base.{
  true, Option, none, some, List, [], ◌∷◌, ◌++◌, ◌≡◌, ◌≢◌, refl, ap, ◌==◌, if◌then◌else◌,
  Bool-cases, inl, inr, arith,
}
use libchan.Pipeline.Topology.{
  PathId, path_tun_forward_enc_tunnel, path_tunnel_enc_forward_tun, path_tunnel_forward_tun,
  path_tun_forward_tunnel, path_tunnel_forward_oam, path_oam_forward_tunnel, Packet, Port, Node,
  tun_to_forward, forward_to_enc, enc_to_tunnel, tunnel_to_enc, enc_to_forward, forward_to_tun,
  tunnel_to_forward, forward_to_oam, oam_to_forward, forward_to_tunnel, inj_tun, inj_tunnel,
  inj_oam, done_tun, done_tunnel, done_oam, ports, inject_ch, port_id, on,
}
use libchan.Pipeline.Topology
use libchan.Pipeline.Plane.{Plane}
use libchan.Pipeline.Route.{route, sink}
use libchan.Mpsc.Boxes.{
  Box, in_tun, in_forward, in_enc, in_tunnel, in_oam, in_done, box_id, inbox, handle, inject_inbox,
  Boxes,
}

-- The link on which a packet of a path comes into an inbox. Where the path does not go there, it is one
-- that is not on the path's route.
abbrev pub link : PathId → Box → Port
link path_tun_forward_enc_tunnel in_tun = inj_tun
link path_tun_forward_tunnel in_tun = inj_tun
link path_tunnel_enc_forward_tun in_tun = forward_to_tun
link path_tunnel_forward_tun in_tun = forward_to_tun
link _ in_tun = inj_tun
link path_tun_forward_enc_tunnel in_forward = tun_to_forward
link path_tun_forward_tunnel in_forward = tun_to_forward
link path_tunnel_enc_forward_tun in_forward = enc_to_forward
link path_tunnel_forward_tun in_forward = tunnel_to_forward
link path_tunnel_forward_oam in_forward = tunnel_to_forward
link path_oam_forward_tunnel in_forward = oam_to_forward
link path_tun_forward_enc_tunnel in_enc = forward_to_enc
link path_tunnel_enc_forward_tun in_enc = tunnel_to_enc
link _ in_enc = forward_to_enc
link path_tun_forward_enc_tunnel in_tunnel = enc_to_tunnel
link path_tun_forward_tunnel in_tunnel = forward_to_tunnel
link path_oam_forward_tunnel in_tunnel = forward_to_tunnel
link _ in_tunnel = inj_tunnel
link path_oam_forward_tunnel in_oam = inj_oam
link path_tunnel_forward_oam in_oam = forward_to_oam
link _ in_oam = inj_oam
link p in_done = sink p

-- The inbox that has the place of a link.
abbrev pub box_of : Port → Box
box_of inj_tun = in_tun
box_of forward_to_tun = in_tun
box_of tun_to_forward = in_forward
box_of tunnel_to_forward = in_forward
box_of oam_to_forward = in_forward
box_of enc_to_forward = in_forward
box_of forward_to_enc = in_enc
box_of tunnel_to_enc = in_enc
box_of inj_tunnel = in_tunnel
box_of enc_to_tunnel = in_tunnel
box_of forward_to_tunnel = in_tunnel
box_of inj_oam = in_oam
box_of forward_to_oam = in_oam
box_of done_tun = in_done
box_of done_tunnel = in_done
box_of done_oam = in_done

-- The packets of an inbox that came on a link.
abbrev pub came_on : Port → List Packet → List Packet
came_on a [] = []
came_on a (x ∷ xs) =
    if port_id (link x.path (box_of a)) == port_id a then x ∷ came_on a xs else came_on a xs

abbrev pub linked : Option (Box × Packet) → Option (Port × Packet)
linked none = none
linked (some (b, x)) = some (link x.path b, x)

-- The state of the pipeline with links that the inboxes are in.
abbrev pub view : Boxes → Plane
view s = record {
  queue = λ a. came_on a (s.queue (box_of a));
  hand = λ n. linked (s.hand n);
  stats = s.stats;
}

pub same-box : (a b : Box) → (box_id a == box_id b) ≡ true → a ≡ b
same-box a b e = ground arith

-- Every packet of an inbox is on one of its links.
pub box_of-link : (p : PathId) (b : Box) → box_of (link p b) ≡ b
box_of-link p b = ground arith

pub link-polled : (p : PathId) (n : Node) → on (link p (inbox n)) (ports n) ≡ true
link-polled p n = ground arith

pub link-inject : (p : PathId) → link p (inject_inbox p) ≡ inject_ch p
link-inject p = ground arith

-- On its route, a packet is sent on by a node as in the pipeline with links.
pub link-handle :
    (n : Node) (p : PathId) (b : Box)
    → on (link p (inbox n)) (route p) ≡ true
    → handle n p ≡ some b
    → Topology.handle (link p (inbox n)) p ≡ some (link p b)
link-handle n p b h e = ground arith

pub handle-sends :
    (n : Node) (p : PathId) → on (link p (inbox n)) (route p) ≡ true → handle n p ≢ none
handle-sends n p h e = ground arith

pub came_on-append :
    (a : Port) (xs ys : List Packet) → came_on a (xs ++ ys) ≡ came_on a xs ++ came_on a ys
came_on-append a [] ys = refl
came_on-append a (x ∷ xs) ys = elim (Bool-cases (port_id (link x.path (box_of a)) == port_id a)) [
  | inl e ↦ rw e (ap (λ t. x ∷ t) (came_on-append a xs ys))
  | inr e ↦ rw e (came_on-append a xs ys)
]
