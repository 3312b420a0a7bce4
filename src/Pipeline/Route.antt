-- ===== src/Pipeline/Route.antt =====
-- The documented routes of the six paths, and that the nodes' handlers follow them.
use libchan.Base.{
  Bool, true, false, not, ◌&&◌, Option, none, some, List, [], ◌∷◌, ◌++◌, ◌≡◌, ◌≢◌, refl, sym, ◌∙◌,
  ◌==◌, if◌then◌else◌, Bool-cases, and_left, and_right, or_left, or_right, if_true, if_false, inl,
  inr, arith,
}
use libchan.Pipeline.Topology.{
  PathId, path_tun_forward_enc_tunnel, path_tunnel_enc_forward_tun, path_tunnel_forward_tun,
  path_tun_forward_tunnel, path_tunnel_forward_oam, path_oam_forward_tunnel, Port, tun_to_forward,
  forward_to_enc, enc_to_tunnel, tunnel_to_enc, enc_to_forward, forward_to_tun, tunnel_to_forward,
  forward_to_oam, oam_to_forward, forward_to_tunnel, inj_tun, inj_tunnel, inj_oam, done_tun,
  done_tunnel, done_oam, Node, tun, forward, enc, tunnel, oam, ports, handle, inject_ch, port_id,
  node_id, path_id, on,
}
use libchan.Pipeline.Plane.{is_done}

-- The channels that a packet of a path goes through.
abbrev pub route : PathId → List Port
route path_tun_forward_enc_tunnel =
    inj_tun ∷ tun_to_forward ∷ forward_to_enc ∷ enc_to_tunnel ∷ done_tunnel ∷ []
route path_tunnel_enc_forward_tun =
    inj_tunnel ∷ tunnel_to_enc ∷ enc_to_forward ∷ forward_to_tun ∷ done_tun ∷ []
route path_tunnel_forward_tun = inj_tunnel ∷ tunnel_to_forward ∷ forward_to_tun ∷ done_tun ∷ []
route path_tun_forward_tunnel = inj_tun ∷ tun_to_forward ∷ forward_to_tunnel ∷ done_tunnel ∷ []
route path_tunnel_forward_oam = inj_tunnel ∷ tunnel_to_forward ∷ forward_to_oam ∷ done_oam ∷ []
route path_oam_forward_tunnel = inj_oam ∷ oam_to_forward ∷ forward_to_tunnel ∷ done_tunnel ∷ []

-- The one node that sends into a channel; the main thread sends into the first three.
abbrev pub producer : Port → Option Node
producer inj_tun = none
producer inj_tunnel = none
producer inj_oam = none
producer tun_to_forward = some tun
producer done_tun = some tun
producer forward_to_enc = some forward
producer forward_to_tun = some forward
producer forward_to_oam = some forward
producer forward_to_tunnel = some forward
producer enc_to_tunnel = some enc
producer enc_to_forward = some enc
producer tunnel_to_enc = some tunnel
producer tunnel_to_forward = some tunnel
producer done_tunnel = some tunnel
producer oam_to_forward = some oam
producer done_oam = some oam

-- `b` comes right behind `a`, and neither comes again.
abbrev pub follows : Port → Port → List Port → Bool
follows a b [] = false
follows a b (c ∷ []) = false
follows a b (c ∷ d ∷ cs) =
    if port_id c == port_id a
    then port_id d == port_id b && (not (on a (d ∷ cs)) && not (on b cs))
    else not (port_id c == port_id b) && follows a b (d ∷ cs)

-- A node sends only into the channels that it produces.
pub handle-producer :
    (n : Node) (a b : Port) (p : PathId)
    → on a (ports n) ≡ true
    → handle a p ≡ some b
    → producer b ≡ some n
handle-producer n a b p h e = ground arith

-- A handler sends a packet on to the next channel of its route, and drops none that is on it.
pub handle-follows :
    (a b : Port) (p : PathId)
    → on a (route p) ≡ true
    → handle a p ≡ some b
    → follows a b (route p) ≡ true
handle-follows a b p h e = ground arith

pub handle-sends :
    (n : Node) (a : Port) (p : PathId)
    → on a (ports n) ≡ true
    → on a (route p) ≡ true
    → handle a p ≢ none
handle-sends n a p h e = ground arith

pub same-port : (a b : Port) → (port_id a == port_id b) ≡ true → a ≡ b
same-port a b e = ground arith

pub same-node : (m n : Node) → (node_id m == node_id n) ≡ true → m ≡ n
same-node m n e = ground arith

pub same-path : (p q : PathId) → (path_id p == path_id q) ≡ true → p ≡ q
same-path p q e = ground arith

pub on-inject : (p : PathId) → on (inject_ch p) (route p) ≡ true
on-inject p = ground arith

-- A route up to its last channel, which is one of the main thread's.
abbrev pub before_sink : PathId → List Port
before_sink path_tun_forward_enc_tunnel =
    inj_tun ∷ tun_to_forward ∷ forward_to_enc ∷ enc_to_tunnel ∷ []
before_sink path_tunnel_enc_forward_tun =
    inj_tunnel ∷ tunnel_to_enc ∷ enc_to_forward ∷ forward_to_tun ∷ []
before_sink path_tunnel_forward_tun = inj_tunnel ∷ tunnel_to_forward ∷ forward_to_tun ∷ []
before_sink path_tun_forward_tunnel = inj_tun ∷ tun_to_forward ∷ forward_to_tunnel ∷ []
before_sink path_tunnel_forward_oam = inj_tunnel ∷ tunnel_to_forward ∷ forward_to_oam ∷ []
before_sink path_oam_forward_tunnel = inj_oam ∷ oam_to_forward ∷ forward_to_tunnel ∷ []

abbrev pub sink : PathId → Port
sink path_tun_forward_enc_tunnel = done_tunnel
sink path_tunnel_enc_forward_tun = done_tun
sink path_tunnel_forward_tun = done_tun
sink path_tun_forward_tunnel = done_tunnel
sink path_tunnel_forward_oam = done_oam
sink path_oam_forward_tunnel = done_tunnel

pub route-split : (p : PathId) → route p ≡ before_sink p ++ (sink p ∷ [])
route-split p = ground arith

pub sink-last : (p : PathId) → on (sink p) (before_sink p) ≡ false
sink-last p = ground arith

pub done-sink : (a : Port) (p : PathId) → is_done a ≡ true → on a (route p) ≡ true → a ≡ sink p
done-sink a p d h = ground arith

pub done-unpolled : (a : Port) (n : Node) → is_done a ≡ true → on a (ports n) ≡ false
done-unpolled a n d = ground arith

pub inject-first :
    (p : PathId)
    → (rest : List Port) × (route p ≡ inject_ch p ∷ rest) × (on (inject_ch p) rest ≡ false)
inject-first path_tun_forward_enc_tunnel = (_, refl, refl)
inject-first path_tunnel_enc_forward_tun = (_, refl, refl)
inject-first path_tunnel_forward_tun = (_, refl, refl)
inject-first path_tun_forward_tunnel = (_, refl, refl)
inject-first path_tunnel_forward_oam = (_, refl, refl)
inject-first path_oam_forward_tunnel = (_, refl, refl)

pub inject-producer : (p : PathId) → producer (inject_ch p) ≡ none
inject-producer p = ground arith

pub handle-ne : (a b : Port) (p : PathId) → handle a p ≡ some b → (port_id a == port_id b) ≡ false
handle-ne a b p e = ground arith

pub follows-on : (a b : Port) (cs : List Port) → follows a b cs ≡ true → on b cs ≡ true
follows-on a b [] f = cc
follows-on a b (c ∷ []) f = cc
follows-on a b (c ∷ d ∷ cs) f = elim (Bool-cases (port_id c == port_id a)) [
  | inl e ↦ or_right (port_id c == port_id b) _ (
      or_left (port_id d == port_id b) _ (
        and_left (port_id d == port_id b) (not (on a (d ∷ cs)) && not (on b cs))
          (sym (if_true _ _ e) ∙ f)))
  | inr e ↦ or_right (port_id c == port_id b) _ (
      follows-on a b (d ∷ cs)
        (and_right (not (port_id c == port_id b)) _ (sym (if_false _ _ e) ∙ f)))
]
