-- ===== src/Pipeline/Nodes.antt =====
-- examples/dplane_pipeline.c: a turn of the loop of each node, with the order in which it polls its
-- channels, and when it ends.
use libchan.Base.{
  ℕ, Bool, true, false, ◌&&◌, List, [], ◌∷◌, if◌then◌else◌, if_true, if_false, Bool-cases, or_right,
  or_left, or_drop, and_left, and_right, ◌==◌, ==_refl, ◌≡◌, ◌≢◌, refl, sym, ap, subst, ◌∙◌, ◌⊎◌,
  inl, inr,
}
use libchan.Pipeline.Topology.{
  Packet, Port, Node, tun, forward, enc, tunnel, oam, ports, port_id, on, tun_to_forward,
  forward_to_enc, enc_to_tunnel, tunnel_to_enc, enc_to_forward, forward_to_tun, tunnel_to_forward,
  forward_to_oam, oam_to_forward, forward_to_tunnel, inj_tun, inj_tunnel, inj_oam,
}
use libchan.Pipeline.Modes.{PollMode, Rest, node_idle}
use libchan.Pipeline.Route.{same-port}

-- What a node sees at its turn, during which nothing changes: the channels, which of them are closed,
-- `stop`, and its settings.
pub record View : Type 0 where
  pub queue : Port → List Packet
  pub closed : Port → Bool
  pub stop : Bool
  pub mode : PollMode
  pub block_wait_usec : ℕ
  pub idle : ℕ

-- It receives from a channel, ends, or pauses, with its counter then.
pub data Turn : Type 0 where
  takes : Port → Turn
  ends : Turn
  pauses : Rest → ℕ → Turn

-- `tun_closed` to `oam_closed`
abbrev tun_closed : (Port → Bool) → Bool
tun_closed closed = closed inj_tun && closed forward_to_tun

abbrev forward_closed : (Port → Bool) → Bool
forward_closed closed =
    closed tun_to_forward
    && (closed tunnel_to_forward && (closed oam_to_forward && closed enc_to_forward))

abbrev enc_closed : (Port → Bool) → Bool
enc_closed closed = closed forward_to_enc && closed tunnel_to_enc

abbrev tunnel_closed : (Port → Bool) → Bool
tunnel_closed closed = closed inj_tunnel && (closed enc_to_tunnel && closed forward_to_tunnel)

abbrev oam_closed : (Port → Bool) → Bool
oam_closed closed = closed inj_oam && closed forward_to_oam

-- The calls of `chan_try_recv` in this order, and what follows where all of them fail.
abbrev pub is_empty : List Packet → Bool
is_empty [] = true
is_empty (x ∷ xs) = false

abbrev pub polled : (Port → List Packet) → List Port → Turn → Turn
polled queue [] otherwise = otherwise
polled queue (a ∷ rest) otherwise =
    let next = polled queue rest otherwise in if is_empty (queue a) then next else takes a

abbrev rests : Rest × ℕ → Turn
rests (r, idle) = pauses r idle

abbrev loop_turn : View → List Port → Bool → Turn
loop_turn v ps all_closed =
    if v.stop
    then ends
    else polled v.queue ps
        (if all_closed then ends else rests (node_idle v.queue v.mode v.block_wait_usec ps v.idle))

-- The loops.
abbrev tun_node : View → Turn
tun_node v = loop_turn v (inj_tun ∷ forward_to_tun ∷ []) (tun_closed v.closed)

abbrev forward_node : View → Turn
forward_node v =
    loop_turn v (tun_to_forward ∷ tunnel_to_forward ∷ oam_to_forward ∷ enc_to_forward ∷ [])
      (forward_closed v.closed)

abbrev enc_node : View → Turn
enc_node v = loop_turn v (forward_to_enc ∷ tunnel_to_enc ∷ []) (enc_closed v.closed)

abbrev tunnel_node : View → Turn
tunnel_node v =
    loop_turn v (inj_tunnel ∷ enc_to_tunnel ∷ forward_to_tunnel ∷ []) (tunnel_closed v.closed)

abbrev oam_node : View → Turn
oam_node v = loop_turn v (inj_oam ∷ forward_to_oam ∷ []) (oam_closed v.closed)

-- The loop of each thread.
abbrev pub node_turn : Node → View → Turn
node_turn tun = tun_node
node_turn forward = forward_node
node_turn enc = enc_node
node_turn tunnel = tunnel_node
node_turn oam = oam_node

-- A node that ends was told to, or all of its channels are closed, and none holds a packet.
abbrev pub Done : View → List Port → Type 0
Done v [] = Unit
Done v (a ∷ rest) = ((v.queue a ≡ []) × (v.closed a ≡ true)) × Done v rest

-- What the turn of a node that polls these channels means.
abbrev pub Means : View → List Port → Turn → Type 0
Means v ps (takes a) = (on a ps ≡ true) × (v.queue a ≢ [])
Means v ps ends = (v.stop ≡ true) ⊎ Done v ps
Means v ps (pauses r idle) = (v.stop ≡ false) × ((a : Port) → on a ps ≡ true → v.queue a ≡ [])

is_empty-eq : (q : List Packet) → is_empty q ≡ true → q ≡ []
is_empty-eq [] e = refl
is_empty-eq (x ∷ xs) e = cc

nonempty : (q : List Packet) → is_empty q ≡ false → q ≢ []
nonempty [] e = cc
nonempty (x ∷ xs) e = λ h. cc

-- Every call failed, or the first that did not took a packet.
polled-cases :
    (queue : Port → List Packet) (ps : List Port) (o : Turn)
    → ((polled queue ps o ≡ o) × ((a : Port) → on a ps ≡ true → queue a ≡ []))
      ⊎ ((a : Port) × (polled queue ps o ≡ takes a) × (on a ps ≡ true) × (queue a ≢ []))
polled-cases queue [] o = inl (refl, λ a h. cc)
polled-cases queue (c ∷ ps) o = elim (Bool-cases (is_empty (queue c))) [
  | inl e ↦ elim (polled-cases queue ps o) [
    | inl (same, none_there) ↦ inl (
      if_true _ _ e ∙ same,
      λ a h. elim (Bool-cases (port_id c == port_id a)) [
        | inl here ↦ ap queue (sym (same-port c a here)) ∙ is_empty-eq (queue c) e
        | inr there ↦ none_there a (or_drop _ _ there h)
      ],
    )
    | inr (a, took, among, some_there) ↦
        inr (a, if_true _ _ e ∙ took, or_right (port_id c == port_id a) _ among, some_there)
  ]
  | inr e ↦ inr (c, if_false _ _ e, or_left _ _ (==_refl (port_id c)), nonempty (queue c) e)
]

loop_turn-Means :
    (v : View) (ps : List Port) (all_closed : Bool)
    → (all_closed ≡ true → ((a : Port) → on a ps ≡ true → v.queue a ≡ []) → Done v ps)
    → Means v ps (loop_turn v ps all_closed)
loop_turn-Means v ps all_closed finished = elim (Bool-cases v.stop) [
  | inl e ↦ subst (Means v ps) (sym (if_true _ _ e)) (inl e)
  | inr e ↦
      subst (Means v ps) (sym (if_false _ _ e))
        (elim (polled-cases v.queue ps (
          if all_closed
          then ends
          else rests (node_idle v.queue v.mode v.block_wait_usec ps v.idle))) [
            | inl (same, none_there) ↦ subst (Means v ps) (sym same) (elim (Bool-cases all_closed) [
              | inl c ↦ subst (Means v ps) (sym (if_true _ _ c)) (inr (finished c none_there))
              | inr c ↦ subst (Means v ps) (sym (if_false _ _ c)) (e, none_there)
            ])
            | inr (a, took, among, some_there) ↦ subst (Means v ps) (sym took) (among, some_there)
          ])
]

-- At every turn, where no other thread acts during the turn: a node that receives takes a packet from a
-- channel that it polls and that holds one; a node that pauses was not told to stop, and all of its
-- channels are empty; and a node ends only when it was told to stop, or when all of its channels are
-- closed and empty.
pub node_turn-Means : (n : Node) (v : View) → Means v (ports n) (node_turn n v)
node_turn-Means tun v = loop_turn-Means v (ports tun) (tun_closed v.closed) (λ c empty. (
  (empty inj_tun refl, and_left _ _ c),
  ((empty forward_to_tun refl, and_right (v.closed inj_tun) _ c), tt),
))
node_turn-Means forward v = loop_turn-Means v (ports forward) (forward_closed v.closed) (λ c empty.
    let c₁ = and_right (v.closed tun_to_forward) _ c in
    let c₂ = and_right (v.closed tunnel_to_forward) _ c₁ in
    (
      (empty tun_to_forward refl, and_left _ _ c),
      (
        (empty tunnel_to_forward refl, and_left _ _ c₁),
        (
          (empty oam_to_forward refl, and_left _ _ c₂),
          ((empty enc_to_forward refl, and_right (v.closed oam_to_forward) _ c₂), tt),
        ),
      ),
    ))
node_turn-Means enc v = loop_turn-Means v (ports enc) (enc_closed v.closed) (λ c empty. (
  (empty forward_to_enc refl, and_left _ _ c),
  ((empty tunnel_to_enc refl, and_right (v.closed forward_to_enc) _ c), tt),
))
node_turn-Means tunnel v = loop_turn-Means v (ports tunnel) (tunnel_closed v.closed) (λ c empty.
    let c₁ = and_right (v.closed inj_tunnel) _ c in
    (
      (empty inj_tunnel refl, and_left _ _ c),
      (
        (empty enc_to_tunnel refl, and_left _ _ c₁),
        ((empty forward_to_tunnel refl, and_right (v.closed enc_to_tunnel) _ c₁), tt),
      ),
    ))
node_turn-Means oam v = loop_turn-Means v (ports oam) (oam_closed v.closed) (λ c empty. (
  (empty inj_oam refl, and_left _ _ c),
  ((empty forward_to_oam refl, and_right (v.closed inj_oam) _ c), tt),
))
