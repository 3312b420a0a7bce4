-- ===== src/Pipeline/Jam.antt =====
-- Two nodes that wait for each other: `tun_node` in a send to `forward_node`, and the other way round.
use libchan.Base.{
  true, false, ◌&&◌, Option, none, some, List, [], ◌∷◌, ◌++◌, ltb, length, ◌==◌, if_true, if_false,
  Bool-cases, ◌≡◌, refl, sym, ap, subst, ◌∙◌, inl, inr, arith,
}
use libchan.Pipeline.Topology.{
  PathId, Packet, Port, Node, tun, forward, enc, tunnel, oam, tun_to_forward, forward_to_tun, ports,
  handle, inject_ch, port_id, node_id, on,
}
use libchan.Pipeline.Plane.{
  PathStat, Plane, Event, receives, sends, injects, polls, chan_cap, set_queue, set_hand, set_stats,
  in_hand, take, receive_idle, node_receive, send_held, node_send, inject_packet, record_done,
  is_done, poll_done, step, run,
}
use libchan.Pipeline.Route.{same-port, same-node}
use mathlib.Core.Option.{some-injective}

-- Each node holds a packet for the other one, whose channel is full.
pub record Jam (x y : Packet) (pl : Plane) : Type 0 where
  pub tun_holds : pl.hand tun ≡ some (tun_to_forward, x)
  pub forward_holds : pl.hand forward ≡ some (forward_to_tun, y)
  pub full_out : ltb (length (pl.queue tun_to_forward)) chan_cap ≡ false
  pub full_back : ltb (length (pl.queue forward_to_tun)) chan_cap ≡ false

module _ (x y : Packet) where
  -- What an event does elsewhere.
  Jam-elsewhere :
      (pl pl' : Plane)
      → pl'.hand tun ≡ pl.hand tun
      → pl'.hand forward ≡ pl.hand forward
      → pl'.queue tun_to_forward ≡ pl.queue tun_to_forward
      → pl'.queue forward_to_tun ≡ pl.queue forward_to_tun
      → Jam x y pl
      → Jam x y pl'
  Jam-elsewhere pl pl' ht hf qo qb j = record {
    tun_holds = ht ∙ j.tun_holds;
    forward_holds = hf ∙ j.forward_holds;
    full_out = ap (λ t. ltb (length t) chan_cap) qo ∙ j.full_out;
    full_back = ap (λ t. ltb (length t) chan_cap) qb ∙ j.full_back;
  }

  -- Another node, and another channel than the two.
  node-Jam :
      (pl : Plane) (n : Node) (a : Port) (q : List Packet) (h : Option (Port × Packet))
      → (node_id tun == node_id n) ≡ false
      → (node_id forward == node_id n) ≡ false
      → (port_id tun_to_forward == port_id a) ≡ false
      → (port_id forward_to_tun == port_id a) ≡ false
      → Jam x y pl
      → Jam x y (set_hand (set_queue pl a q) n h)
  node-Jam pl n a q h nt nf ao ab j =
      Jam-elsewhere pl (set_hand (set_queue pl a q) n h) (if_false _ _ nt) (if_false _ _ nf)
        (if_false _ _ ao) (if_false _ _ ab) j

  off-out :
      (n : Node) (a : Port)
      → (node_id forward == node_id n) ≡ false
      → on a (ports n) ≡ true
      → (port_id tun_to_forward == port_id a) ≡ false
  off-out n a e h = ground arith

  off-back :
      (n : Node) (a : Port)
      → (node_id tun == node_id n) ≡ false
      → on a (ports n) ≡ true
      → (port_id forward_to_tun == port_id a) ≡ false
  off-back n a e h = ground arith

  take-Jam :
      (pl : Plane) (n : Node) (a : Port) (q : List Packet)
      → (node_id tun == node_id n) ≡ false
      → (node_id forward == node_id n) ≡ false
      → on a (ports n) ≡ true
      → Jam x y pl
      → Jam x y (take n a pl q)
  take-Jam pl n a [] nt nf polled j = j
  take-Jam pl n a (z ∷ rest) nt nf polled j =
      node-Jam pl n a rest (in_hand (handle a z.path) z) nt nf (off-out n a nf polled)
        (off-back n a nt polled) j

  -- A node with empty hands is none of the two.
  not_tun :
      (pl : Plane) (n : Node) → Jam x y pl → pl.hand n ≡ none → (node_id tun == node_id n) ≡ false
  not_tun pl tun j e = cc (sym j.tun_holds ∙ e)
  not_tun pl forward j e = refl
  not_tun pl enc j e = refl
  not_tun pl tunnel j e = refl
  not_tun pl oam j e = refl

  not_forward :
      (pl : Plane) (n : Node)
      → Jam x y pl
      → pl.hand n ≡ none
      → (node_id forward == node_id n) ≡ false
  not_forward pl tun j e = refl
  not_forward pl forward j e = cc (sym j.forward_holds ∙ e)
  not_forward pl enc j e = refl
  not_forward pl tunnel j e = refl
  not_forward pl oam j e = refl

  receive-Jam :
      (pl : Plane) (n : Node) (a : Port) (o : Option (Port × Packet))
      → pl.hand n ≡ o
      → Jam x y pl
      → Jam x y (receive_idle n a pl o)
  receive-Jam pl n a (some z) e j = j
  receive-Jam pl n a none e j = elim (Bool-cases (on a (ports n))) [
    | inl polled ↦
        subst (Jam x y) (sym (if_true _ _ polled))
          (take-Jam pl n a (pl.queue a) (not_tun pl n j e) (not_forward pl n j e) polled j)
    | inr other ↦ subst (Jam x y) (sym (if_false _ _ other)) j
  ]

  -- A channel with room is none of the two, and a node that sends into one is none of the two.
  roomy :
      (pl : Plane) (a b : Port)
      → ltb (length (pl.queue a)) chan_cap ≡ false
      → ltb (length (pl.queue b)) chan_cap ≡ true
      → (port_id a == port_id b) ≡ false
  roomy pl a b full room = elim (Bool-cases (port_id a == port_id b)) [
    | inl e ↦ cc (sym full ∙ ap (λ t. ltb (length (pl.queue t)) chan_cap) (same-port a b e) ∙ room)
    | inr e ↦ e
  ]

  send-Jam :
      (pl : Plane) (n : Node) (o : Option (Port × Packet))
      → pl.hand n ≡ o
      → Jam x y pl
      → Jam x y (send_held n pl o)
  send-Jam pl n none e j = j
  send-Jam pl n (some (b, z)) e j = elim (Bool-cases (ltb (length (pl.queue b)) chan_cap)) [
    | inl room ↦ subst (Jam x y) (sym (if_true _ _ room)) (
        node-Jam pl n b (pl.queue b ++ (z ∷ [])) none
          (elim (Bool-cases (node_id tun == node_id n)) [
            | inl t ↦ cc (
                sym j.full_out
                ∙ clash tun_to_forward x (sym j.tun_holds ∙ ap pl.hand (same-node tun n t) ∙ e)
                ∙ room)
            | inr t ↦ t
          ])
          (elim (Bool-cases (node_id forward == node_id n)) [
            | inl t ↦ cc (
                sym j.full_back
                ∙ clash forward_to_tun y
                    (sym j.forward_holds ∙ ap pl.hand (same-node forward n t) ∙ e)
                ∙ room)
            | inr t ↦ t
          ])
          (roomy pl tun_to_forward b j.full_out room) (roomy pl forward_to_tun b j.full_back room)
          j)
    | inr blocked ↦ subst (Jam x y) (sym (if_false _ _ blocked)) j
  ]
    where
      clash :
          (a : Port) (w : Packet)
          → ◌≡◌ {A = Option (Port × Packet)} (some (a, w)) (some (b, z))
          → ltb (length (pl.queue a)) chan_cap ≡ ltb (length (pl.queue b)) chan_cap
      clash a w g =
          ap (λ (t : Port × Packet). ltb (length (pl.queue t.0)) chan_cap) (some-injective _ _ g)

  inject-Jam :
      (pl : Plane) (p : PathId) (q : List Packet) (s : PathStat)
      → Jam x y pl
      → Jam x y (set_stats (set_queue pl (inject_ch p) q) p s)
  inject-Jam pl p q s j =
      Jam-elsewhere pl (set_stats (set_queue pl (inject_ch p) q) p s) refl refl
        (if_false _ _ (out p)) (if_false _ _ (back p)) j
    where
      out : (p : PathId) → (port_id tun_to_forward == port_id (inject_ch p)) ≡ false
      out p = ground arith

      back : (p : PathId) → (port_id forward_to_tun == port_id (inject_ch p)) ≡ false
      back p = ground arith

  record_done-Jam :
      (pl : Plane) (a : Port) (q : List Packet)
      → is_done a ≡ true
      → Jam x y pl
      → Jam x y (record_done a pl q)
  record_done-Jam pl a [] d j = j
  record_done-Jam pl a (z ∷ rest) d j =
      Jam-elsewhere pl (record_done a pl (z ∷ rest)) refl refl (if_false _ _ (out a d))
        (if_false _ _ (back a d)) j
    where
      out : (a : Port) → is_done a ≡ true → (port_id tun_to_forward == port_id a) ≡ false
      out a d = ground arith

      back : (a : Port) → is_done a ≡ true → (port_id forward_to_tun == port_id a) ≡ false
      back a d = ground arith

  step-Jam : (pl : Plane) (e : Event) → Jam x y pl → Jam x y (step pl e)
  unfolding step node_receive node_send inject_packet poll_done
  step-Jam pl (receives n a) j = receive-Jam pl n a (pl.hand n) refl j
  step-Jam pl (sends n) j = send-Jam pl n (pl.hand n) refl j
  step-Jam pl (injects p) j =
      elim (Bool-cases ((pl.stats p).enabled && ltb (length (pl.queue (inject_ch p))) chan_cap)) [
        | inl e ↦ subst (Jam x y) (sym (if_true _ _ e)) (inject-Jam pl p _ _ j)
        | inr e ↦ subst (Jam x y) (sym (if_false _ _ e)) j
      ]
  step-Jam pl (polls a) j = elim (Bool-cases (is_done a)) [
    | inl e ↦ subst (Jam x y) (sym (if_true _ _ e)) (record_done-Jam pl a (pl.queue a) e j)
    | inr e ↦ subst (Jam x y) (sym (if_false _ _ e)) j
  ]

-- Once `tun_node` waits to send to `forward_node` over a full channel, and `forward_node` to
-- `tun_node`, they wait with the same packets after every further schedule: nothing that any thread
-- does lets them go on.
pub run-Jam : (x y : Packet) (es : List Event) (pl : Plane) → Jam x y pl → Jam x y (run pl es)
unfolding run
run-Jam x y [] pl j = j
run-Jam x y (e ∷ es) pl j = run-Jam x y es (step pl e) (step-Jam x y pl e j)
