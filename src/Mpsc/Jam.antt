-- ===== src/Mpsc/Jam.antt =====
-- The state of the pipeline with inboxes in which `tun_node` is in a send to the full inbox of
-- `forward_node`, and the other way round.
use mathlib.Core.Option.{some-injective}
use libchan.Base.{
  true, false, ◌&&◌, Option, none, some, List, [], ◌∷◌, ◌++◌, ◌==◌, if_true, if_false, Bool-cases,
  and_right, ◌≡◌, refl, sym, ap, subst, ◌∙◌, inl, inr,
}
use libchan.Pipeline.Topology.{PathId, Packet, Node, tun, forward, enc, tunnel, oam, node_id}
use libchan.Pipeline.Plane.{PathStat}
use libchan.Pipeline.Route.{same-node}
use libchan.Mpsc.Boxes.{
  Box, in_tun, in_forward, in_done, box_id, inbox, inject_inbox, Boxes, set_queue, set_hand,
  set_stats, take, receive_idle, has_room, send_held, node_receive, node_send, inject_packet,
  record_done, poll_done_try, Event, receives, sends, injects, polls, step, run,
}
use libchan.Mpsc.Links.{same-box}

-- Each node holds a packet for the other one, whose inbox is full.
pub record Jam (x y : Packet) (s : Boxes) : Type 0 where
  pub tun_holds : s.hand tun ≡ some (in_forward, x)
  pub forward_holds : s.hand forward ≡ some (in_tun, y)
  pub full_out : has_room s in_forward ≡ false
  pub full_back : has_room s in_tun ≡ false

module _ (x y : Packet) where
  -- What an event does elsewhere.
  Jam-elsewhere :
      (s t : Boxes)
      → t.hand tun ≡ s.hand tun
      → t.hand forward ≡ s.hand forward
      → t.queue in_forward ≡ s.queue in_forward
      → t.queue in_tun ≡ s.queue in_tun
      → Jam x y s
      → Jam x y t
  Jam-elsewhere s t ht hf qo qb j = record {
    tun_holds = ht ∙ j.tun_holds;
    forward_holds = hf ∙ j.forward_holds;
    full_out = ap (λ q. has_room (set_queue t in_forward q) in_forward) qo ∙ j.full_out;
    full_back = ap (λ q. has_room (set_queue t in_tun q) in_tun) qb ∙ j.full_back;
  }

  -- A node with an inbox that is none of the two is none of the two, and takes from its own.
  take-Jam :
      (s : Boxes) (n : Node) (q : List Packet) → s.hand n ≡ none → Jam x y s → Jam x y (take n s q)
  take-Jam s n [] e j = j
  take-Jam s tun (z ∷ rest) e j = cc (sym j.tun_holds ∙ e)
  take-Jam s forward (z ∷ rest) e j = cc (sym j.forward_holds ∙ e)
  take-Jam s enc (z ∷ rest) e j = Jam-elsewhere s (take enc s (z ∷ rest)) refl refl refl refl j
  take-Jam s tunnel (z ∷ rest) e j =
      Jam-elsewhere s (take tunnel s (z ∷ rest)) refl refl refl refl j
  take-Jam s oam (z ∷ rest) e j = Jam-elsewhere s (take oam s (z ∷ rest)) refl refl refl refl j

  receive-Jam :
      (s : Boxes) (n : Node) (o : Option (Box × Packet))
      → s.hand n ≡ o
      → Jam x y s
      → Jam x y (receive_idle n s o)
  receive-Jam s n (some z) e j = j
  receive-Jam s n none e j = take-Jam s n (s.queue (inbox n)) e j

  -- An inbox with room is none of the two.
  roomy :
      (s : Boxes) (a b : Box)
      → has_room s a ≡ false
      → has_room s b ≡ true
      → (box_id a == box_id b) ≡ false
  roomy s a b full room = elim (Bool-cases (box_id a == box_id b)) [
    | inl e ↦ cc (sym full ∙ ap (has_room s) (same-box a b e) ∙ room)
    | inr e ↦ e
  ]

  -- A node that sends into an inbox with room is none of the two.
  other-node :
      (s : Boxes) (k n : Node) (a b : Box) (w z : Packet)
      → s.hand k ≡ some (a, w)
      → s.hand n ≡ some (b, z)
      → has_room s a ≡ false
      → has_room s b ≡ true
      → (node_id k == node_id n) ≡ false
  other-node s k n a b w z hk hn full room = elim (Bool-cases (node_id k == node_id n)) [
    | inl e ↦ cc (
        sym full
        ∙ ap (λ (t : Box × Packet). has_room s t.0)
            (some-injective _ _ (sym hk ∙ ap s.hand (same-node k n e) ∙ hn))
        ∙ room)
    | inr e ↦ e
  ]

  send-Jam :
      (s : Boxes) (n : Node) (o : Option (Box × Packet))
      → s.hand n ≡ o
      → Jam x y s
      → Jam x y (send_held n s o)
  send-Jam s n none e j = j
  send-Jam s n (some (b, z)) e j = elim (Bool-cases (has_room s b)) [
    | inl room ↦ subst (Jam x y) (sym (if_true _ _ room)) (
        Jam-elsewhere s (set_hand (set_queue s b (s.queue b ++ (z ∷ []))) n none)
          (if_false _ _ (other-node s tun n in_forward b x z j.tun_holds e j.full_out room))
          (if_false _ _ (other-node s forward n in_tun b y z j.forward_holds e j.full_back room))
          (if_false _ _ (roomy s in_forward b j.full_out room))
          (if_false _ _ (roomy s in_tun b j.full_back room)) j)
    | inr blocked ↦ subst (Jam x y) (sym (if_false _ _ blocked)) j
  ]

  inject-Jam :
      (s : Boxes) (p : PathId) (q : List Packet) (t : PathStat)
      → has_room s (inject_inbox p) ≡ true
      → Jam x y s
      → Jam x y (set_stats (set_queue s (inject_inbox p) q) p t)
  inject-Jam s p q t room j =
      Jam-elsewhere s (set_stats (set_queue s (inject_inbox p) q) p t) refl refl
        (if_false _ _ (roomy s in_forward (inject_inbox p) j.full_out room))
        (if_false _ _ (roomy s in_tun (inject_inbox p) j.full_back room)) j

  record_done-Jam : (s : Boxes) (q : List Packet) → Jam x y s → Jam x y (record_done s q)
  record_done-Jam s [] j = j
  record_done-Jam s (z ∷ rest) j = Jam-elsewhere s (record_done s (z ∷ rest)) refl refl refl refl j

  pub step-Jam : (s : Boxes) (e : Event) → Jam x y s → Jam x y (step s e)
  unfolding step node_receive node_send inject_packet poll_done_try
  step-Jam s (receives n) j = receive-Jam s n (s.hand n) refl j
  step-Jam s (sends n) j = send-Jam s n (s.hand n) refl j
  step-Jam s (injects p) j =
      elim (Bool-cases ((s.stats p).enabled && has_room s (inject_inbox p))) [
        | inl e ↦
            subst (Jam x y) (sym (if_true _ _ e))
              (inject-Jam s p _ _ (and_right (s.stats p).enabled _ e) j)
        | inr e ↦ subst (Jam x y) (sym (if_false _ _ e)) j
      ]
  step-Jam s polls j = record_done-Jam s (s.queue in_done) j

-- Once the two wait, they wait with the same packets after every further schedule.
pub run-Jam : (x y : Packet) (es : List Event) (s : Boxes) → Jam x y s → Jam x y (run s es)
unfolding run
run-Jam x y [] s j = j
run-Jam x y (e ∷ es) s j = run-Jam x y es (step s e) (step-Jam x y s e j)
