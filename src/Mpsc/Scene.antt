-- ===== src/Mpsc/Scene.antt =====
-- The pipeline with inboxes where two paths are on: what single turns of the nodes and of `main` make of
-- the inboxes of `tun_node`, `forward_node` and `tunnel_node`.
use libchan.Base.{
  ℕ, ◌+◌, true, false, not, Option, none, some, List, [], ◌∷◌, ◌++◌, length, ltb, ◌==◌,
  if◌then◌else◌, if_true, if_false, and_intro, ◌≡◌, refl, ap, ◌∙◌, u32,
}
use libchan.Pipeline.Topology.{
  PathId, path_tun_forward_enc_tunnel, path_tunnel_enc_forward_tun, path_tunnel_forward_tun,
  path_tun_forward_tunnel, path_tunnel_forward_oam, path_oam_forward_tunnel, Packet, Node, tun,
  forward, enc, tunnel, oam, path_id,
}
use libchan.Pipeline.Plane.{PathStat, u64}
use libchan.Pipeline.Totals.{all_paths}
use libchan.Mpsc.Boxes.{
  Box, in_tun, in_forward, in_enc, in_tunnel, in_oam, in_done, Boxes, has_room, node_receive,
  node_send, inject_packet, poll_done_try,
}
use libchan.Mpsc.Traffic.{Moment, meanwhile, Main, went, ◌>>=◌, inject_wait, inject_round}

-- What `tun_node`, `forward_node` and `tunnel_node` have in hand, and their inboxes.
abbrev pub scene :
    Option (Box × Packet)
    → Option (Box × Packet)
    → Option (Box × Packet)
    → List Packet
    → List Packet
    → List Packet
    → (PathId → PathStat)
    → Boxes
scene ht hf hn qt qf qn st = record {
  queue = λ b. elim b [
    | in_tun ↦ qt
    | in_forward ↦ qf
    | in_tunnel ↦ qn
    | in_enc ↦ []
    | in_oam ↦ []
    | in_done ↦ []
  ];
  hand = λ n. elim n [ tun ↦ ht | forward ↦ hf | tunnel ↦ hn | enc ↦ none | oam ↦ none ];
  stats = st;
}

-- At each inbox, and at each node.
at_boxes :
    (P : Box → Type 0)
    → P in_tun × P in_forward × P in_enc × P in_tunnel × P in_oam × P in_done
    → (b : Box) → P b
at_boxes P h in_tun = h.0
at_boxes P h in_forward = h.1
at_boxes P h in_enc = h.2
at_boxes P h in_tunnel = h.3
at_boxes P h in_oam = h.4
at_boxes P h in_done = h.5

at_nodes : (P : Node → Type 0) → P tun × P forward × P enc × P tunnel × P oam → (n : Node) → P n
at_nodes P h tun = h.0
at_nodes P h forward = h.1
at_nodes P h enc = h.2
at_nodes P h tunnel = h.3
at_nodes P h oam = h.4

pub Boxes-ext :
    (s t : Boxes)
    → (s.queue in_tun ≡ t.queue in_tun)
      × (s.queue in_forward ≡ t.queue in_forward)
      × (s.queue in_enc ≡ t.queue in_enc)
      × (s.queue in_tunnel ≡ t.queue in_tunnel)
      × (s.queue in_oam ≡ t.queue in_oam)
      × (s.queue in_done ≡ t.queue in_done)
    → (s.hand tun ≡ t.hand tun)
      × (s.hand forward ≡ t.hand forward)
      × (s.hand enc ≡ t.hand enc)
      × (s.hand tunnel ≡ t.hand tunnel)
      × (s.hand oam ≡ t.hand oam)
    → s.stats ≡ t.stats
    → s ≡ t
Boxes-ext s t queue hand stats = λ i. record {
  queue = λ b. at_boxes (λ c. s.queue c ≡ t.queue c) queue b i;
  hand = λ n. at_nodes (λ m. s.hand m ≡ t.hand m) hand n i;
  stats = stats i;
}

-- A packet of each of the two paths.
abbrev pub back : ℕ → Packet
back i = record { seq = i; path = path_tunnel_forward_tun }

abbrev pub out : ℕ → Packet
out i = record { seq = i; path = path_tun_forward_tunnel }

abbrev pub number : PathId → (PathId → PathStat) → ℕ
number p st = u32 (st p).sent

abbrev pub more : PathId → (PathId → PathStat) → PathId → PathStat
more p st q =
    if path_id q == path_id p then record (st p) { sent = u64 ((st p).sent + 1) } else st q

module _ (ht hf hn : Option (Box × Packet)) (qt qf qn : List Packet) (st : PathId → PathStat) where
  pub tun-receive :
      (i : ℕ)
      → node_receive tun (scene none hf hn (out i ∷ qt) qf qn st)
        ≡ scene (some (in_forward, out i)) hf hn qt qf qn st
  unfolding node_receive
  tun-receive i =
      Boxes-ext _ _ (refl, refl, refl, refl, refl, refl) (refl, refl, refl, refl, refl) refl

  pub tun-send :
      (x : Packet)
      → ltb (length qf) 8192 ≡ true
      → node_send tun (scene (some (in_forward, x)) hf hn qt qf qn st)
        ≡ scene none hf hn qt (qf ++ (x ∷ [])) qn st
  unfolding node_send
  tun-send x room =
      if_true _ (scene (some (in_forward, x)) hf hn qt qf qn st) room
      ∙ Boxes-ext _ _ (refl, refl, refl, refl, refl, refl) (refl, refl, refl, refl, refl) refl

  pub tunnel-receive :
      (i : ℕ)
      → node_receive tunnel (scene ht hf none qt qf (back i ∷ qn) st)
        ≡ scene ht hf (some (in_forward, back i)) qt qf qn st
  unfolding node_receive
  tunnel-receive i =
      Boxes-ext _ _ (refl, refl, refl, refl, refl, refl) (refl, refl, refl, refl, refl) refl

  pub tunnel-send :
      (x : Packet)
      → ltb (length qf) 8192 ≡ true
      → node_send tunnel (scene ht hf (some (in_forward, x)) qt qf qn st)
        ≡ scene ht hf none qt (qf ++ (x ∷ [])) qn st
  unfolding node_send
  tunnel-send x room =
      if_true _ (scene ht hf (some (in_forward, x)) qt qf qn st) room
      ∙ Boxes-ext _ _ (refl, refl, refl, refl, refl, refl) (refl, refl, refl, refl, refl) refl

  pub forward-receive :
      (i : ℕ)
      → node_receive forward (scene ht none hn qt (back i ∷ qf) qn st)
        ≡ scene ht (some (in_tun, back i)) hn qt qf qn st
  unfolding node_receive
  forward-receive i =
      Boxes-ext _ _ (refl, refl, refl, refl, refl, refl) (refl, refl, refl, refl, refl) refl

  inject-back :
      (st path_tunnel_forward_tun).enabled ≡ true
      → ltb (length qn) 8192 ≡ true
      → inject_packet path_tunnel_forward_tun (scene ht hf hn qt qf qn st)
        ≡ scene ht hf hn qt qf
            (qn ++ (back (number path_tunnel_forward_tun st) ∷ []))
            (more path_tunnel_forward_tun st)
  unfolding inject_packet
  inject-back live room =
      if_true _ (scene ht hf hn qt qf qn st)
        (and_intro (st path_tunnel_forward_tun).enabled (ltb (length qn) 8192) live room)
      ∙ Boxes-ext _ _ (refl, refl, refl, refl, refl, refl) (refl, refl, refl, refl, refl) refl

  inject-out :
      (st path_tun_forward_tunnel).enabled ≡ true
      → ltb (length qt) 4096 ≡ true
      → inject_packet path_tun_forward_tunnel (scene ht hf hn qt qf qn st)
        ≡ scene ht hf hn
            (qt ++ (out (number path_tun_forward_tunnel st) ∷ []))
            qf
            qn
            (more path_tun_forward_tunnel st)
  unfolding inject_packet
  inject-out live room =
      if_true _ (scene ht hf hn qt qf qn st)
        (and_intro (st path_tun_forward_tunnel).enabled (ltb (length qt) 4096) live room)
      ∙ Boxes-ext _ _ (refl, refl, refl, refl, refl, refl) (refl, refl, refl, refl, refl) refl

  -- `main` sends a packet of each path, where the nodes have come to this state before.
  pub wait-back :
      (s : Boxes) (m : Moment) (ms : List Moment)
      → meanwhile s m.others ≡ scene ht hf hn qt qf qn st
      → (st path_tunnel_forward_tun).enabled ≡ true
      → ltb (length qn) 8192 ≡ true
      → inject_wait path_tunnel_forward_tun s (m ∷ ms)
        ≡ went (record {
          boxes =
              scene ht hf hn qt qf
                (qn ++ (back (number path_tunnel_forward_tun st) ∷ []))
                (more path_tunnel_forward_tun st);
          ahead = ms;
        })
  unfolding poll_done_try
  wait-back s m ms e live room =
      if_true _ (inject_wait path_tunnel_forward_tun (meanwhile s m.others) ms)
        (ap (λ t. has_room t in_tunnel) e ∙ room)
      ∙ ap
          (λ t. went (record {
            boxes = poll_done_try (inject_packet path_tunnel_forward_tun t);
            ahead = ms;
          }))
          e
      ∙ ap (λ t. went (record { boxes = poll_done_try t; ahead = ms })) (inject-back live room)

  pub wait-out :
      (s : Boxes) (m : Moment) (ms : List Moment)
      → meanwhile s m.others ≡ scene ht hf hn qt qf qn st
      → (st path_tun_forward_tunnel).enabled ≡ true
      → ltb (length qt) 4096 ≡ true
      → inject_wait path_tun_forward_tunnel s (m ∷ ms)
        ≡ went (record {
          boxes =
              scene ht hf hn
                (qt ++ (out (number path_tun_forward_tunnel st) ∷ []))
                qf
                qn
                (more path_tun_forward_tunnel st);
          ahead = ms;
        })
  unfolding poll_done_try
  wait-out s m ms e live room =
      if_true _ (inject_wait path_tun_forward_tunnel (meanwhile s m.others) ms)
        (ap (λ t. has_room t in_tun) e ∙ room)
      ∙ ap
          (λ t. went (record {
            boxes = poll_done_try (inject_packet path_tun_forward_tunnel t);
            ahead = ms;
          }))
          e
      ∙ ap (λ t. went (record { boxes = poll_done_try t; ahead = ms })) (inject-out live room)

-- The two paths are on, and no other.
abbrev pub OnlyTwo : (PathId → PathStat) → Type 0
OnlyTwo st =
    ((st path_tun_forward_enc_tunnel).enabled ≡ false)
    × ((st path_tunnel_enc_forward_tun).enabled ≡ false)
    × ((st path_tunnel_forward_tun).enabled ≡ true)
    × ((st path_tun_forward_tunnel).enabled ≡ true)
    × ((st path_tunnel_forward_oam).enabled ≡ false)
    × ((st path_oam_forward_tunnel).enabled ≡ false)

skip :
    (p : PathId) (ps : List PathId) (s : Main)
    → (s.boxes.stats p).enabled ≡ false
    → inject_round (p ∷ ps) s ≡ inject_round ps s
skip p ps s e = if_true _ (inject_wait p s.boxes s.ahead >>= inject_round ps) (ap not e)

visit :
    (p : PathId) (ps : List PathId) (s t : Main)
    → (s.boxes.stats p).enabled ≡ true
    → inject_wait p s.boxes s.ahead ≡ went t
    → inject_round (p ∷ ps) s ≡ inject_round ps t
visit p ps s t e w = if_false (inject_round ps s) _ (ap not e) ∙ ap (λ r. r >>= inject_round ps) w

-- A round sends one packet of each, that of `path_tunnel_forward_tun` first.
pub two-round :
    (s t u : Main)
    → OnlyTwo s.boxes.stats
    → OnlyTwo t.boxes.stats
    → OnlyTwo u.boxes.stats
    → inject_wait path_tunnel_forward_tun s.boxes s.ahead ≡ went t
    → inject_wait path_tun_forward_tunnel t.boxes t.ahead ≡ went u
    → inject_round all_paths s ≡ went u
two-round s t u a b c e f =
    skip path_tun_forward_enc_tunnel
      (path_tunnel_enc_forward_tun ∷ path_tunnel_forward_tun ∷ path_tun_forward_tunnel
        ∷ path_tunnel_forward_oam ∷ path_oam_forward_tunnel ∷ [])
      s a.0
    ∙ skip path_tunnel_enc_forward_tun
        (path_tunnel_forward_tun ∷ path_tun_forward_tunnel ∷ path_tunnel_forward_oam
          ∷ path_oam_forward_tunnel ∷ [])
        s a.1
    ∙ visit path_tunnel_forward_tun
        (path_tun_forward_tunnel ∷ path_tunnel_forward_oam ∷ path_oam_forward_tunnel ∷ []) s t a.2 e
    ∙ visit path_tun_forward_tunnel (path_tunnel_forward_oam ∷ path_oam_forward_tunnel ∷ []) t u b.3
        f
    ∙ skip path_tunnel_forward_oam (path_oam_forward_tunnel ∷ []) u c.4
    ∙ skip path_oam_forward_tunnel [] u c.5
