-- ===== src/Mpsc/Follows.antt =====
-- Events on the inboxes, seen on the links.
use libchan.Base.{
  ℕ, Bool, true, false, Option, none, List, [], ◌∷◌, ◌++◌, ◌≡◌, append-nil, refl, sym, ap, ap₂, ◌∙◌,
  ◌==◌, ==_refl, if◌then◌else◌, if_true, if_false, Bool-cases, inl, inr, arith,
}
use libchan.Pipeline.Topology.{PathId, Packet, Port, Node, port_id, node_id}
use libchan.Pipeline.Plane.{Plane, PathStat}
use libchan.Pipeline.Plane
use libchan.Pipeline.Route.{same-port}
use libchan.Mpsc.Boxes.{Box, box_id, Boxes, set_queue, set_hand, set_stats}
use libchan.Mpsc.Links.{link, box_of, came_on, linked, view, same-box, box_of-link, came_on-append}

same-plane :
    (pl pl' : Plane)
    → ((a : Port) → pl.queue a ≡ pl'.queue a)
    → ((n : Node) → pl.hand n ≡ pl'.hand n)
    → pl.stats ≡ pl'.stats
    → pl ≡ pl'
same-plane pl pl' queue hand stats =
    λ i. record { queue = λ a. queue a i; hand = λ n. hand n i; stats = stats i }

-- A packet is seen on the link on which it came, and on no other.
came_on-own :
    (x : Packet) (b : Box) (xs : List Packet)
    → came_on (link x.path b) (x ∷ xs) ≡ x ∷ came_on (link x.path b) xs
came_on-own x b xs = if_true _ _ (
    ap (λ t. port_id (link x.path t) == port_id (link x.path b)) (box_of-link x.path b)
    ∙ ==_refl (port_id (link x.path b)))

came_on-other :
    (x : Packet) (b : Box) (c : Port) (xs : List Packet)
    → box_of c ≡ b
    → (port_id c == port_id (link x.path b)) ≡ false
    → came_on c (x ∷ xs) ≡ came_on c xs
came_on-other x b c xs e apart = if_false _ _ (
    ap (λ t. port_id (link x.path t) == port_id c) e
    ∙ turn (port_id c) (port_id (link x.path b)) apart)
  where
    turn : (i j : ℕ) → (i == j) ≡ false → (j == i) ≡ false
    turn i j h = ground arith

-- An inbox changed: so did the link on which `x` came, and no other.
queue-view :
    (s : Boxes) (b : Box) (x : Packet) (q : List Packet) (c : Port)
    → (box_of c ≡ b
        → (port_id c == port_id (link x.path b)) ≡ false
        → came_on c q ≡ came_on c (s.queue b))
    → (view (set_queue s b q)).queue c
      ≡ (Plane.set_queue (view s) (link x.path b) (came_on (link x.path b) q)).queue c
queue-view s b x q c others = elim (Bool-cases (port_id c == port_id (link x.path b))) [
  | inl e ↦
      let eq = same-port c (link x.path b) e in
      ap (λ t. (view (set_queue s b q)).queue t) eq
      ∙ ap (came_on (link x.path b))
          (if_true _ _ (ap (λ t. box_id t == box_id b) (box_of-link x.path b) ∙ ==_refl (box_id b)))
      ∙ sym (if_true _ _ e)
  | inr e ↦ elim (Bool-cases (box_id (box_of c) == box_id b)) [
    | inl here ↦
        let at = same-box (box_of c) b here in
        ap (came_on c) (if_true _ _ here)
        ∙ others at e
        ∙ ap (λ t. came_on c (s.queue t)) (sym at)
        ∙ sym (if_false _ _ e)
    | inr there ↦ ap (came_on c) (if_false _ _ there) ∙ sym (if_false _ _ e)
  ]
]

linked-if :
    (t : Bool) (h k : Option (Box × Packet))
    → linked (if t then h else k) ≡ (if t then linked h else linked k)
linked-if true h k = refl
linked-if false h k = refl

-- `x` goes out of an inbox, or comes in.
module _ (s : Boxes) (b : Box) (x : Packet) where
  pub front-view :
      (rest : List Packet)
      → s.queue b ≡ x ∷ rest
      → (view s).queue (link x.path b) ≡ x ∷ came_on (link x.path b) rest
  front-view rest e =
      ap (λ t. came_on (link x.path b) (s.queue t)) (box_of-link x.path b)
      ∙ ap (came_on (link x.path b)) e
      ∙ came_on-own x b rest

  shrunk :
      (rest : List Packet) (c : Port)
      → s.queue b ≡ x ∷ rest
      → (view (set_queue s b rest)).queue c
        ≡ (Plane.set_queue (view s) (link x.path b) (came_on (link x.path b) rest)).queue c
  shrunk rest c e =
      queue-view s b x rest c
        (λ at apart. sym (came_on-other x b c rest at apart) ∙ ap (came_on c) (sym e))

  grown :
      (c : Port)
      → (view (set_queue s b (s.queue b ++ (x ∷ [])))).queue c
        ≡ (Plane.set_queue
              (view s)
              (link x.path b)
              ((view s).queue (link x.path b) ++ (x ∷ []))).queue
            c
  grown c =
      queue-view s b x (s.queue b ++ (x ∷ [])) c (λ at apart.
        came_on-append c (s.queue b) (x ∷ [])
        ∙ ap (λ t. came_on c (s.queue b) ++ t) (came_on-other x b c [] at apart)
        ∙ append-nil (came_on c (s.queue b)))
      ∙ ap (λ t. (Plane.set_queue (view s) (link x.path b) t).queue c)
          (came_on-append (link x.path b) (s.queue b) (x ∷ [])
            ∙ ap₂ (λ t u. came_on (link x.path b) (s.queue t) ++ u) (sym (box_of-link x.path b))
                (came_on-own x b []))

  -- A receive, a send, an injection, and a packet that is counted.
  pub view-received :
      (n : Node) (rest : List Packet) (o : Option (Box × Packet))
      → s.queue b ≡ x ∷ rest
      → view (set_hand (set_queue s b rest) n o)
        ≡ Plane.set_hand
            (Plane.set_queue (view s) (link x.path b) (came_on (link x.path b) rest))
            n
            (linked o)
  view-received n rest o e =
      same-plane _ _ (λ c. shrunk rest c e) (λ m. linked-if (node_id m == node_id n) o (s.hand m))
        refl

  pub view-sent :
      (n : Node)
      → view (set_hand (set_queue s b (s.queue b ++ (x ∷ []))) n none)
        ≡ Plane.set_hand
            (Plane.set_queue (view s) (link x.path b) ((view s).queue (link x.path b) ++ (x ∷ [])))
            n
            none
  view-sent n = same-plane _ _ grown (λ m. linked-if (node_id m == node_id n) none (s.hand m)) refl

  pub view-injected :
      (p : PathId) (t : PathStat)
      → view (set_stats (set_queue s b (s.queue b ++ (x ∷ []))) p t)
        ≡ Plane.set_stats
            (Plane.set_queue (view s) (link x.path b) ((view s).queue (link x.path b) ++ (x ∷ [])))
            p
            t
  view-injected p t = same-plane _ _ grown (λ m. refl) refl

  pub view-counted :
      (rest : List Packet) (p : PathId) (t : PathStat)
      → s.queue b ≡ x ∷ rest
      → view (set_stats (set_queue s b rest) p t)
        ≡ Plane.set_stats
            (Plane.set_queue (view s) (link x.path b) (came_on (link x.path b) rest))
            p
            t
  view-counted rest p t e = same-plane _ _ (λ c. shrunk rest c e) (λ m. refl) refl
