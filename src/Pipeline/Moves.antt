-- ===== src/Pipeline/Moves.antt =====
-- What the events of the pipeline do to the packets on their way into and in each channel.
use libchan.Base.{
  ℕ, true, false, Option, none, some, List, [], ◌∷◌, ◌++◌, append-nil, ◌≡◌, refl, sym, ap, ap₂, ◌∙◌,
  ◌==◌, ==_refl, if◌then◌else◌, if_true, if_false, Bool-cases, inl, inr, arith,
}
use libchan.Pipeline.Topology.{Packet, Port, Node, ports, handle, port_id, node_id, on}
use libchan.Pipeline.Plane.{Plane, set_queue, set_hand}
use libchan.Pipeline.Route.{producer, same-port, same-node, handle-ne, handle-producer}
use libchan.Pipeline.Flight.{Moved}

-- The packet in a node's hand, if it is to go into the channel `c`.
abbrev pub held : Option (Port × Packet) → Port → List Packet
held none c = []
held (some (b, x)) c = if port_id b == port_id c then x ∷ [] else []

abbrev pub held_by : Option Node → (Node → Option (Port × Packet)) → Port → List Packet
held_by none hand c = []
held_by (some n) hand c = held (hand n) c

-- A channel, and behind it what its producer is about to send.
abbrev pub full : Plane → Port → List Packet
full pl c = pl.queue c ++ held_by (producer c) pl.hand c

held_by-congr :
    (o : Option Node) (hand hand' : Node → Option (Port × Packet)) (c : Port)
    → ((m : Node) → held (hand' m) c ≡ held (hand m) c)
    → held_by o hand' c ≡ held_by o hand c
held_by-congr none hand hand' c same = refl
held_by-congr (some m) hand hand' c same = same m

pub held-other :
    (b c : Port) (x : Packet) → (port_id c == port_id b) ≡ false → held (some (b, x)) c ≡ []
held-other b c x e = if_false _ _ (turn (port_id b) (port_id c) e)
  where
    turn : (i j : ℕ) → (j == i) ≡ false → (i == j) ≡ false
    turn i j h = ground arith

pub held-own : (b : Port) (x : Packet) → held (some (b, x)) b ≡ x ∷ []
held-own b x = if_true _ _ (==_refl (port_id b))

-- A change of a hand that shows in one channel at most.
hand-elsewhere :
    (pl : Plane) (n : Node) (h : Option (Port × Packet)) (c : Port)
    → held h c ≡ held (pl.hand n) c
    → held_by (producer c) (set_hand pl n h).hand c ≡ held_by (producer c) pl.hand c
hand-elsewhere pl n h c same = held_by-congr (producer c) pl.hand (set_hand pl n h).hand c (λ m.
    elim (Bool-cases (node_id m == node_id n)) [
      | inl e ↦
          ap (λ t. held t c) (if_true _ _ e)
          ∙ same
          ∙ ap (λ t. held (pl.hand t) c) (sym (same-node m n e))
      | inr e ↦ ap (λ t. held t c) (if_false _ _ e)
    ])

held_by-own :
    (pl : Plane) (n : Node) (h : Option (Port × Packet)) (b : Port)
    → producer b ≡ some n
    → held_by (producer b) (set_hand pl n h).hand b ≡ held h b
held_by-own pl n h b e =
    ap (λ o. held_by o (set_hand pl n h).hand b) e
    ∙ ap (λ t. held t b) (if_true _ _ (==_refl (node_id n)))

-- A receive moves the first packet of `a` on to the back of the channel that the handler chose.
pub receive-Moved :
    (pl : Plane) (n : Node) (a b : Port) (x : Packet) (rest : List Packet)
    → pl.hand n ≡ none
    → on a (ports n) ≡ true
    → pl.queue a ≡ x ∷ rest
    → handle a x.path ≡ some b
    → Moved (full pl) (full (set_hand (set_queue pl a rest) n (some (b, x)))) a b x
receive-Moved pl n a b x rest idle polled q sent = record {
  left =
      ap (λ t. t ++ held_by (producer a) pl.hand a) q
      ∙ ap (λ t. x ∷ t)
          (ap₂ ◌++◌ (sym (if_true _ _ (==_refl (port_id a))))
            (sym (untouched a (handle-ne a b x.path sent))));
  came =
      ap₂ ◌++◌ (if_false _ _ (turn (port_id a) (port_id b) (handle-ne a b x.path sent)))
        (held_by-own pl n (some (b, x)) b made ∙ held-own b x)
      ∙ ap (λ t. t ++ (x ∷ []))
          (sym (append-nil (pl.queue b))
            ∙ ap (λ t. pl.queue b ++ t)
                (sym (ap (λ o. held_by o pl.hand b) made ∙ ap (λ t. held t b) idle)));
  others = λ c ca cb. ap₂ ◌++◌ (if_false _ _ ca) (untouched c cb);
}
  where
    turn : (i j : ℕ) → (i == j) ≡ false → (j == i) ≡ false
    turn i j h = ground arith

    made : producer b ≡ some n
    made = handle-producer n a b x.path polled sent

    untouched :
        (c : Port)
        → (port_id c == port_id b) ≡ false
        → held_by (producer c) (set_hand pl n (some (b, x))).hand c ≡ held_by (producer c) pl.hand c
    untouched c e =
        hand-elsewhere pl n (some (b, x)) c (held-other b c x e ∙ ap (λ t. held t c) (sym idle))

-- A send only turns the packet that was held into the last of its channel.
pub send-full :
    (pl : Plane) (n : Node) (b : Port) (x : Packet) (c : Port)
    → pl.hand n ≡ some (b, x)
    → producer b ≡ some n
    → full (set_hand (set_queue pl b (pl.queue b ++ (x ∷ []))) n none) c ≡ full pl c
send-full pl n b x c h made = elim (Bool-cases (port_id c == port_id b)) [
  | inl e ↦
      let eq = same-port c b e in
      ap (full (set_hand (set_queue pl b (pl.queue b ++ (x ∷ []))) n none)) eq
      ∙ ap₂ ◌++◌ (if_true _ _ (==_refl (port_id b))) (held_by-own pl n none b made)
      ∙ append-nil (pl.queue b ++ (x ∷ []))
      ∙ ap (λ t. pl.queue b ++ t)
          (sym (ap (λ o. held_by o pl.hand b) made ∙ ap (λ t. held t b) h ∙ held-own b x))
      ∙ ap (full pl) (sym eq)
  | inr e ↦
      ap₂ ◌++◌ (if_false _ _ e)
        (hand-elsewhere pl n none c (sym (ap (λ t. held t c) h ∙ held-other b c x e)))
]
