-- ===== src/Pipeline/Order.antt =====
-- The invariant of the pipeline: what is under way on a path is exactly what was injected and not yet
-- counted, in order. The turns of the nodes keep it.
use libchan.Base.{
  ℕ, suc, true, Option, none, some, List, [], ◌∷◌, ◌++◌, ◌≡◌, refl, sym, ap, subst, ◌∙◌, ◌==◌, ltb,
  if_true, if_false, Bool-cases, Option-cases, inl, inr, length,
}
use mathlib.Core.Option.{some-injective}
use libchan.Pipeline.Topology.{
  PathId, Packet, Port, Node, ports, handle, port_id, node_id, path_id, on,
}
use libchan.Pipeline.Plane.{
  Plane, chan_cap, in_hand, set_queue, set_hand, take, receive_idle, send_held,
}
use libchan.Pipeline.Route.{
  follows, route, producer, same-port, same-node, same-path, handle-follows, handle-sends,
  handle-producer, follows-on,
}
use libchan.Pipeline.Flight.{pick, along, Moved, along-congr, along-other, along-Moved}
use libchan.Pipeline.Moves.{held_by, full, receive-Moved, send-full}
use libchan.Pipeline.Accounts.{Accounts, more-Accounts, same-Accounts}

-- The sequence numbers of the packets of a path that are under way, the oldest first.
abbrev pub flight : Plane → PathId → List ℕ
flight pl p = along (full pl) p (route p)

abbrev pub AllOn : Port → List Packet → Type 0
AllOn a [] = Unit
AllOn a (x ∷ xs) = (on a (route x.path) ≡ true) × AllOn a xs

-- After `m` events.
pub record InOrder (pl : Plane) (m : ℕ) : Type 0 where
  pub hands : (n : Node) (b : Port) (x : Packet) → pl.hand n ≡ some (b, x) → producer b ≡ some n
  pub on_route : (a : Port) → AllOn a (full pl a)
  pub accounts : (p : PathId) → Accounts (pl.stats p) (flight pl p) m

pub AllOn-append : (a : Port) (xs ys : List Packet) → AllOn a xs → AllOn a ys → AllOn a (xs ++ ys)
AllOn-append a [] ys h k = k
AllOn-append a (x ∷ xs) ys h k = (h.0, AllOn-append a xs ys h.1 k)

-- An event that leaves the plane alone.
pub idle-InOrder : (pl : Plane) (m : ℕ) → InOrder pl m → InOrder pl (suc m)
idle-InOrder pl m h = record {
  hands = h.hands;
  on_route = h.on_route;
  accounts = λ p. more-Accounts (pl.stats p) (flight pl p) m (h.accounts p);
}

AllOn-Moved :
    (f f' : Port → List Packet) (a b : Port) (x : Packet)
    → Moved f f' a b x
    → on b (route x.path) ≡ true
    → ((c : Port) → AllOn c (f c))
    → (c : Port) → AllOn c (f' c)
AllOn-Moved f f' a b x m ok all c = elim (Bool-cases (port_id c == port_id a)) [
  | inl e ↦ subst (λ t. AllOn t (f' t)) (sym (same-port c a e)) ((subst (AllOn a) m.left (all a)).1)
  | inr ca ↦ elim (Bool-cases (port_id c == port_id b)) [
    | inl e ↦
        subst (λ t. AllOn t (f' t)) (sym (same-port c b e))
          (subst (AllOn b) (sym m.came) (AllOn-append b (f b) (x ∷ []) (all b) (ok, tt)))
    | inr cb ↦ subst (AllOn c) (sym (m.others c ca cb)) (all c)
  ]
]

-- A hand that was filled with a packet for `b`, whose producer the node is.
hands-filled :
    (pl : Plane) (n : Node) (b : Port) (x : Packet) (k : Node) (c : Port) (y : Packet)
    → producer b ≡ some n
    → (pl.hand k ≡ some (c, y) → producer c ≡ some k)
    → (set_hand pl n (some (b, x))).hand k ≡ some (c, y)
    → producer c ≡ some k
hands-filled pl n b x k c y made old e = elim (Bool-cases (node_id k == node_id n)) [
  | inl same ↦
      let eq = some-injective _ _ (sym (if_true _ _ same) ∙ e) in
      ap (λ (t : Port × Packet). producer t.0) (sym eq) ∙ made ∙ ap some (sym (same-node k n same))
  | inr other ↦ old (sym (if_false _ _ other) ∙ e)
]

-- A receive of a packet that is on its route.
pub receive-InOrder :
    (pl : Plane) (m : ℕ) (n : Node) (a b : Port) (x : Packet) (rest : List Packet)
    → InOrder pl m
    → pl.hand n ≡ none
    → on a (ports n) ≡ true
    → pl.queue a ≡ x ∷ rest
    → handle a x.path ≡ some b
    → InOrder (set_hand (set_queue pl a rest) n (some (b, x))) (suc m)
receive-InOrder pl m n a b x rest h idle polled q sent = record {
  hands = λ k c y e.
      hands-filled (set_queue pl a rest) n b x k c y (handle-producer n a b x.path polled sent)
        (h.hands k c y) e;
  on_route =
      AllOn-Moved (full pl) (full pl') a b x moved (follows-on a b (route x.path) next) h.on_route;
  accounts = λ p.
      same-Accounts (pl.stats p) (flight pl p) (flight pl' p) m
        (elim (Bool-cases (path_id x.path == path_id p)) [
          | inl e ↦
              along-Moved (full pl) (full pl') a b x p (route p) moved (same-path x.path p e)
                (subst (λ t. follows a b (route t) ≡ true) (same-path x.path p e) next)
          | inr e ↦ along-other (full pl) (full pl') a b x p (route p) moved e
        ])
        (h.accounts p);
}
  where
    pl' : Plane
    pl' = set_hand (set_queue pl a rest) n (some (b, x))

    moved : Moved (full pl) (full pl') a b x
    moved = receive-Moved pl n a b x rest idle polled q sent

    next : follows a b (route x.path) ≡ true
    next = handle-follows a b x.path ((subst (AllOn a) moved.left (h.on_route a)).0) sent

pub front-on :
    (pl : Plane) (m : ℕ) (a : Port) (x : Packet) (rest : List Packet)
    → InOrder pl m
    → pl.queue a ≡ x ∷ rest
    → on a (route x.path) ≡ true
front-on pl m a x rest h q =
    (subst (AllOn a) (ap (λ t. t ++ held_by (producer a) pl.hand a) q) (h.on_route a)).0

take-InOrder :
    (pl : Plane) (m : ℕ) (n : Node) (a : Port) (q : List Packet)
    → InOrder pl m
    → pl.hand n ≡ none
    → on a (ports n) ≡ true
    → pl.queue a ≡ q
    → InOrder (take n a pl q) (suc m)
take-InOrder pl m n a [] h idle polled e = idle-InOrder pl m h
take-InOrder pl m n a (x ∷ rest) h idle polled e = elim (Option-cases (handle a x.path)) [
  | inl dropped ↦ absurd (handle-sends n a x.path polled (front-on pl m a x rest h e) dropped)
  | inr (b, sent) ↦
      subst (λ t. InOrder (set_hand (set_queue pl a rest) n (in_hand t x)) (suc m)) (sym sent)
        (receive-InOrder pl m n a b x rest h idle polled e sent)
]

pub receive_idle-InOrder :
    (pl : Plane) (m : ℕ) (n : Node) (a : Port) (o : Option (Port × Packet))
    → InOrder pl m
    → pl.hand n ≡ o
    → InOrder (receive_idle n a pl o) (suc m)
receive_idle-InOrder pl m n a (some y) h e = idle-InOrder pl m h
receive_idle-InOrder pl m n a none h e = elim (Bool-cases (on a (ports n))) [
  | inl polled ↦
      subst (λ t. InOrder t (suc m)) (sym (if_true _ _ polled))
        (take-InOrder pl m n a (pl.queue a) h e polled refl)
  | inr other ↦ subst (λ t. InOrder t (suc m)) (sym (if_false _ _ other)) (idle-InOrder pl m h)
]

-- A change that shows in no channel together with the hand behind it.
unmoved-InOrder :
    (pl pl' : Plane) (m : ℕ)
    → InOrder pl m
    → ((n : Node) (b : Port) (x : Packet) → pl'.hand n ≡ some (b, x) → producer b ≡ some n)
    → ((c : Port) → full pl' c ≡ full pl c)
    → pl'.stats ≡ pl.stats
    → InOrder pl' (suc m)
unmoved-InOrder pl pl' m h hands same stats = record {
  hands = hands;
  on_route = λ c. subst (AllOn c) (sym (same c)) (h.on_route c);
  accounts = λ p.
      subst (λ t. Accounts (t p) (flight pl' p) (suc m)) (sym stats)
        (same-Accounts (pl.stats p) (flight pl p) (flight pl' p) m
          (along-congr (full pl) (full pl') p (route p) (λ c k. ap (pick p) (same c)))
          (h.accounts p));
}

hands-emptied :
    (pl : Plane) (n k : Node) (c : Port) (y : Packet)
    → (pl.hand k ≡ some (c, y) → producer c ≡ some k)
    → (set_hand pl n none).hand k ≡ some (c, y)
    → producer c ≡ some k
hands-emptied pl n k c y old e = elim (Bool-cases (node_id k == node_id n)) [
  | inl same ↦ cc (sym (if_true _ _ same) ∙ e)
  | inr other ↦ old (sym (if_false _ _ other) ∙ e)
]

-- A send of what a node has in hand.
pub sent-InOrder :
    (pl : Plane) (m : ℕ) (n : Node) (b : Port) (x : Packet)
    → InOrder pl m
    → pl.hand n ≡ some (b, x)
    → InOrder (set_hand (set_queue pl b (pl.queue b ++ (x ∷ []))) n none) (suc m)
sent-InOrder pl m n b x h e =
    unmoved-InOrder pl (set_hand (set_queue pl b (pl.queue b ++ (x ∷ []))) n none) m h
      (λ k c y g. hands-emptied (set_queue pl b (pl.queue b ++ (x ∷ []))) n k c y (h.hands k c y) g)
      (λ c. send-full pl n b x c e (h.hands n b x e)) refl

pub send_held-InOrder :
    (pl : Plane) (m : ℕ) (n : Node) (o : Option (Port × Packet))
    → InOrder pl m
    → pl.hand n ≡ o
    → InOrder (send_held n pl o) (suc m)
send_held-InOrder pl m n none h e = idle-InOrder pl m h
send_held-InOrder pl m n (some (b, x)) h e =
    elim (Bool-cases (ltb (length (pl.queue b)) chan_cap)) [
      | inl room ↦
          subst (λ t. InOrder t (suc m)) (sym (if_true _ _ room)) (sent-InOrder pl m n b x h e)
      | inr blocked ↦
          subst (λ t. InOrder t (suc m)) (sym (if_false _ _ blocked)) (idle-InOrder pl m h)
    ]
