-- ===== src/Mpsc/Exit.antt =====
-- What `main` of the pipeline with inboxes may conclude where its drain loop ends.
use libchan.Base.{
  ℕ, ◌^◌, ◌<◌, Bool, true, Option, none, some, List, [], ◌∷◌, ◌++◌, length, ◌≡◌, refl, sym, ap,
  subst, ◌∙◌, ◌==◌, Bool-cases, or_drop, inl, inr,
}
use libchan.Pipeline.Topology.{PathId, Packet, Port, Node, port_id, on}
use libchan.Pipeline.Plane.{Plane}
use libchan.Pipeline.Totals.{total_sent, total_recv, all_drained, exit_status}
use libchan.Pipeline.Route.{route, producer, same-port}
use libchan.Pipeline.Flight.{pick, pick-own, along}
use libchan.Pipeline.Moves.{held, held_by, held-own, full}
use libchan.Pipeline.Order.{InOrder, AllOn, flight}
use libchan.Pipeline.Exit.{all_drained-settled}
use libchan.Mpsc.Boxes.{Box, Boxes, Event, run, start}
use libchan.Mpsc.Links.{link, linked, view}
use libchan.Mpsc.Follows.{front-view}
use libchan.Mpsc.Schedule.{after-InOrder}

nil-split : (xs ys : List ℕ) → xs ++ ys ≡ [] → (xs ≡ []) × (ys ≡ [])
nil-split [] ys e = (refl, e)
nil-split (x ∷ xs) ys e = cc

along-nil :
    (f : Port → List Packet) (p : PathId) (a : Port) (cs : List Port)
    → on a cs ≡ true
    → along f p cs ≡ []
    → pick p (f a) ≡ []
along-nil f p a [] h e = cc
along-nil f p a (c ∷ cs) h e =
    let (later, here) = nil-split (along f p cs) (pick p (f c)) e in
    elim (Bool-cases (port_id c == port_id a)) [
      | inl same ↦ ap (λ t. pick p (f t)) (sym (same-port c a same)) ∙ here
      | inr other ↦ along-nil f p a cs (or_drop _ _ other h) later
    ]

-- Where nothing of any path is under way, no channel holds a packet, nor does one wait behind it.
full-nil :
    (pl : Plane) (m : ℕ) (a : Port) (q : List Packet)
    → InOrder pl m
    → ((p : PathId) → flight pl p ≡ [])
    → full pl a ≡ q
    → q ≡ []
full-nil pl m a [] h clear e = refl
full-nil pl m a (x ∷ xs) h clear e =
    let on_route = (subst (AllOn a) e (h.on_route a)).0 in
    let gone = along-nil (full pl) x.path a (route x.path) on_route (clear x.path) in
    cc (sym (pick-own x.path x xs refl) ∙ ap (pick x.path) (sym e) ∙ gone)

packets-split : (xs ys : List Packet) → xs ++ ys ≡ [] → (xs ≡ []) × (ys ≡ [])
packets-split [] ys e = (refl, e)
packets-split (x ∷ xs) ys e = cc

box-nil :
    (s : Boxes) (m : ℕ) (b : Box) (q : List Packet)
    → InOrder (view s) m
    → ((p : PathId) → flight (view s) p ≡ [])
    → s.queue b ≡ q
    → q ≡ []
box-nil s m b [] h clear e = refl
box-nil s m b (x ∷ rest) h clear e =
    let a = link x.path b in
    let gone =
      (packets-split ((view s).queue a) (held_by (producer a) (view s).hand a)
        (full-nil (view s) m a (full (view s) a) h clear refl)).0 in
    cc (sym (front-view s b x rest e) ∙ gone)

hand-nil :
    (s : Boxes) (m : ℕ) (n : Node) (o : Option (Box × Packet))
    → InOrder (view s) m
    → ((p : PathId) → flight (view s) p ≡ [])
    → s.hand n ≡ o
    → o ≡ none
hand-nil s m n none h clear e = refl
hand-nil s m n (some (b, x)) h clear e =
    let a = link x.path b in
    let gone =
      (packets-split ((view s).queue a) (held_by (producer a) (view s).hand a)
        (full-nil (view s) m a (full (view s) a) h clear refl)).1 in
    cc (
      sym (
        ap (λ o. held_by o (view s).hand a) (h.hands n a x (ap linked e))
        ∙ ap (λ t. held (linked t) a) e
        ∙ held-own a x)
      ∙ gone)

-- Where the packets are in order, and `all_drained` says so.
pub drained-clears :
    (s : Boxes) (m : ℕ)
    → InOrder (view s) m
    → m < 2 ^ 64
    → all_drained s.stats ≡ true
    → (exit_status s.stats ≡ 0)
      × (total_recv s.stats ≡ total_sent s.stats)
      × ((b : Box) → s.queue b ≡ [])
      × ((n : Node) → s.hand n ≡ none)
drained-clears s m h few drained =
    let (status, totals, clear) =
      all_drained-settled s.stats (flight (view s)) m h.accounts few drained in
    (
      status,
      totals,
      λ b. box-nil s m b (s.queue b) h clear refl,
      λ n. hand-nil s m n (s.hand n) h clear refl,
    )

-- Under every schedule of fewer than 2 ^ 64 events: where `all_drained` ends the drain loop, `main`
-- returns 0, as many packets were received as sent, and all inboxes and all hands of the nodes are
-- empty.
pub all_drained-clears :
    (on_path : PathId → Bool) (es : List Event)
    → length es < 2 ^ 64
    → all_drained (run (start on_path) es).stats ≡ true
    → let s = run (start on_path) es in
      (exit_status s.stats ≡ 0)
      × (total_recv s.stats ≡ total_sent s.stats)
      × ((b : Box) → s.queue b ≡ [])
      × ((n : Node) → s.hand n ≡ none)
all_drained-clears on_path es few =
    drained-clears (run (start on_path) es) (length es) (after-InOrder on_path es) few
