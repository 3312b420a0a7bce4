-- ===== src/Mpsc/Sends.antt =====
-- The loops of `main` of the pipeline with inboxes: what was sent on each path at each point, within the
-- events that the moments allow.
use libchan.Base.{
  ℕ, suc, ◌+◌, ◌≤◌, Bool, true, false, Option, none, some, List, [], ◌∷◌, length, ◌≡◌, refl, sym,
  ap, subst, ◌∙◌, ◌==◌, if◌then◌else◌, if_true, if_false, Bool-cases, and_intro, inl, inr, arith,
}
use libchan.Pipeline.Topology.{PathId, Packet, Node, path_id}
use libchan.Pipeline.Plane.{PathStat, stat_on_recv, u64}
use libchan.Pipeline.Route.{same-path}
use libchan.Pipeline.Order.{InOrder}
use libchan.Mpsc.Boxes.{
  Box, Boxes, in_done, inject_inbox, has_room, node_receive, node_send, inject_packet,
  poll_done_try, take, receive_idle, send_held, record_done, receives, sends, injects, polls, step,
  inbox,
}
use libchan.Mpsc.Links.{view}
use libchan.Mpsc.Schedule.{step-Ordered}
use libchan.Mpsc.Traffic.{Moment, node_event, meanwhile}

-- How many events happen at most in these moments: `main` makes two in each.
abbrev pub cost : List Moment → ℕ
cost [] = 0
cost (m ∷ ms) = 2 + length m.others + cost ms

-- `k` packets were sent on each path, and what is under way is in order.
pub record Sends (bound : ℕ) (on_path : PathId → Bool) (k : PathId → ℕ) (s : Boxes)
    (ms : List Moment) : Type 0 where
  pub events : ℕ
  pub order : InOrder (view s) events
  pub budget : events + cost ms ≤ bound
  pub enabled_lem : (q : PathId) → (s.stats q).enabled ≡ on_path q
  pub sent_lem : (q : PathId) → (s.stats q).sent ≡ u64 (k q)

-- The nodes leave the accounts alone.
take-stats : (n : Node) (s : Boxes) (q : List Packet) → (take n s q).stats ≡ s.stats
take-stats n s [] = refl
take-stats n s (x ∷ rest) = refl

receive_idle-stats :
    (n : Node) (s : Boxes) (o : Option (Box × Packet)) → (receive_idle n s o).stats ≡ s.stats
receive_idle-stats n s none = take-stats n s (s.queue (inbox n))
receive_idle-stats n s (some y) = refl

send_held-stats :
    (n : Node) (s : Boxes) (o : Option (Box × Packet)) → (send_held n s o).stats ≡ s.stats
send_held-stats n s none = refl
send_held-stats n s (some (b, x)) = elim (Bool-cases (has_room s b)) [
  | inl e ↦ ap (λ (t : Boxes). t.stats) (if_true _ _ e)
  | inr e ↦ ap (λ (t : Boxes). t.stats) (if_false _ _ e)
]

node_event-stats : (s : Boxes) (t : Node × Bool) → (node_event s t).stats ≡ s.stats
unfolding node_receive node_send
node_event-stats s (n, true) = receive_idle-stats n s (s.hand n)
node_event-stats s (n, false) = send_held-stats n s (s.hand n)

meanwhile-stats : (s : Boxes) (ts : List (Node × Bool)) → (meanwhile s ts).stats ≡ s.stats
meanwhile-stats s [] = refl
meanwhile-stats s (t ∷ ts) = meanwhile-stats (node_event s t) ts ∙ node_event-stats s t

node_event-InOrder :
    (s : Boxes) (m : ℕ) (t : Node × Bool)
    → InOrder (view s) m
    → InOrder (view (node_event s t)) (suc m)
unfolding step
node_event-InOrder s m (n, true) h = step-Ordered s m (receives n) h
node_event-InOrder s m (n, false) h = step-Ordered s m (sends n) h

meanwhile-InOrder :
    (s : Boxes) (m : ℕ) (ts : List (Node × Bool))
    → InOrder (view s) m
    → InOrder (view (meanwhile s ts)) (m + length ts)
meanwhile-InOrder s m [] h = subst (InOrder (view s)) {x = m} {y = m + 0} (omega arith) h
meanwhile-InOrder s m (t ∷ ts) h =
    subst (InOrder (view (meanwhile (node_event s t) ts))) {x = suc m + length ts}
      {y = m + suc (length ts)} (omega arith)
      (meanwhile-InOrder (node_event s t) (suc m) ts (node_event-InOrder s m t h))

-- `poll_done_try` leaves what was sent alone.
stat_on_recv-sent :
    (t : PathStat) (i : ℕ)
    → ((stat_on_recv t i).enabled ≡ t.enabled) × ((stat_on_recv t i).sent ≡ t.sent)
unfolding stat_on_recv
stat_on_recv-sent t i = (ground arith, ground arith)

record_done-sent :
    (s : Boxes) (xs : List Packet) (q : PathId)
    → (((record_done s xs).stats q).enabled ≡ (s.stats q).enabled)
      × (((record_done s xs).stats q).sent ≡ (s.stats q).sent)
record_done-sent s [] q = (refl, refl)
record_done-sent s (x ∷ rest) q = elim (Bool-cases (path_id q == path_id x.path)) [
  | inl e ↦
      let kept = stat_on_recv-sent (s.stats x.path) x.seq in
      let eq = same-path q x.path e in
      (
        ap (λ (t : PathStat). t.enabled) (if_true _ _ e)
            ∙ kept.0
            ∙ ap (λ t. (s.stats t).enabled) (sym eq),
        ap (λ (t : PathStat). t.sent) (if_true _ _ e)
            ∙ kept.1
            ∙ ap (λ t. (s.stats t).sent) (sym eq),
      )
  | inr e ↦ (
    ap (λ (t : PathStat). t.enabled) (if_false _ _ e),
    ap (λ (t : PathStat). t.sent) (if_false _ _ e),
  )
]

-- One more on a path.
abbrev pub one_more : PathId → (PathId → ℕ) → PathId → ℕ
one_more p k q = k q + (if path_id q == path_id p then 1 else 0)

module _ (bound : ℕ) (on_path : PathId → Bool) (k : PathId → ℕ) (s : Boxes) (m : Moment)
    (ms : List Moment) where
  -- A moment in which `main` does nothing.
  pub meanwhile-Sends :
      Sends bound on_path k s (m ∷ ms) → Sends bound on_path k (meanwhile s m.others) ms
  meanwhile-Sends h = record {
    events = h.events + length m.others;
    order = meanwhile-InOrder s h.events m.others h.order;
    budget = omega (arith, h.budget);
    enabled_lem = λ q.
        ap (λ (t : PathId → PathStat). (t q).enabled) (meanwhile-stats s m.others)
        ∙ h.enabled_lem q;
    sent_lem =
        λ q. ap (λ (t : PathId → PathStat). (t q).sent) (meanwhile-stats s m.others) ∙ h.sent_lem q;
  }

  -- One in which it polls.
  pub poll-Sends :
      Sends bound on_path k s (m ∷ ms)
      → Sends bound on_path k (poll_done_try (meanwhile s m.others)) ms
  unfolding step poll_done_try
  poll-Sends h =
      let s' = meanwhile s m.others in
      let g = meanwhile-Sends h in
      let kept = record_done-sent s' (s'.queue in_done) in
      record {
        events = suc (h.events + length m.others);
        order =
            step-Ordered s' (h.events + length m.others) polls
              (meanwhile-InOrder s h.events m.others h.order);
        budget = omega (arith, h.budget);
        enabled_lem = λ q. (kept q).0 ∙ g.enabled_lem q;
        sent_lem = λ q. (kept q).1 ∙ g.sent_lem q;
      }

  -- One in which it injects and polls.
  pub inject-Sends :
      (p : PathId)
      → on_path p ≡ true
      → has_room (meanwhile s m.others) (inject_inbox p) ≡ true
      → Sends bound on_path k s (m ∷ ms)
      → Sends bound on_path
          (one_more p k)
          (poll_done_try (inject_packet p (meanwhile s m.others)))
          ms
  unfolding step poll_done_try inject_packet
  inject-Sends p live room h =
      let s' = meanwhile s m.others in
      let g = meanwhile-Sends h in
      let t = inject_packet p s' in
      let went_in = if_true _ s' (
        and_intro (s'.stats p).enabled (has_room s' (inject_inbox p)) (g.enabled_lem p ∙ live)
          room) in
      let kept = record_done-sent t (t.queue in_done) in
      record {
        events = suc (suc (h.events + length m.others));
        order = step-Ordered t (suc (h.events + length m.others)) polls (
            step-Ordered s' (h.events + length m.others) (injects p)
              (meanwhile-InOrder s h.events m.others h.order));
        budget = omega (arith, h.budget);
        enabled_lem = λ q.
            (kept q).0
            ∙ ap (λ (u : Boxes). (u.stats q).enabled) went_in
            ∙ elim (Bool-cases (path_id q == path_id p)) [
              | inl e ↦
                  ap (λ (u : PathStat). u.enabled) (if_true _ _ e)
                  ∙ g.enabled_lem p
                  ∙ ap on_path (sym (same-path q p e))
              | inr e ↦ ap (λ (u : PathStat). u.enabled) (if_false _ _ e) ∙ g.enabled_lem q
            ];
        sent_lem = λ q.
            (kept q).1
            ∙ ap (λ (u : Boxes). (u.stats q).sent) went_in
            ∙ elim (Bool-cases (path_id q == path_id p)) [
              | inl e ↦
                  ap (λ (u : PathStat). u.sent) (if_true _ _ e)
                  ∙ one_up (s'.stats p).sent (k q)
                      (g.sent_lem p ∙ ap (λ r. u64 (k r)) (sym (same-path q p e)))
                  ∙ ap (λ (i : ℕ). u64 (k q + i)) (sym (if_true _ _ e))
              | inr e ↦
                  ap (λ (u : PathStat). u.sent) (if_false _ _ e)
                  ∙ g.sent_lem q
                  ∙ ap (λ (i : ℕ). u64 i) {x = k q} {y = k q + 0} (omega arith)
                  ∙ ap (λ (i : ℕ). u64 (k q + i)) (sym (if_false _ _ e))
            ];
      }
    where
      one_up : (i j : ℕ) → i ≡ u64 j → u64 (i + 1) ≡ u64 (j + 1)
      one_up i j e = omega (arith, e)
