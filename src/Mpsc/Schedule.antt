-- ===== src/Mpsc/Schedule.antt =====
-- Any schedule of the threads of the pipeline with inboxes.
use libchan.Base.{
  ℕ, suc, ◌+◌, ◌-◌, ◌^◌, ◌≤◌, ◌<◌, Bool, true, ◌&&◌, Option, none, some, List, [], ◌∷◌, ◌++◌, ◌≡◌,
  refl, sym, ap, subst, ◌∙◌, if_true, if_false, Bool-cases, Option-cases, and_left, inl, inr,
  tabulate, u32, length, arith,
}
use libchan.Pipeline.Topology.{PathId, Packet, Node}
use libchan.Pipeline.Plane.{Plane, is_done, u64, stat_on_recv}
use libchan.Pipeline.Plane
use libchan.Pipeline.Route.{sink}
use libchan.Pipeline.Accounts.{settled}
use libchan.Pipeline.Order.{InOrder, flight, idle-InOrder, receive-InOrder, sent-InOrder, front-on}
use libchan.Pipeline.Edges.{inject-InOrder, record_done-InOrder}
use libchan.Pipeline.Schedule.{start-InOrder}
use libchan.Mpsc.Boxes.{
  Box, in_done, inbox, handle, inject_inbox, Boxes, set_queue, set_hand, set_stats, in_hand, take,
  receive_idle, has_room, send_held, node_receive, node_send, inject_packet, record_done,
  poll_done_try, Event, receives, sends, injects, polls, step, run, start,
}
use libchan.Mpsc.Links.{
  link, came_on, linked, view, link-polled, link-inject, link-handle, handle-sends,
}
use libchan.Mpsc.Follows.{front-view, view-received, view-sent, view-injected, view-counted}

-- What the inboxes hold is in order.
abbrev Ordered : Boxes → ℕ → Type 0
Ordered s m = InOrder (view s) m

take-Ordered :
    (s : Boxes) (m : ℕ) (n : Node) (q : List Packet)
    → Ordered s m
    → s.hand n ≡ none
    → s.queue (inbox n) ≡ q
    → Ordered (take n s q) (suc m)
take-Ordered s m n [] h idle e = idle-InOrder (view s) m h
take-Ordered s m n (x ∷ rest) h idle e =
    let a = link x.path (inbox n) in
    let shown = front-view s (inbox n) x rest e in
    let on_route = front-on (view s) m a x (came_on a rest) h shown in
    elim (Option-cases (handle n x.path)) [
      | inl dropped ↦ absurd (handle-sends n x.path on_route dropped)
      | inr (b, sent) ↦
          subst (λ o. Ordered (set_hand (set_queue s (inbox n) rest) n (in_hand o x)) (suc m))
            (sym sent)
            (subst (λ t. InOrder t (suc m))
              (sym (view-received s (inbox n) x n rest (some (b, x)) e))
              (receive-InOrder (view s) m n a (link x.path b) x (came_on a rest) h (ap linked idle)
                (link-polled x.path n) shown (link-handle n x.path b on_route sent)))
    ]

receive_idle-Ordered :
    (s : Boxes) (m : ℕ) (n : Node) (o : Option (Box × Packet))
    → Ordered s m
    → s.hand n ≡ o
    → Ordered (receive_idle n s o) (suc m)
receive_idle-Ordered s m n (some y) h e = idle-InOrder (view s) m h
receive_idle-Ordered s m n none h e = take-Ordered s m n (s.queue (inbox n)) h e refl

send_held-Ordered :
    (s : Boxes) (m : ℕ) (n : Node) (o : Option (Box × Packet))
    → Ordered s m
    → s.hand n ≡ o
    → Ordered (send_held n s o) (suc m)
send_held-Ordered s m n none h e = idle-InOrder (view s) m h
send_held-Ordered s m n (some (b, x)) h e = elim (Bool-cases (has_room s b)) [
  | inl room ↦
      subst (λ t. Ordered t (suc m)) (sym (if_true _ _ room))
        (subst (λ t. InOrder t (suc m)) (sym (view-sent s b x n))
          (sent-InOrder (view s) m n (link x.path b) x h (ap linked e)))
  | inr blocked ↦
      subst (λ t. Ordered t (suc m)) (sym (if_false _ _ blocked)) (idle-InOrder (view s) m h)
]

inject-Ordered :
    (s : Boxes) (m : ℕ) (p : PathId) (x : Packet)
    → Ordered s m
    → (s.stats p).enabled ≡ true
    → x.path ≡ p
    → x.seq ≡ u32 (s.stats p).sent
    → Ordered
        (set_stats
          (set_queue s (inject_inbox p) (s.queue (inject_inbox p) ++ (x ∷ [])))
          p
          (record (s.stats p) { sent = u64 ((s.stats p).sent + 1) }))
        (suc m)
inject-Ordered s m p x h live mine numbered =
    let t = record (s.stats p) { sent = u64 ((s.stats p).sent + 1) } in
    subst (λ pl. InOrder pl (suc m))
      (ap (λ a. Plane.set_stats (Plane.set_queue (view s) a ((view s).queue a ++ (x ∷ []))) p t)
          (sym (link-inject p) ∙ ap (λ q. link q (inject_inbox p)) (sym mine))
        ∙ sym (view-injected s (inject_inbox p) x p t))
      (inject-InOrder (view s) m p x h live mine numbered)

sink-is_done : (p : PathId) → is_done (sink p) ≡ true
sink-is_done p = ground arith

record_done-Ordered :
    (s : Boxes) (m : ℕ) (q : List Packet)
    → Ordered s m
    → s.queue in_done ≡ q
    → Ordered (record_done s q) (suc m)
record_done-Ordered s m [] h e = idle-InOrder (view s) m h
record_done-Ordered s m (x ∷ rest) h e =
    subst (λ pl. InOrder pl (suc m))
      (sym (view-counted s in_done x rest x.path (stat_on_recv (s.stats x.path) x.seq) e))
      (record_done-InOrder (view s) m (sink x.path) x (came_on (sink x.path) rest) h
        (sink-is_done x.path) (front-view s in_done x rest e))

-- Every event keeps the order.
pub step-Ordered : (s : Boxes) (m : ℕ) (e : Event) → Ordered s m → Ordered (step s e) (suc m)
unfolding step node_receive node_send inject_packet poll_done_try
step-Ordered s m (receives n) h = receive_idle-Ordered s m n (s.hand n) h refl
step-Ordered s m (sends n) h = send_held-Ordered s m n (s.hand n) h refl
step-Ordered s m (injects p) h =
    elim (Bool-cases ((s.stats p).enabled && has_room s (inject_inbox p))) [
      | inl e ↦
          subst (λ t. Ordered t (suc m)) (sym (if_true _ _ e))
            (inject-Ordered s m p _ h (and_left (s.stats p).enabled (has_room s (inject_inbox p)) e)
              refl refl)
      | inr e ↦ subst (λ t. Ordered t (suc m)) (sym (if_false _ _ e)) (idle-InOrder (view s) m h)
    ]
step-Ordered s m polls h = record_done-Ordered s m (s.queue in_done) h refl

run_from-Ordered :
    (es : List Event) (s : Boxes) (m : ℕ) → Ordered s m → Ordered (run s es) (m + length es)
unfolding run
run_from-Ordered [] s m h = subst (Ordered s) {x = m} {y = m + 0} (omega arith) h
run_from-Ordered (e ∷ es) s m h =
    subst (Ordered (run (step s e) es)) {x = suc m + length es} {y = m + suc (length es)}
      (omega arith) (run_from-Ordered es (step s e) (suc m) (step-Ordered s m e h))

pub after-InOrder :
    (on_path : PathId → Bool) (es : List Event)
    → InOrder (view (run (start on_path) es)) (length es)
after-InOrder on_path es =
    subst (Ordered (run (start on_path) es)) {x = 0 + length es} {y = length es} (omega arith)
      (run_from-Ordered es (start on_path) 0 (start-InOrder on_path))

-- Under every schedule of the threads, as long as fewer than 2 ^ 64 events have happened: no packet
-- of a path is counted as lost or duplicate, and the packets of the path that are under way, in the
-- inboxes and in the nodes' hands from the last inbox of the route to the first, are those that were
-- sent and not received, in the order in which they were sent, although the inboxes mix the paths.
pub boxes_in_order :
    (on_path : PathId → Bool) (es : List Event) (p : PathId)
    → length es < 2 ^ 64
    → let s = run (start on_path) es in
      let t = s.stats p in
      (t.lost ≡ 0)
      × (t.dup ≡ 0)
      × (t.recv ≤ t.sent)
      × (flight (view s) p ≡ tabulate (t.sent - t.recv) (λ j. u32 (t.recv + j)))
boxes_in_order on_path es p few =
    settled _ _ (length es) few ((after-InOrder on_path es).accounts p)
