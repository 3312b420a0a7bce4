-- ===== src/Pipeline/Schedule.antt =====
-- Any schedule of the pipeline's threads, and what `main` may conclude from its accounts.
use libchan.Base.{
  ℕ, suc, ◌+◌, ◌-◌, ◌^◌, ◌≤◌, ◌<◌, Bool, ◌&&◌, Option, none, some, List, [], ◌∷◌, ◌++◌, ◌≡◌, refl,
  sym, ap, ap₂, subst, ltb, if_true, if_false, Bool-cases, and_left, inl, inr, tabulate, u32,
  length, arith,
}
use libchan.Pipeline.Topology.{PathId, Port, Node, inject_ch}
use libchan.Pipeline.Plane.{
  Plane, Event, receives, sends, injects, polls, chan_cap, is_done, node_receive, node_send,
  inject_packet, poll_done, step, run, start,
}
use libchan.Pipeline.Route.{route, producer}
use libchan.Pipeline.Flight.{pick, along}
use libchan.Pipeline.Moves.{held_by, full}
use libchan.Pipeline.Accounts.{Accounts, settled}
use libchan.Pipeline.Order.{
  InOrder, AllOn, flight, idle-InOrder, receive_idle-InOrder, send_held-InOrder,
}
use libchan.Pipeline.Edges.{inject-InOrder, poll-InOrder}

-- Every event keeps the invariant.
step-InOrder : (pl : Plane) (m : ℕ) (e : Event) → InOrder pl m → InOrder (step pl e) (suc m)
unfolding step node_receive node_send inject_packet poll_done
step-InOrder pl m (receives n a) h = receive_idle-InOrder pl m n a (pl.hand n) h refl
step-InOrder pl m (sends n) h = send_held-InOrder pl m n (pl.hand n) h refl
step-InOrder pl m (injects p) h =
    let room = ltb (length (pl.queue (inject_ch p))) chan_cap in
    elim (Bool-cases ((pl.stats p).enabled && room)) [
      | inl e ↦
          subst (λ t. InOrder t (suc m)) (sym (if_true _ _ e))
            (inject-InOrder pl m p _ h (and_left (pl.stats p).enabled room e) refl refl)
      | inr e ↦ subst (λ t. InOrder t (suc m)) (sym (if_false _ _ e)) (idle-InOrder pl m h)
    ]
step-InOrder pl m (polls a) h = elim (Bool-cases (is_done a)) [
  | inl e ↦
      subst (λ t. InOrder t (suc m)) (sym (if_true _ _ e))
        (poll-InOrder pl m a (pl.queue a) h e refl)
  | inr e ↦ subst (λ t. InOrder t (suc m)) (sym (if_false _ _ e)) (idle-InOrder pl m h)
]

run_from-InOrder :
    (es : List Event) (pl : Plane) (m : ℕ) → InOrder pl m → InOrder (run pl es) (m + length es)
unfolding run
run_from-InOrder [] pl m h = subst (InOrder pl) {x = m} {y = m + 0} (omega arith) h
run_from-InOrder (e ∷ es) pl m h =
    subst (InOrder (run (step pl e) es)) {x = suc m + length es} {y = m + suc (length es)}
      (omega arith) (run_from-InOrder es (step pl e) (suc m) (step-InOrder pl m e h))

nothing-held : (o : Option Node) (c : Port) → held_by o (λ n. none) c ≡ []
nothing-held none c = refl
nothing-held (some n) c = refl

nothing-along :
    (on_path : PathId → Bool) (p : PathId) (cs : List Port) → along (full (start on_path)) p cs ≡ []
nothing-along on_path p [] = refl
nothing-along on_path p (c ∷ cs) =
    ap₂ ◌++◌ (nothing-along on_path p cs) (ap (pick p) (nothing-held (producer c) c))

pub start-InOrder : (on_path : PathId → Bool) → InOrder (start on_path) 0
start-InOrder on_path = record {
  hands = λ n b x e. cc;
  on_route = λ a. subst (AllOn a) (sym (nothing-held (producer a) a)) tt;
  accounts = λ p. record {
    injected = 0;
    counted = 0;
    counted_le = omega arith;
    injected_le = omega arith;
    sent_lem = refl;
    recv_lem = refl;
    dup_lem = refl;
    lost_lem = refl;
    next_lem = refl;
    live = inr refl;
    window = nothing-along on_path p (route p);
  };
}

pub after-Accounts :
    (on_path : PathId → Bool) (es : List Event) (p : PathId)
    → Accounts ((run (start on_path) es).stats p) (flight (run (start on_path) es) p) (length es)
after-Accounts on_path es p =
    subst (λ m. Accounts ((run (start on_path) es).stats p) (flight (run (start on_path) es) p) m)
      {x = 0 + length es} {y = length es} (omega arith)
      ((run_from-InOrder es (start on_path) 0 (start-InOrder on_path)).accounts p)

-- Under every schedule of the threads, as long as fewer than 2 ^ 64 events have happened: no packet
-- of a path is counted as lost or duplicate, and the packets of the path that are under way, in its
-- channels and in its nodes' hands from the last channel of the route to the first, are those that were
-- sent and not received, in the order in which they were sent.
pub run_in_order :
    (on_path : PathId → Bool) (es : List Event) (p : PathId)
    → length es < 2 ^ 64
    → let pl = run (start on_path) es in
      let s = pl.stats p in
      (s.lost ≡ 0)
      × (s.dup ≡ 0)
      × (s.recv ≤ s.sent)
      × (flight pl p ≡ tabulate (s.sent - s.recv) (λ j. u32 (s.recv + j)))
run_in_order on_path es p few = settled _ _ (length es) few (after-Accounts on_path es p)
