-- ===== src/Pipeline/Edges.antt =====
-- The main thread keeps the invariant of the pipeline: a packet that it injects, one that it counts.
use libchan.Base.{
  ℕ, suc, ◌+◌, true, false, List, [], ◌∷◌, ◌++◌, ◌≡◌, refl, sym, ap, subst, ◌∙◌, ◌==◌, ==_refl,
  if_true, if_false, Bool-cases, inl, inr, u32, arith,
}
use libchan.Pipeline.Topology.{PathId, Packet, Port, inject_ch, port_id, path_id, on}
use libchan.Pipeline.Plane.{Plane, stat_on_recv, u64, is_done, set_queue, set_stats, record_done}
use libchan.Pipeline.Route.{
  route, producer, same-port, same-path, on-inject, inject-first, inject-producer, before_sink,
  sink, route-split, sink-last, done-sink,
}
use libchan.Pipeline.Flight.{along, along-congr}
use libchan.Pipeline.Moves.{held_by, full}
use libchan.Pipeline.Accounts.{Accounts, same-Accounts, inject-Accounts, count-Accounts}
use libchan.Pipeline.Order.{InOrder, AllOn, AllOn-append, flight, idle-InOrder, front-on}
use libchan.Pipeline.Ends.{
  grown-full, shrunk-full, along-grown, along-shrunk, pick-grown, pick-shrunk,
}

pub inject-InOrder :
    (pl : Plane) (m : ℕ) (p : PathId) (x : Packet)
    → InOrder pl m
    → (pl.stats p).enabled ≡ true
    → x.path ≡ p
    → x.seq ≡ u32 (pl.stats p).sent
    → InOrder
        (set_stats
          (set_queue pl (inject_ch p) (pl.queue (inject_ch p) ++ (x ∷ [])))
          p
          (record (pl.stats p) { sent = u64 ((pl.stats p).sent + 1) }))
        (suc m)
inject-InOrder pl m p x h live mine numbered = record {
  hands = h.hands;
  on_route = λ c. elim (Bool-cases (port_id c == port_id a)) [
    | inl e ↦
        subst (λ t. AllOn t (f' t)) (sym (same-port c a e))
          (subst (AllOn a) (sym own) (
            AllOn-append a (full pl a) (x ∷ []) (h.on_route a)
              (subst (λ t. on a (route t) ≡ true) (sym mine) (on-inject p), tt)))
    | inr e ↦ subst (AllOn c) (sym (others c e)) (h.on_route c)
  ];
  accounts = λ q. elim (Bool-cases (path_id q == path_id p)) [
    | inl e ↦
        subst (λ t. Accounts t (along f' q (route q)) (suc m)) (sym (if_true _ _ e))
          (subst
            (λ t.
              Accounts (record (pl.stats p) { sent = u64 ((pl.stats p).sent + 1) })
                (along f' t (route t)) (suc m))
            (sym (same-path q p e))
            (subst
              (λ t. Accounts (record (pl.stats p) { sent = u64 ((pl.stats p).sent + 1) }) t (suc m))
              (sym (longer ∙ ap (λ (i : ℕ). flight pl p ++ (i ∷ [])) numbered))
              (inject-Accounts (pl.stats p) (flight pl p) m live (h.accounts p))))
    | inr e ↦
        subst (λ t. Accounts t (along f' q (route q)) (suc m)) (sym (if_false _ _ e))
          (same-Accounts (pl.stats q) (flight pl q) (along f' q (route q)) m
            (along-congr (full pl) f' q (route q)
              (λ c k. pick-grown (full pl) f' a x q c own others (apart q e)))
            (h.accounts q))
  ];
}
  where
    a : Port
    a = inject_ch p

    f' : Port → List Packet
    f' = full (set_queue pl (inject_ch p) (pl.queue (inject_ch p) ++ (x ∷ [])))

    own : f' a ≡ full pl a ++ (x ∷ [])
    own = grown-full pl a a x (inject-producer p) ∙ if_true _ _ (==_refl (port_id a))

    others : (c : Port) → (port_id c == port_id a) ≡ false → f' c ≡ full pl c
    others c e = grown-full pl a c x (inject-producer p) ∙ if_false _ _ e

    apart : (q : PathId) → (path_id q == path_id p) ≡ false → (path_id x.path == path_id q) ≡ false
    apart q e = ap (λ t. path_id t == path_id q) mine ∙ turn (path_id p) (path_id q) e
      where
        turn : (i j : ℕ) → (j == i) ≡ false → (i == j) ≡ false
        turn i j g = ground arith

    longer : along f' p (route p) ≡ flight pl p ++ (x.seq ∷ [])
    longer =
        let (rest, split, once) = inject-first p in
        ap (along f' p) split
        ∙ along-grown (full pl) f' a x p rest once own others mine
        ∙ ap (λ t. along (full pl) p t ++ (x.seq ∷ [])) (sym split)

pub record_done-InOrder :
    (pl : Plane) (m : ℕ) (a : Port) (x : Packet) (rest : List Packet)
    → InOrder pl m
    → is_done a ≡ true
    → pl.queue a ≡ x ∷ rest
    → InOrder
        (set_stats (set_queue pl a rest) x.path (stat_on_recv (pl.stats x.path) x.seq))
        (suc m)
record_done-InOrder pl m a x rest h last q = record {
  hands = h.hands;
  on_route = λ c. elim (Bool-cases (port_id c == port_id a)) [
    | inl e ↦
        subst (λ t. AllOn t (f' t)) (sym (same-port c a e)) ((subst (AllOn a) own (h.on_route a)).1)
    | inr e ↦ subst (AllOn c) (sym (others c e)) (h.on_route c)
  ];
  accounts = λ p. elim (Bool-cases (path_id p == path_id x.path)) [
    | inl e ↦
        subst (λ t. Accounts t (along f' p (route p)) (suc m)) (sym (if_true _ _ e))
          (subst
            (λ t. Accounts (stat_on_recv (pl.stats x.path) x.seq) (along f' t (route t)) (suc m))
            (sym (same-path p x.path e))
            (count-Accounts (pl.stats x.path) x.seq (along f' x.path (route x.path)) m
              (subst (λ t. Accounts (pl.stats x.path) t m) shorter (h.accounts x.path))))
    | inr e ↦
        subst (λ t. Accounts t (along f' p (route p)) (suc m)) (sym (if_false _ _ e))
          (same-Accounts (pl.stats p) (flight pl p) (along f' p (route p)) m
            (along-congr (full pl) f' p (route p) (λ c k.
              pick-shrunk (full pl) f' a x p c own others (turn (path_id x.path) (path_id p) e)))
            (h.accounts p))
  ];
}
  where
    f' : Port → List Packet
    f' = full (set_queue pl a rest)

    turn : (i j : ℕ) → (j == i) ≡ false → (i == j) ≡ false
    turn i j g = ground arith

    own : full pl a ≡ x ∷ f' a
    own =
        ap (λ t. t ++ held_by (producer a) pl.hand a) q
        ∙ ap (λ t. x ∷ (t ++ held_by (producer a) pl.hand a))
            (sym (if_true _ _ (==_refl (port_id a))))

    others : (c : Port) → (port_id c == port_id a) ≡ false → f' c ≡ full pl c
    others c e = shrunk-full pl a c rest e

    end : a ≡ sink x.path
    end = done-sink a x.path last (front-on pl m a x rest h q)

    split : route x.path ≡ before_sink x.path ++ (a ∷ [])
    split = route-split x.path ∙ ap (λ t. before_sink x.path ++ (t ∷ [])) (sym end)

    shorter : flight pl x.path ≡ x.seq ∷ along f' x.path (route x.path)
    shorter =
        ap (along (full pl) x.path) split
        ∙ along-shrunk (full pl) f' a x x.path (before_sink x.path)
            (ap (λ t. on t (before_sink x.path)) end ∙ sink-last x.path) own others refl
        ∙ ap (λ t. x.seq ∷ along f' x.path t) (sym split)

pub poll-InOrder :
    (pl : Plane) (m : ℕ) (a : Port) (q : List Packet)
    → InOrder pl m
    → is_done a ≡ true
    → pl.queue a ≡ q
    → InOrder (record_done a pl q) (suc m)
poll-InOrder pl m a [] h last e = idle-InOrder pl m h
poll-InOrder pl m a (x ∷ rest) h last e = record_done-InOrder pl m a x rest h last e
